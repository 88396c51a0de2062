-- ===== src/Policy/Laws.antt =====
-- The decision of app/Policies/InstancePolicy.go against its configuration.
use mathlib.Core.Path.{subst}
use arandu_whatsapp.Authz.Security.{Action}
use arandu_whatsapp.Policy.{
  Action-eq, PolicyConfig, Subject, can, copy_roles, has_any_role, new_instance_policy,
  open_actions, opened, or_nil, roles_of,
}
use arandu_whatsapp.Prelude.{
  ==_iff, ==_refl, Bool-cases, List, List-eq, Option, Option-eq, String, String-eq, [], ap, arith,
  contains, false, if◌then◌else◌, inl, inr, none, refl, some, true, ℕ-eq, ◌↔◌, ◌∷◌, ◌≡◌, ◌≢◌, ◌⊎◌,
}
use arandu_whatsapp.Prelude.Map.{Map, get, get-put}

get-copy_roles : (m : Map Action (List String)) (a : Action) → get (copy_roles m) a ≡ get m a
unfolding copy_roles get
get-copy_roles [] a = refl
get-copy_roles ((b, l) ∷ m) a = rw get-put (rw (get-copy_roles m a))

get-open_actions :
    (l : List Action) (a : Action)
    → get (open_actions l) a ≡ (if contains l a then some true else none)
unfolding open_actions get
get-open_actions [] a = refl
get-open_actions (b ∷ l) a = rw get-put (rw (get-open_actions l a) (ground arith))

no_roles : (s : Subject) → has_any_role s [] ≢ true
unfolding has_any_role
no_roles s h = cc

has_any_role_sound :
    (s : Subject) (l : List String)
    → has_any_role s l ≡ true
    → (r : String) × (contains l r ≡ true) × (s.has_role r ≡ true)
unfolding has_any_role
has_any_role_sound s [] h = cc
has_any_role_sound s (q ∷ l) h = elim (Bool-cases (s.has_role q)) [
  | inl held ↦ (q, ground (arith, ==_refl q), held)
  | inr lacks ↦
      let (r, listed, held) = has_any_role_sound s l (ground arith) in (r, ground arith, held)
]

has_any_role_complete :
    (s : Subject) (l : List String) (r : String)
    → contains l r ≡ true
    → s.has_role r ≡ true
    → has_any_role s l ≡ true
unfolding has_any_role
has_any_role_complete s [] r h k = cc
has_any_role_complete s (q ∷ l) r h k = ground (arith, ==_iff q r, has_any_role_complete s l r)

-- A role that the configuration lists for the action, and that the subject has.
pub record HeldRole (cfg : PolicyConfig) (s : Subject) (a : Action) : Type 0 where
  pub role : String
  pub allowed : List String
  pub configured : get cfg.roles a ≡ some allowed
  pub listed : contains allowed role ≡ true
  pub held : s.has_role role ≡ true

-- The configuration leaves the action to the subject's own actions, and a subject who is no guest
-- carries it.
pub record OwnAction (cfg : PolicyConfig) (s : Subject) (a : Action) : Type 0 where
  pub configured : contains cfg.actions a ≡ true
  pub known : s.is_guest ≡ false
  pub carried : s.can a ≡ true

roles_of-new_instance_policy :
    (cfg : PolicyConfig) (a : Action)
    → roles_of (new_instance_policy cfg) a ≡ or_nil (get cfg.roles a)
unfolding new_instance_policy
roles_of-new_instance_policy cfg a = ap or_nil (get-copy_roles cfg.roles a)

HeldRole-has_any_role :
    (cfg : PolicyConfig) (s : Subject) (a : Action)
    → has_any_role s (roles_of (new_instance_policy cfg) a) ≡ true
    → HeldRole cfg s a
HeldRole-has_any_role cfg s a h =
    go (get cfg.roles a) refl
      (subst (λ l. has_any_role s l ≡ true) (roles_of-new_instance_policy cfg a) h)
  where
    go :
        (o : Option (List String))
        → get cfg.roles a ≡ o
        → has_any_role s (or_nil o) ≡ true
        → HeldRole cfg s a
    go none e k = absurd (no_roles s k)
    go (some l) e k =
        let (r, listed, held) = has_any_role_sound s l k in
        record { role = r; allowed = l; configured = e; listed = listed; held = held }

has_any_role-HeldRole :
    (cfg : PolicyConfig) (s : Subject) (a : Action)
    → HeldRole cfg s a
    → has_any_role s (roles_of (new_instance_policy cfg) a) ≡ true
has_any_role-HeldRole cfg s a h =
    has_any_role_complete s (roles_of (new_instance_policy cfg) a) h.role
      (cc (roles_of-new_instance_policy cfg a, ap or_nil h.configured, h.listed)) h.held

opened-new_instance_policy :
    (cfg : PolicyConfig) (a : Action) → opened (new_instance_policy cfg) a ≡ contains cfg.actions a
unfolding new_instance_policy
opened-new_instance_policy cfg a = ground (arith, get-open_actions cfg.actions a)

module _ (cfg : PolicyConfig) (s : Subject) (a : Action) (t : String) where
  can_sound :
      can (new_instance_policy cfg) s a t ≡ none
      → ((t ≡ "") ⊎ (t ≡ s.tenant)) × (HeldRole cfg s a ⊎ OwnAction cfg s a)
  unfolding can
  can_sound h = elim (Bool-cases (has_any_role s (roles_of (new_instance_policy cfg) a))) [
    | inl held ↦
        (ground (arith, ==_iff t "", ==_iff t s.tenant), inl (HeldRole-has_any_role cfg s a held))
    | inr lacks ↦ (
      ground (arith, ==_iff t "", ==_iff t s.tenant),
      inr (ground (arith, opened-new_instance_policy cfg a)),
    )
  ]

  can_complete :
      ((t ≡ "") ⊎ (t ≡ s.tenant)) × (HeldRole cfg s a ⊎ OwnAction cfg s a)
      → can (new_instance_policy cfg) s a t ≡ none
  unfolding can
  can_complete (own, inl r) =
      ground (arith, ==_iff t "", ==_iff t s.tenant, has_any_role-HeldRole cfg s a r)
  can_complete (own, inr o) = ground (
    arith,
    ==_iff t "",
    ==_iff t s.tenant,
    o.configured,
    o.known,
    o.carried,
    opened-new_instance_policy cfg a,
  )

-- Default deny and tenant isolation. The policy built from a configuration permits an action on an
-- instance exactly when the instance has no tenant or the subject's own, and either the subject has
-- a role that the configuration lists for this action, or the configuration leaves the action to
-- the subject's own actions and a subject who is no guest carries it.
pub can_iff :
    (cfg : PolicyConfig) (s : Subject) (a : Action) (t : String)
    → (can (new_instance_policy cfg) s a t ≡ none)
      ↔ (((t ≡ "") ⊎ (t ≡ s.tenant)) × (HeldRole cfg s a ⊎ OwnAction cfg s a))
can_iff cfg s a t = (can_sound cfg s a t, can_complete cfg s a t)
