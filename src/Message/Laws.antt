-- ===== src/Message/Laws.antt =====
-- What internal/message/options.go and internal/message/mentions.go guarantee.
use arandu_whatsapp.Errors.{Result, err, ok}
use arandu_whatsapp.Message.{
  MessageKind, MessageOptions, Presence, checked_presence, chosen_presence, composing, delay_of,
  kind_audio, kind_ptv, merge_loop, merge_mentioned_jids, other_kind, presence_allowed, presence_of,
  recording, validate_options,
}
use arandu_whatsapp.Policy.{Action-eq}
use arandu_whatsapp.Prelude.{
  ==_iff, ==_refl, Bool, IsUnique, List, List-eq, Option, Option-eq, String-eq, [], arith, contains,
  false, if-elim, is_some, map, none, not, refl, some, true, ℕ, ℕ-eq, ◌&&◌, ◌++◌, ◌<◌, ◌==◌, ◌∷◌,
  ◌≡◌, ◌≢◌, ◌≤◌, ◌⊎◌,
}
use arandu_whatsapp.Prelude.Text.{Text, Unicode, trim_space}

-- The presence may be shown for the kind, if there is one.
abbrev pub presence_fits : Option Presence → MessageKind → Bool
presence_fits none kind = true
presence_fits (some p) kind = presence_allowed p kind

abbrev pub is_other_kind : MessageKind → Bool
is_other_kind (other_kind name) = true
is_other_kind _ = false

-- Which presence is shown with which kind.
abbrev pub Suits : Option Presence → MessageKind → Type 0
Suits none kind = Unit
Suits (some recording) kind = (kind ≡ kind_audio) ⊎ (kind ≡ kind_ptv)
Suits (some composing) kind = (kind ≢ kind_audio) × (kind ≢ kind_ptv) × (is_other_kind kind ≡ false)

presence_fits-Suits :
    (p : Option Presence) (kind : MessageKind) → presence_fits p kind ≡ true → Suits p kind
unfolding presence_allowed
presence_fits-Suits none kind h = tt
presence_fits-Suits (some recording) kind h = ground arith
presence_fits-Suits (some composing) kind h = ground arith

delay_of-le : (d : Option ℕ) (delay : ℕ) → delay_of d ≡ ok delay → delay ≤ 120_000_000_000
unfolding delay_of
delay_of-le none delay h = ground arith
delay_of-le (some d) delay h = ground arith

checked_presence_fits :
    (p q : Option Presence) (kind : MessageKind) (delay delay' : ℕ)
    → checked_presence p kind delay ≡ ok (q, delay')
    → (presence_fits q kind ≡ true) × (q ≡ p) × (delay' ≡ delay)
unfolding checked_presence
checked_presence_fits none q kind delay delay' h = ground arith
checked_presence_fits (some p) q kind delay delay' h = ground arith

module _ (unicode : Unicode) (to_lower : Text → Text) where
  chosen_some :
      (p : Option Presence) (delay : ℕ) (kind : MessageKind)
      → 0 < delay
      → is_other_kind kind ≡ false
      → is_some (chosen_presence unicode to_lower p delay kind) ≡ true
  chosen_some none delay kind h k = ground arith
  chosen_some (some p) delay kind h k = refl

  validate_options_fits :
      (options : Option MessageOptions) (kind : MessageKind) (presence : Option Presence)
      (delay : ℕ)
      → validate_options unicode to_lower options kind ≡ ok (presence, delay)
      → (delay ≤ 120_000_000_000)
        × (presence_fits presence kind ≡ true)
        × (0 < delay → is_other_kind kind ≡ false → is_some presence ≡ true)
  unfolding validate_options
  validate_options_fits none kind presence delay h = ground arith
  validate_options_fits (some o) kind presence delay h =
      split (delay_of o.delay) refl (presence_of unicode to_lower o.presence) refl
    where
      split :
          (rd : Result ℕ)
          → delay_of o.delay ≡ rd
          → (rp : Result (Option Presence)) → presence_of unicode to_lower o.presence ≡ rp
          → (delay ≤ 120_000_000_000)
            × (presence_fits presence kind ≡ true)
            × (0 < delay → is_other_kind kind ≡ false → is_some presence ≡ true)
      split (err e) d rp p = ground arith
      split (ok n) d (err e) p = ground arith
      split (ok n) d (ok q) p = ground (
        arith,
        delay_of-le o.delay n d,
        checked_presence_fits (chosen_presence unicode to_lower q n kind) presence kind n delay,
        chosen_some q n kind,
      )

  -- Options that are let through delay a message by two minutes at most; they show no presence, or
  -- `recording` with audio or PTV, or `composing` with any other known kind; and they show one whenever
  -- they delay a message of a known kind.
  pub validate_options_lem :
      (options : Option MessageOptions) (kind : MessageKind) (presence : Option Presence)
      (delay : ℕ)
      → validate_options unicode to_lower options kind ≡ ok (presence, delay)
      → (delay ≤ 120_000_000_000)
        × Suits presence kind
        × (0 < delay → is_other_kind kind ≡ false → is_some presence ≡ true)
  validate_options_lem options kind presence delay h =
      let (short, fits, shown) = validate_options_fits options kind presence delay h in
      (short, presence_fits-Suits presence kind fits, shown)

module _ (unicode : Unicode) where
  contains-merge_loop :
      (seen jids : List Text) (jid : Text)
      → contains (merge_loop unicode seen jids) jid ≡ (
          contains (map (trim_space unicode) jids) jid
          && not (jid == [])
          && not (contains seen jid))
  unfolding merge_loop
  contains-merge_loop seen [] jid = ground arith
  contains-merge_loop seen (x ∷ jids) jid = ground (
    arith,
    contains-merge_loop seen jids jid,
    contains-merge_loop (trim_space unicode x ∷ seen) jids jid,
    ==_iff (trim_space unicode x) jid,
    ==_iff (trim_space unicode x) [],
    ==_iff jid [],
  )

  merge_loop-IsUnique : (seen jids : List Text) → IsUnique (merge_loop unicode seen jids)
  unfolding merge_loop
  merge_loop-IsUnique seen [] = tt
  merge_loop-IsUnique seen (x ∷ jids) =
      if-elim IsUnique (trim_space unicode x == []) (merge_loop-IsUnique seen jids) (
        if-elim IsUnique (contains seen (trim_space unicode x)) (merge_loop-IsUnique seen jids) (
          ground (
            arith,
            contains-merge_loop (trim_space unicode x ∷ seen) jids (trim_space unicode x),
            ==_refl (trim_space unicode x),
          ),
          merge_loop-IsUnique (trim_space unicode x ∷ seen) jids,
        ))

  -- The merged mentions are those of the two lists, trimmed and not blank, each of them once.
  pub merge_mentioned_jids_lem :
      (existing additional : List Text) (jid : Text)
      → (contains (merge_mentioned_jids unicode existing additional) jid
          ≡ (contains (map (trim_space unicode) (existing ++ additional)) jid && not (jid == [])))
        × IsUnique (merge_mentioned_jids unicode existing additional)
  unfolding merge_mentioned_jids
  merge_mentioned_jids_lem existing additional jid = (
    ground (arith, contains-merge_loop [] (existing ++ additional) jid),
    merge_loop-IsUnique [] (existing ++ additional),
  )
