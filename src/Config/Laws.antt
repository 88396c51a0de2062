-- ===== src/Config/Laws.antt =====
-- What Validate and WithDefaults of config/whatsapp.go guarantee together.
use mathlib.Core.Bool.{false≢true}
use arandu_whatsapp.Config.{
  Config, UrlParts, bad_color, bad_delays, bad_prefix, bad_roles, durations, hex_color, or_default,
  or_text, trim_slash, validate, validate_webhooks, with_defaults,
}
use arandu_whatsapp.Errors.{Error, errors_first}
use arandu_whatsapp.Policy.{Action-eq}
use arandu_whatsapp.Prelude.{
  ==_iff, Bool, List, List-eq, Option, Option-eq, String, String-eq, [], any, arith, false, if-elim,
  if◌then◌else◌, inl, inr, list_eq, none, not, refl, some, sym, true, ℕ, ℕ-eq, ◌<◌, ◌==◌, ◌||◌, ◌↔◌,
  ◌∙◌, ◌∷◌, ◌≡◌, ◌≢◌, ◌⊎◌,
}
use arandu_whatsapp.Prelude.Text.{Text, Unicode, codes}
use arandu_whatsapp.Webhook.Manager.{is_negative}

is_negative-or_default :
    (k d : ℕ) → is_negative k ≡ false → is_negative d ≡ false → is_negative (or_default k d) ≡ false
is_negative-or_default k d h z = ground arith

bad_color-or_text :
    (s : String) (t : Text)
    → bad_color (codes s) ≡ false
    → bad_color t ≡ false
    → bad_color (or_text s t) ≡ false
bad_color-or_text s t h z = if-elim (λ x. bad_color x ≡ false) (t == []) h z

trim_slash-empty : (d : ℕ) (s : Text) → (trim_slash (d ∷ s) == []) ≡ (d ∷ s == codes "/")
unfolding trim_slash list_eq
trim_slash-empty d [] = ground arith
trim_slash-empty d (e ∷ s) = ground arith

-- A prefix that Validate lets through is refused after WithDefaults only if it is "//".
bad_prefix-trim_slash :
    (p : Text)
    → bad_prefix p ≡ false
    → bad_prefix (trim_slash (or_text "/whatsapp" p)) ≡ (p == codes "//")
unfolding trim_slash list_eq
bad_prefix-trim_slash [] h = refl
bad_prefix-trim_slash (c ∷ []) h = ground arith
bad_prefix-trim_slash (c ∷ d ∷ s) h = ground (arith, trim_slash-empty d s)

-- The defaults of the durations, in the order of `durations`.
abbrev default_durations : List ℕ
default_durations =
    30_000_000_000 ∷ 180_000_000_000 ∷ 30_000_000_000 ∷ 2_000_000_000 ∷ 60_000_000_000
    ∷ 15_000_000_000 ∷ 604_800_000_000_000 ∷ 60_000_000_000 ∷ 30_000_000_000 ∷ 30_000_000_000
    ∷ 2_592_000_000_000_000 ∷ 60_000_000_000 ∷ 2_592_000_000_000_000 ∷ []

abbrev with_each : List ℕ → List ℕ → List ℕ
with_each (k ∷ ks) (d ∷ ds) = or_default k d ∷ with_each ks ds
with_each _ _ = []

none_negative :
    (ks ds : List ℕ)
    → any is_negative ks ≡ false
    → any is_negative ds ≡ false
    → any is_negative (with_each ks ds) ≡ false
none_negative [] [] h z = refl
none_negative [] (d ∷ ds) h z = refl
none_negative (k ∷ ks) [] h z = refl
none_negative (k ∷ ks) (d ∷ ds) h z =
    ground (arith, none_negative ks ds (ground arith) (ground arith), is_negative-or_default k d)

durations-with_defaults :
    (c : Config)
    → any is_negative (durations c) ≡ false
    → any is_negative (durations (with_defaults c)) ≡ false
unfolding with_defaults
durations-with_defaults c h = none_negative default_durations (durations c) refl h

-- The two delays with their defaults, in nanoseconds.
default_bad_delays :
    (i m : ℕ)
    → is_negative i ≡ false
    → is_negative m ≡ false
    → bad_delays i m ≡ false
    → (bad_delays (or_default 2_000_000_000 i) (or_default 60_000_000_000 m) ≡ true)
      ↔ (((m ≡ 0) × (60_000_000_000 < i)) ⊎ ((i ≡ 0) × (0 < m) × (m < 2_000_000_000)))
default_bad_delays i m hi hm h = ground arith

-- One check of Validate.
checked :
    (e : Error) {rest : Option Error} (b : Bool)
    → (if b then some e else rest) ≡ none
    → (b ≡ false) × (rest ≡ none)
checked e true h = absurd (ground arith)
checked e false h = (refl, h)

passes :
    (e : Error) {rest : Option Error} (b : Bool)
    → b ≡ false
    → rest ≡ none
    → (if b then some e else rest) ≡ none
passes e true h k = absurd (ground arith)
passes e false h k = k

first_none :
    {rest : Option Error} (first : Option Error)
    → errors_first first rest ≡ none
    → (first ≡ none) × (rest ≡ none)
first_none none h = (refl, h)
first_none (some e) h = absurd (ground arith)

first_passes :
    {rest : Option Error} (first : Option Error)
    → first ≡ none
    → rest ≡ none
    → errors_first first rest ≡ none
first_passes none h k = k
first_passes (some e) h k = absurd (ground arith)

module _ (unicode : Unicode) (valid_tenant : Text → Bool) (url_parse : Text → Option UrlParts) where
  -- What Validate has checked where it returns no error.
  abbrev IsChecked : Config → Type 0
  IsChecked c =
      (valid_tenant c.tenant ≡ true)
      × (bad_prefix c.prefix ≡ false)
      × ((is_negative c.whatsapp.qr_code_limit
            || is_negative c.whatsapp.startup_reconnect_concurrency)
          ≡ false)
      × (any is_negative (durations c) ≡ false)
      × (is_negative c.media.max_input_bytes ≡ false)
      × (bad_color c.whatsapp.qr_code_light_color ≡ false)
      × (bad_color c.whatsapp.qr_code_dark_color ≡ false)
      × (bad_delays c.whatsapp.reconnect_initial_delay c.whatsapp.reconnect_max_delay ≡ false)
      × (validate_webhooks unicode valid_tenant url_parse c.webhooks ≡ none)
      × (any (bad_roles unicode valid_tenant url_parse) c.policy.roles ≡ false)

  validate-IsChecked : (c : Config) → validate unicode valid_tenant url_parse c ≡ none → IsChecked c
  unfolding validate
  validate-IsChecked c h =
      let (h1, r1) = checked _ (not (valid_tenant c.tenant)) h in
      let (h2, r2) = checked _ (bad_prefix c.prefix) r1 in
      let (h3, r3) =
        checked _
          (is_negative c.whatsapp.qr_code_limit
            || is_negative c.whatsapp.startup_reconnect_concurrency)
          r2 in
      let (h4, r4) = checked _ (any is_negative (durations c)) r3 in
      let (h5, r5) = checked _ (is_negative c.media.max_input_bytes) r4 in
      let (h6, r6) = checked _ (bad_color c.whatsapp.qr_code_light_color) r5 in
      let (h7, r7) = checked _ (bad_color c.whatsapp.qr_code_dark_color) r6 in
      let (h8, r8) =
        checked _ (bad_delays c.whatsapp.reconnect_initial_delay c.whatsapp.reconnect_max_delay)
          r7 in
      let (h9, r9) = first_none (validate_webhooks unicode valid_tenant url_parse c.webhooks) r8 in
      let (h10, r10) =
        checked _ (any (bad_roles unicode valid_tenant url_parse) c.policy.roles) r9 in
      (ground (arith, h1), h2, h3, h4, h5, h6, h7, h8, h9, h10)

  IsChecked-validate : (c : Config) → IsChecked c → validate unicode valid_tenant url_parse c ≡ none
  unfolding validate
  IsChecked-validate c (h1, h2, h3, h4, h5, h6, h7, h8, h9, h10) =
      passes _ (not (valid_tenant c.tenant)) (ground (arith, h1)) (
        passes _ (bad_prefix c.prefix) h2 (
          passes _
            (is_negative c.whatsapp.qr_code_limit
              || is_negative c.whatsapp.startup_reconnect_concurrency)
            h3
            (passes _ (any is_negative (durations c)) h4 (
              passes _ (is_negative c.media.max_input_bytes) h5 (
                passes _ (bad_color c.whatsapp.qr_code_light_color) h6 (
                  passes _ (bad_color c.whatsapp.qr_code_dark_color) h7 (
                    passes _
                      (bad_delays c.whatsapp.reconnect_initial_delay c.whatsapp.reconnect_max_delay)
                      h8
                      (first_passes (validate_webhooks unicode valid_tenant url_parse c.webhooks) h9
                        (passes _ (any (bad_roles unicode valid_tenant url_parse) c.policy.roles)
                          h10 refl)))))))))

  -- The delays that WithDefaults sets against each other: one is left at zero, and its default is on the
  -- wrong side of the other.
  abbrev pub DelaysAtOdds : Config → Type 0
  DelaysAtOdds c =
      ((c.whatsapp.reconnect_max_delay ≡ 0) × (60_000_000_000 < c.whatsapp.reconnect_initial_delay))
      ⊎ ((c.whatsapp.reconnect_initial_delay ≡ 0)
          × (0 < c.whatsapp.reconnect_max_delay)
          × (c.whatsapp.reconnect_max_delay < 2_000_000_000))

  -- The two reconnect delays after WithDefaults.
  abbrev default_delays : Config → Bool
  default_delays c =
      bad_delays (or_default 2_000_000_000 c.whatsapp.reconnect_initial_delay)
        (or_default 60_000_000_000 c.whatsapp.reconnect_max_delay)

  bad_delays-or_default :
      (c : Config)
      → any is_negative (durations c) ≡ false
      → bad_delays c.whatsapp.reconnect_initial_delay c.whatsapp.reconnect_max_delay ≡ false
      → (default_delays c ≡ true) ↔ DelaysAtOdds c
  bad_delays-or_default c h z =
      default_bad_delays c.whatsapp.reconnect_initial_delay c.whatsapp.reconnect_max_delay
        (ground arith) (ground arith) z

  kept :
      (c : Config)
      → IsChecked c
      → bad_prefix (trim_slash (or_text "/whatsapp" c.prefix)) ≡ false
      → default_delays c ≡ false
      → IsChecked (with_defaults c)
  unfolding with_defaults validate_webhooks list_eq hex_color
  kept c (h1, h2, h3, h4, h5, h6, h7, h8, h9, h10) p d = (
    h1,
    p,
    ground arith,
    durations-with_defaults c h4,
    is_negative-or_default 52_428_800 c.media.max_input_bytes refl h5,
    bad_color-or_text "#ffffff" c.whatsapp.qr_code_light_color refl h6,
    bad_color-or_text "#198754" c.whatsapp.qr_code_dark_color refl h7,
    d,
    h9,
    h10,
  )

  refuted :
      (c : Config)
      → (c.prefix ≡ codes "//") ⊎ DelaysAtOdds c
      → (c.prefix == codes "//") ≡ false
      → default_delays c ≡ false
      → (DelaysAtOdds c → default_delays c ≡ true)
      → ⊥
  refuted c (inl o) p d f = ground (arith, ==_iff c.prefix (codes "//"))
  refuted c (inr o) p d f = false≢true (sym d ∙ f o)

  -- Where a configuration that Validate lets through is refused after WithDefaults: exactly where its
  -- prefix is "//", or one of the two reconnect delays is left at zero and its default is on the wrong side
  -- of the other.
  pub validate-with_defaults :
      (c : Config)
      → validate unicode valid_tenant url_parse c ≡ none
      → (validate unicode valid_tenant url_parse (with_defaults c) ≢ none)
        ↔ ((c.prefix ≡ codes "//") ⊎ DelaysAtOdds c)
  unfolding trim_slash with_defaults
  validate-with_defaults c h =
      let c' = validate-IsChecked c h in
      let prefix = bad_prefix-trim_slash c.prefix c'.1 in
      let delays = bad_delays-or_default c (c'.3) c'.7 in
      (
        λ refused.
            (elim (c.prefix == codes "//")
                as (λ b. c.prefix == codes "//" ≡ b → (c.prefix ≡ codes "//") ⊎ DelaysAtOdds c) [
                  | true ↦ λ q. inl (ground (arith, ==_iff c.prefix (codes "//")))
                  | false ↦ λ q.
                      (elim (default_delays c)
                          as (λ b.
                            default_delays c ≡ b → (c.prefix ≡ codes "//") ⊎ DelaysAtOdds c) [
                              | true ↦ λ z. inr (delays.0 z)
                              | false ↦ λ z. absurd (
                                  refused (
                                    IsChecked-validate (with_defaults c)
                                      (kept c c' (prefix ∙ q) z)))
                            ])
                        refl
                ])
              refl,
        λ o accepted.
            let d = validate-IsChecked (with_defaults c) accepted in
            refuted c o (sym prefix ∙ d.1) d.7 delays.1,
      )
