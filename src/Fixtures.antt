-- ===== src/Fixtures.antt =====
-- A concrete Grant type for the tests: it names its action and its tenant, and its Check compares.
use arandu_whatsapp.Authz.Security.{Action, Action-discrete, Security}
use arandu_whatsapp.Errors.{Error, forbidden, sentinel}
use arandu_whatsapp.Prelude.{Option, String, none, refl, some, ◌≡◌}
use arandu_whatsapp.Prelude.Text.{Unicode, ascii_digit, ascii_letter, ascii_space}

pub record DemoGrant : Type 0 where
  pub issued_for : Action
  pub of_tenant : String

abbrev pub demo_check : DemoGrant → Action → Option Error
demo_check g a = elim (Action-discrete g.issued_for a) [
  | yes e ↦ none
  | no n ↦ some (sentinel forbidden)
]

pub demo_check_exact : (g : DemoGrant) (a : Action) → demo_check g a ≡ none → g.issued_for ≡ a
demo_check_exact g a h = go (Action-discrete g.issued_for a) h
  where
    go :
        (d : Dec (g.issued_for ≡ a))
        → ◌≡◌ {A = Option Error} (elim d [ yes e ↦ none | no n ↦ some (sentinel forbidden) ]) none
        → g.issued_for ≡ a
    go (yes e) k = e
    go (no n) k = cc

pub demo_check-issue :
    (a : Action) (t : String) → demo_check (record { issued_for = a; of_tenant = t }) a ≡ none
demo_check-issue a t = go (Action-discrete a a)
  where
    go :
        (d : Dec (a ≡ a))
        → ◌≡◌ {A = Option Error} (elim d [ yes e ↦ none | no n ↦ some (sentinel forbidden) ]) none
    go (yes e) = refl
    go (no n) = absurd (n refl)

abbrev pub demo : Security
demo = record {
  Grant = DemoGrant;
  action = λ g. g.issued_for;
  tenant = λ g. g.of_tenant;
  check = demo_check;
  system_grant = λ a t. record { issued_for = a; of_tenant = t };
  check_exact = demo_check_exact;
  action-system_grant = λ a t. refl;
  tenant-system_grant = λ a t. refl;
  check-system_grant = demo_check-issue;
}

abbrev pub grant_of : Action → String → DemoGrant
grant_of a t = record { issued_for = a; of_tenant = t }

-- The classes of ASCII, and no others.
abbrev pub ascii : Unicode
ascii = record {
  is_digit = ascii_digit;
  is_letter = ascii_letter;
  is_space = ascii_space;
  digit_ascii = λ c h. refl;
  letter_ascii = λ c h. refl;
  space_ascii = λ c h. refl;
}
