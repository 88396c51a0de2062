-- ===== src/Message/Tests.antt =====
-- Tests and instances for internal/message/options.go and internal/message/mentions.go.
use arandu_whatsapp.Errors.{ok}
use arandu_whatsapp.Fixtures.{ascii}
use arandu_whatsapp.Message.{
  MessageOptions, Presence, checked_presence, delay_of, kind_audio, presence_allowed, presence_of,
  recording, validate_options,
}
use arandu_whatsapp.Message.Laws.{Suits, is_other_kind, validate_options_lem}
use arandu_whatsapp.Prelude.{List, [], false, is_some, none, refl, some, true, ◌<◌, ◌∷◌, ◌≡◌, ◌≤◌}
use arandu_whatsapp.Prelude.Text.{Text, codes}

abbrev slow_voice : MessageOptions
slow_voice = record { delay = some 1500; presence = none }

validated :
    validate_options ascii (λ s. s) (some slow_voice) kind_audio
    ≡ ok (some recording, 1_500_000_000)
unfolding validate_options delay_of presence_of checked_presence presence_allowed
validated = refl

validate_options_example :
    (1_500_000_000 ≤ 120_000_000_000)
    × Suits (some recording) kind_audio
    × (0 < 1_500_000_000
        → is_other_kind kind_audio ≡ false
        → is_some {A = Presence} (some recording) ≡ true)
validate_options_example =
    validate_options_lem ascii (λ s. s) (some slow_voice) kind_audio (some recording) 1_500_000_000
      validated

abbrev old_mentions : List Text
old_mentions = codes "1@s" ∷ codes " " ∷ []

abbrev new_mentions : List Text
new_mentions = codes " 1@s " ∷ codes "2@s" ∷ []
