-- ===== src/Message.antt =====
-- The options of a message (internal/message/options.go) and the merging of mentions
-- (internal/message/mentions.go).
pub mod Laws
mod Tests
use Prim.Native.Nat.{◌%◌}
use arandu_whatsapp.Errors.{Result, delay_invalid, err, external, ok, presence_invalid, wrap, ◌>>=◌}
use arandu_whatsapp.Policy.{Action-eq}
use arandu_whatsapp.Prelude.{
  Bool, List, List-eq, Option, Option-eq, String, String-eq, [], contains, false, if◌then◌else◌,
  leb, ltb, none, some, true, ℕ, ℕ-eq, ◌*◌, ◌++◌, ◌==◌, ◌∷◌,
}
use arandu_whatsapp.Prelude.Text.{Text, Unicode, codes, trim_space}

-- MessageKind; any other string is `other_kind`.
pub data MessageKind : Type 0 where
  kind_text kind_link kind_image kind_document kind_video kind_audio : MessageKind
  kind_ptv kind_contact kind_location : MessageKind
  other_kind : String → MessageKind

pub data Presence : Type 0 where
  composing recording : Presence

-- What validateOptions reads of a MessageOptions: the delay is an int64 in two's complement.
pub record MessageOptions : Type 0 where
  pub delay : Option ℕ
  pub presence : Option Text

abbrev pub max_delay_milliseconds : ℕ
max_delay_milliseconds = 120_000

-- presenceAllowed
unfoldable pub presence_allowed : Presence → MessageKind → Bool
presence_allowed composing kind_audio = false
presence_allowed composing kind_ptv = false
presence_allowed composing (other_kind name) = false
presence_allowed composing _ = true
presence_allowed recording kind_audio = true
presence_allowed recording kind_ptv = true
presence_allowed recording _ = false

-- The switch of validateOptions for a delay without a presence.
abbrev pub default_presence : MessageKind → Option Presence
default_presence kind_audio = some recording
default_presence kind_ptv = some recording
default_presence (other_kind name) = none
default_presence _ = some composing

-- The delay in nanoseconds.
unfoldable pub delay_of : Option ℕ → Result ℕ
delay_of none = ok 0
delay_of (some d) =
    if leb 9223372036854775808 d
    then err (wrap delay_invalid (external "negative delay"))
    else if ltb max_delay_milliseconds d
    then err (wrap delay_invalid (external "delay too high"))
    else ok ((d * 1_000_000) % 18446744073709551616)

-- The check of the presence that has been chosen.
unfoldable pub checked_presence : Option Presence → MessageKind → ℕ → Result (Option Presence × ℕ)
unfolding presence_allowed
checked_presence none kind delay = ok (none, delay)
checked_presence (some p) kind delay =
    if presence_allowed p kind
    then ok (some p, delay)
    else err (wrap presence_invalid (external "incompatible presence"))

module _ (unicode : Unicode) (to_lower : Text → Text) where
  -- The presence that the options name; `to_lower` is strings.ToLower.
  unfoldable pub presence_of : Option Text → Result (Option Presence)
  presence_of none = ok none
  presence_of (some text) =
      let normalized = to_lower (trim_space unicode text) in
      if normalized == codes "composing"
      then ok (some composing)
      else if normalized == codes "recording"
      then ok (some recording)
      else err (wrap presence_invalid (external "unsupported presence"))

  -- `if presence == nil && delay > 0`
  abbrev pub chosen_presence : Option Presence → ℕ → MessageKind → Option Presence
  chosen_presence none delay kind = if ltb 0 delay then default_presence kind else none
  chosen_presence (some p) delay kind = some p

  -- validateOptions
  unfoldable pub validate_options :
      Option MessageOptions → MessageKind → Result (Option Presence × ℕ)
  unfolding delay_of presence_of checked_presence
  validate_options none kind = ok (none, 0)
  validate_options (some options) kind = do
    delay ← delay_of options.delay
    presence ← presence_of options.presence
    checked_presence (chosen_presence presence delay kind) kind delay

module _ (unicode : Unicode) where
  -- The loop of mergeMentionedJIDs, with the keys of `seen`.
  unfoldable pub merge_loop : List Text → List Text → List Text
  merge_loop seen [] = []
  merge_loop seen (jid ∷ jids) =
      let normalized = trim_space unicode jid in
      let skipped = merge_loop seen jids in
      let added = merge_loop (normalized ∷ seen) jids in
      if normalized == []
      then skipped
      else if contains seen normalized
      then skipped
      else normalized ∷ added

  -- mergeMentionedJIDs
  unfoldable pub merge_mentioned_jids : List Text → List Text → List Text
  unfolding merge_loop
  merge_mentioned_jids existing additional = merge_loop [] (existing ++ additional)
