-- ===== src/Prelude/Text.antt =====
-- Go strings as sequences of code points, and what the code uses of the packages strings,
-- unicode and unicode/utf8. A string is taken to be valid UTF-8; `len` counts its bytes.
use Prim.Native.Nat.{ℕ, ◌+◌, ◌<◌, ◌≤◌}
use Prim.Native.Char.{code}
use Prim.Native.String.{String}
use mathlib.Core.Path.{◌≡◌, refl}
use mathlib.Core.Bool.{Bool, true, ◌&&◌, ◌||◌}
use mathlib.Core.List.{List, [], ◌∷◌, reverse}
use native.Mathlib.Omega.{arith}
use arandu_whatsapp.Prelude.Tests.{ltb, leb, nat_eq, if◌then◌else◌}
use arandu_whatsapp.Prelude.Lists.{length, all}

abbrev pub Text : Type 0
Text = List ℕ

-- The text of a literal.
abbrev pub codes : String → Text
codes String.[] = []
codes (String.◌∷◌ c s) = code c ∷ codes s

-- utf8.RuneLen
abbrev pub rune_len : ℕ → ℕ
rune_len c = if ltb c 0x80 then 1 else if ltb c 0x800 then 2 else if ltb c 0x10000 then 3 else 4

-- len(s), in bytes
unfoldable pub len : Text → ℕ
len [] = 0
len (c ∷ s) = rune_len c + len s

abbrev pub ascii_digit : ℕ → Bool
ascii_digit c = leb b'0' c && leb c b'9'

abbrev pub ascii_letter : ℕ → Bool
ascii_letter c = leb b'a' c && leb c b'z' || leb b'A' c && leb c b'Z'

abbrev pub ascii_space : ℕ → Bool
ascii_space c = nat_eq c 0x20 || leb 0x09 c && leb c 0x0d

-- The classes of package unicode, which agree with ASCII below 0x80.
pub record Unicode : Type 0 where
  pub is_digit : ℕ → Bool
  pub is_letter : ℕ → Bool
  pub is_space : ℕ → Bool
  pub digit_ascii : (c : ℕ) → c < 0x80 → is_digit c ≡ ascii_digit c
  pub letter_ascii : (c : ℕ) → c < 0x80 → is_letter c ≡ ascii_letter c
  pub space_ascii : (c : ℕ) → c < 0x80 → is_space c ≡ ascii_space c

unfoldable pub trim_left : (ℕ → Bool) → Text → Text
trim_left p [] = []
trim_left p (c ∷ s) = if p c then trim_left p s else c ∷ s

-- strings.TrimSpace
unfoldable pub trim_space : Unicode → Text → Text
unfolding trim_left
trim_space u s = reverse (trim_left u.is_space (reverse (trim_left u.is_space s)))

-- A text whose bytes are its code points.
abbrev pub is_ascii : Text → Bool
is_ascii s = all (λ c. ltb c 0x80) s

pub len-is_ascii : (s : Text) → is_ascii s ≡ true → len s ≡ length s
unfolding len
len-is_ascii [] h = refl
len-is_ascii (c ∷ s) h = ground (arith, len-is_ascii s)

pub length-le-len : (s : Text) → length s ≤ len s
unfolding len
length-le-len [] = omega arith
length-le-len (c ∷ s) = ground (arith, length-le-len s)
