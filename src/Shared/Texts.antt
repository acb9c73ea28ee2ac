-- ===== src/Shared/Texts.antt =====
-- Tests and splits of texts by their characters.
use Prim.Native.Char.{Char, code}
use Prim.Native.Nat.{ℕ, suc}
use Prim.Native.String.{String}
use mathlib.Core.Bool.{Bool, true, false, ◌&&◌, ◌||◌}
use mathlib.Core.List.{List, [], ◌∷◌}
use junon.Shared.Tests.{if◌then◌else◌, eqb, leb}

-- `text.includes(c)` for one character.
unfoldable pub includes : ℕ → String → Bool
includes c String.[] = false
includes c (String.◌∷◌ d s) = eqb (code d) c || includes c s

cons_first : Char → List String → List String
cons_first c [] = String.◌∷◌ c String.[] ∷ []
cons_first c (s ∷ rest) = String.◌∷◌ c s ∷ rest

-- `text.split(separator)` for one character.
unfoldable pub split : ℕ → String → List String
unfolding cons_first
split separator String.[] = String.[] ∷ []
split separator (String.◌∷◌ c s) =
    let rest = split separator s in
    if eqb (code c) separator then String.[] ∷ rest else cons_first c rest

-- `text.length`, of a text with no character above U+FFFF.
unfoldable pub text_length : String → ℕ
text_length String.[] = 0
text_length (String.◌∷◌ c s) = suc (text_length s)

-- `[A-Za-z0-9_-]`
unfoldable pub is_id_char : ℕ → Bool
is_id_char c =
    leb b'A' c && leb c b'Z'
    || leb b'a' c && leb c b'z'
    || leb b'0' c && leb c b'9'
    || eqb c b'_'
    || eqb c b'-'

-- `/^[A-Za-z0-9_-]*$/`
unfoldable pub all_id_chars : String → Bool
unfolding is_id_char
all_id_chars String.[] = true
all_id_chars (String.◌∷◌ c s) = is_id_char (code c) && all_id_chars s

-- `/^[A-Za-z0-9_-]+$/`
unfoldable pub some_id_chars : String → Bool
unfolding all_id_chars
some_id_chars String.[] = false
some_id_chars (String.◌∷◌ c s) = all_id_chars (String.◌∷◌ c s)

-- The prefix, and then one or more of these characters.
unfoldable pub after_prefix : String → String → Bool
unfolding some_id_chars
after_prefix String.[] s = some_id_chars s
after_prefix (String.◌∷◌ p ps) String.[] = false
after_prefix (String.◌∷◌ p ps) (String.◌∷◌ c s) = eqb (code c) (code p) && after_prefix ps s
