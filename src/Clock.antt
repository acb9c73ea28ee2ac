-- ===== src/Clock.antt =====
-- The dates that packages/bridge-daemon/src handles: instants in milliseconds since 1970, and the
-- ISO 8601 texts that carry them on the wire.
use junon.Shared.{ℕ, String, ◌≡◌, refl, Bool, false, Option, none, some, ◌==◌, eqb, leb}

-- A date text. `iso t` is the text `new Date(t).toISOString()`; `other s r` is any text `s` that is
-- not of that form, with what `Date.parse` reads in it (`none` where that is NaN). A reading before
-- 1970 stands as 0: the source only asks whether a reading has passed.
pub data Timestamp : Type 0 where
  iso : ℕ → Timestamp
  other : String → Option ℕ → Timestamp

-- `Date.parse`, where `none` stands for NaN.
unfoldable pub parse : Timestamp → Option ℕ
parse (iso t) = some t
parse (other s r) = r

-- `===` on two date texts. One text has one reading.
unfoldable pub same_text : Timestamp → Timestamp → Bool
same_text (iso t) (iso u) = eqb t u
same_text (other s r) (other s' r') = s == s'
same_text _ _ = false

-- `Date.parse(text) <= now`, which is false where the text has no reading.
unfoldable pub passed : Timestamp → ℕ → Bool
unfolding parse
passed text now = elim (parse text) [ none ↦ false | some t ↦ leb t now ]

pub passed-iso : (t now : ℕ) → passed (iso t) now ≡ leb t now
unfolding passed
passed-iso t now = refl
