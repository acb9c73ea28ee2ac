-- ===== src/Reconnect/Data.antt =====
-- The settings and the state of `ReconnectingBridgeConnection` in
-- packages/bridge-client/src/connection/reconnecting-connection.ts. Connections and registrations are
-- told apart by numbers.
use junon.Shared.{
  ℕ, Bool, false, ◌&&◌, ◌||◌, Option, none, some, List, [], ◌∷◌, leb, eqb, min, if◌then◌else◌,
}

-- `Math.ceil(base * multiplier)` is a function, and so is `Math.round(base * factor)` of the n-th random
-- factor.
pub record Settings : Type 0 where
  pub initial_delay_ms : ℕ
  pub max_delay_ms : ℕ
  pub restore_timeout_ms : ℕ
  pub scaled : ℕ → ℕ
  pub jittered : ℕ → ℕ → ℕ

pub record Options : Type 0 where
  pub initial_delay_ms : Option ℕ
  pub max_delay_ms : Option ℕ
  pub restore_timeout_ms : Option ℕ

abbrev pub or_default : Option ℕ → ℕ → ℕ
or_default none d = d
or_default (some n) d = n

unfoldable pub are_delays : ℕ → ℕ → ℕ → Bool
are_delays initial maximum restore =
    leb 1 initial
    && leb initial 60000
    && leb initial maximum
    && leb maximum 60000
    && leb 1 restore
    && leb restore 300000

-- `reconnectSettings`, `none` where it throws; the multiplier and the jitter are known to be in their range.
unfoldable pub reconnect_settings : Options → (ℕ → ℕ) → (ℕ → ℕ → ℕ) → Option Settings
reconnect_settings o scaled jittered =
    let initial = or_default o.initial_delay_ms 100 in
    let maximum = or_default o.max_delay_ms 5000 in
    let restore = or_default o.restore_timeout_ms 30000 in
    if are_delays initial maximum restore
    then some (record {
      initial_delay_ms = initial;
      max_delay_ms = maximum;
      restore_timeout_ms = restore;
      scaled = scaled;
      jittered = jittered;
    })
    else none

pub data Status : Type 0 where
  connected : ℕ → Status
  reconnecting : ℕ → ℕ → Status
  closed : Status

-- Where `#monitor` and `#reconnect` wait: for the close of a connection of a generation; for the delay, the
-- connection or the restoration of an attempt with its base delay; or for nothing any more.
pub data Phase : Type 0 where
  monitoring : ℕ → ℕ → Phase
  waiting connecting : ℕ → ℕ → Phase
  restoring : ℕ → ℕ → ℕ → Phase
  ended : Phase

-- A handler that is registered, with the connections that it is attached to.
pub record Registration : Type 0 where
  pub number : ℕ
  pub attached : List ℕ

pub record Client : Type 0 where
  pub current : Option ℕ
  pub candidate : Option ℕ
  pub status : Status
  pub generation : ℕ
  pub is_closed : Bool
  pub phase : Phase
  pub alive : List ℕ
  pub handlers : List Registration
  pub draws : ℕ

abbrev pub larger : ℕ → ℕ → ℕ
larger a b = if leb a b then b else a

-- `#jitteredDelay`
unfoldable pub jittered_delay : Settings → ℕ → ℕ → ℕ
jittered_delay k n base = larger 1 (min k.max_delay_ms (k.jittered n base))

-- The base delay of the next attempt.
unfoldable pub next_base : Settings → ℕ → ℕ
next_base k base = min k.max_delay_ms (larger base (k.scaled base))

unfoldable pub has_number : ℕ → List ℕ → Bool
has_number n [] = false
has_number n (m ∷ ms) = eqb m n || has_number n ms

unfoldable pub without : ℕ → List ℕ → List ℕ
without n [] = []
without n (m ∷ ms) = let rest = without n ms in if eqb m n then rest else m ∷ rest

abbrev pub is_number : Option ℕ → ℕ → Bool
is_number none n = false
is_number (some m) n = eqb m n
