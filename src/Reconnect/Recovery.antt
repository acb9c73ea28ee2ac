-- ===== src/Reconnect/Recovery.antt =====
-- How a client comes back, and when it does not
-- (packages/bridge-client/src/connection/reconnecting-connection.ts).
use junon.Shared.{
  ℕ, ◌+◌, ◌≡◌, refl, Bool, true, false, ◌&&◌, not, none, some, List, [], ◌∷◌, ◌++◌, arith,
}
use junon.Reconnect.Data.{
  Settings, Status, connected, monitoring, waiting, restoring, ended, Client, next_base, has_number,
}
use junon.Reconnect.Loop.{
  attach_connection, detach_connection, try_again, monitored, dropped, waited, made, not_made,
  not_restored, give_up, loses, restored, close, register, unregister, Event, drops, makes, waits,
  fails, restores, closes, step, run, usable_connection, usable, is_reconnecting,
}

-- A client that waits for its next attempt.
pub record IsWaiting (s : Client) (attempt base g : ℕ) : Type 0 where
  pub live : s.is_closed ≡ false
  pub at : s.phase ≡ waiting attempt base
  pub no_current : s.current ≡ none
  pub generation : s.generation ≡ g

-- How an attempt fails: no connection is made; the session is not restored on the one that is; or that one
-- drops, and then the session is not restored.
pub data Attempt : Type 0 where
  unmade : Attempt
  unrestored lost : ℕ → Attempt

abbrev pub events_of : Attempt → List Event
events_of unmade = waits ∷ fails ∷ []
events_of (unrestored c) = waits ∷ makes c ∷ loses ∷ []
events_of (lost c) = waits ∷ makes c ∷ drops c ∷ loses ∷ []

unfoldable pub failures : List Attempt → List Event
failures [] = []
failures (a ∷ attempts) = events_of a ++ failures attempts

unfoldable base_after : Settings → List Attempt → ℕ → ℕ
base_after k [] base = base
base_after k (a ∷ attempts) base = base_after k attempts (next_base k base)

run-append :
    (k : Settings) (s : Client) (es fs : List Event) → run k s (es ++ fs) ≡ run k (run k s es) fs
unfolding run
run-append k s [] fs = refl
run-append k s (e ∷ es) fs = run-append k (step k s e) es fs

failed-IsWaiting :
    (k : Settings) (a : Attempt) (s : Client) (attempt base g : ℕ)
    → IsWaiting s attempt base g
    → IsWaiting (run k s (events_of a)) (attempt + 1) (next_base k base) g
unfolding run step waited made dropped monitored not_made not_restored give_up try_again
    attach_connection detach_connection
failed-IsWaiting k unmade s attempt base g x = record {
  live = ground (arith, x);
  at = ground (arith, x);
  no_current = ground (arith, x);
  generation = ground (arith, x);
}
failed-IsWaiting k (unrestored c) s attempt base g x = record {
  live = ground (arith, x);
  at = ground (arith, x);
  no_current = ground (arith, x);
  generation = ground (arith, x);
}
failed-IsWaiting k (lost c) s attempt base g x = record {
  live = ground (arith, x);
  at = ground (arith, x);
  no_current = ground (arith, x);
  generation = ground (arith, x);
}

failures-IsWaiting :
    (k : Settings) (attempts : List Attempt) (s : Client) (attempt base g : ℕ)
    → IsWaiting s attempt base g
    → (last : ℕ) × IsWaiting (run k s (failures attempts)) last (base_after k attempts base) g
unfolding run failures base_after
failures-IsWaiting k [] s attempt base g x = (attempt, x)
failures-IsWaiting k (a ∷ attempts) s attempt base g x =
    let first = failed-IsWaiting k a s attempt base g x in
    let (last, more) =
      failures-IsWaiting k attempts (run k s (events_of a)) (attempt + 1) (next_base k base) g
        first in
    (last, rw (run-append k s (events_of a) (failures attempts)) more)

-- A client that has come back.
pub record IsBack (s : Client) (c g : ℕ) : Type 0 where
  pub live : s.is_closed ≡ false
  pub status : s.status ≡ connected c
  pub generation : s.generation ≡ g
  pub monitored : s.phase ≡ monitoring c g
  pub serves : usable_connection s ≡ usable c

succeeds :
    (k : Settings) (s : Client) (attempt base g c : ℕ)
    → IsWaiting s attempt base g
    → IsBack (run k s (waits ∷ makes c ∷ restores ∷ [])) c (g + 1)
unfolding run step waited made restored attach_connection usable_connection has_number
succeeds k s attempt base g c x = record {
  live = ground (arith, x);
  status = ground (arith, x);
  generation = ground (arith, x);
  monitored = ground (arith, x);
  serves = ground (arith, x);
}

drops-IsWaiting :
    (k : Settings) (s : Client) (c : ℕ)
    → s.is_closed ≡ false
    → s.current ≡ some c
    → s.phase ≡ monitoring c s.generation
    → IsWaiting (step k s (drops c)) 1 k.initial_delay_ms s.generation
unfolding step dropped monitored try_again detach_connection
drops-IsWaiting k s c live here at = record {
  live = ground (arith, live, here, at);
  at = ground (arith, live, here, at);
  no_current = ground (arith, live, here, at);
  generation = ground (arith, live, here, at);
}

-- A client whose connection drops comes back after any number of attempts that fail, in any of the three
-- ways and in any order, as soon as one connection is made and the session is restored on it: it is
-- connected to that connection, in the next generation, watches it, and serves its requests with it.
pub run-failures-IsBack :
    (k : Settings) (s : Client) (c d : ℕ) (attempts : List Attempt)
    → s.is_closed ≡ false
    → s.current ≡ some c
    → s.phase ≡ monitoring c s.generation
    → IsBack
        (run k s (drops c ∷ failures attempts ++ (waits ∷ makes d ∷ restores ∷ [])))
        d
        (s.generation + 1)
unfolding run
run-failures-IsBack k s c d attempts live here at =
    let t = step k s (drops c) in
    let first = drops-IsWaiting k s c live here at in
    let (last, later) = failures-IsWaiting k attempts t 1 k.initial_delay_ms s.generation first in
    rw (run-append k t (failures attempts) (waits ∷ makes d ∷ restores ∷ [])) (
      succeeds k (run k t (failures attempts)) last (base_after k attempts k.initial_delay_ms)
        s.generation d later)

abbrev is_close : Event → Bool
is_close closes = true
is_close _ = false

unfoldable pub never_closes : List Event → Bool
never_closes [] = true
never_closes (e ∷ es) = not (is_close e) && never_closes es

-- A client whose loop has ended, though nobody has closed it.
pub record IsStuck (s : Client) (status : Status) : Type 0 where
  pub live : s.is_closed ≡ false
  pub over : s.phase ≡ ended
  pub no_current : s.current ≡ none
  pub says : s.status ≡ status

step-IsStuck :
    (k : Settings) (s : Client) (e : Event) (status : Status)
    → is_close e ≡ false
    → IsStuck s status
    → IsStuck (step k s e) status
unfolding step dropped monitored detach_connection attach_connection waited made not_made
    not_restored restored close register unregister
step-IsStuck k s e status h x = record {
  live = ground (arith, h, x);
  over = ground (arith, h, x);
  no_current = ground (arith, h, x);
  says = ground (arith, h, x);
}

run-IsStuck :
    (k : Settings) (s : Client) (es : List Event) (status : Status)
    → never_closes es ≡ true
    → IsStuck s status
    → IsStuck (run k s es) status
unfolding run never_closes
run-IsStuck k s [] status h x = x
run-IsStuck k s (e ∷ es) status h x =
    run-IsStuck k (step k s e) es status (ground (arith, h))
      (step-IsStuck k s e status (ground (arith, h)) x)

-- When the session is restored on a connection that has dropped meanwhile, and nobody has closed the client,
-- its loop ends: whatever happens until somebody closes it, the client announces the reconnection that it
-- had announced, has no connection, and tells its callers that it is reconnecting.
pub run-restored-IsStuck :
    (k : Settings) (s : Client) (attempt base c : ℕ) (es : List Event)
    → s.is_closed ≡ false
    → s.current ≡ none
    → s.phase ≡ restoring attempt base c
    → has_number c s.alive ≡ false
    → never_closes es ≡ true
    → IsStuck (run k (restored s) es) s.status
      × (usable_connection (run k (restored s) es) ≡ is_reconnecting)
unfolding restored usable_connection
run-restored-IsStuck k s attempt base c es live nothing at gone quiet =
    let start : IsStuck (restored s) s.status = record {
      live = ground (arith, live, at, gone);
      over = ground (arith, live, at, gone);
      no_current = ground (arith, live, at, gone, nothing);
      says = ground (arith, live, at, gone);
    } in
    let x = run-IsStuck k (restored s) es s.status quiet start in (x, ground (arith, x))
