-- ===== src/Reconnect/Closing.antt =====
-- What stays when the client is closed, and the delays of its attempts
-- (packages/bridge-client/src/connection/reconnecting-connection.ts).
use junon.Shared.{ℕ, ◌≤◌, ◌≡◌, refl, Bool, true, false, ◌&&◌, none, some, List, [], ◌∷◌, arith, leb}
use junon.Reconnect.Data.{
  Settings, Options, reconnect_settings, are_delays, Status, reconnecting, closed, Phase, waiting,
  connecting, restoring, Client, jittered_delay, next_base,
}
use junon.Reconnect.Loop.{
  attach_connection, detach_connection, try_again, monitored, dropped, waited, made, not_made,
  give_up, not_restored, restored, close, register, unregister, Event, step, run, usable_connection,
  is_gone, new_client,
}

pub record IsClosed (s : Client) : Type 0 where
  pub shut : s.is_closed ≡ true
  pub no_current : s.current ≡ none
  pub no_candidate : s.candidate ≡ none
  pub status : s.status ≡ closed

close-IsClosed : (s : Client) → s.is_closed ≡ false → IsClosed (close s)
unfolding close detach_connection
close-IsClosed s still = record {
  shut = ground arith;
  no_current = ground arith;
  no_candidate = ground arith;
  status = ground arith;
}

step-IsClosed : (k : Settings) (s : Client) (e : Event) → IsClosed s → IsClosed (step k s e)
unfolding step dropped monitored try_again detach_connection attach_connection waited made not_made
    not_restored give_up restored close register unregister
step-IsClosed k s e x = record {
  shut = ground (arith, x);
  no_current = ground (arith, x);
  no_candidate = ground (arith, x);
  status = ground (arith, x);
}

run-IsClosed : (k : Settings) (s : Client) (es : List Event) → IsClosed s → IsClosed (run k s es)
unfolding run
run-IsClosed k s [] x = x
run-IsClosed k s (e ∷ es) x = run-IsClosed k (step k s e) es (step-IsClosed k s e x)

-- Once `close` was called on a client that was not closed, whatever its loop was waiting for and whatever
-- comes of it: the client is closed, keeps no connection and no candidate, and says so to every caller.
pub run-close-IsClosed :
    (k : Settings) (s : Client) (es : List Event)
    → s.is_closed ≡ false
    → IsClosed (run k (close s) es) × (usable_connection (run k (close s) es) ≡ is_gone)
unfolding usable_connection
run-close-IsClosed k s es still =
    let x = run-IsClosed k (close s) es (close-IsClosed s still) in (x, ground (arith, x))

abbrev delay_in_range : Settings → Status → Bool
delay_in_range k (reconnecting attempt d) = leb 1 d && leb d k.max_delay_ms
delay_in_range k _ = true

abbrev base_in_range : Settings → Phase → Bool
base_in_range k (waiting attempt b) = leb k.initial_delay_ms b && leb b k.max_delay_ms
base_in_range k (connecting attempt b) = leb k.initial_delay_ms b && leb b k.max_delay_ms
base_in_range k (restoring attempt b c) = leb k.initial_delay_ms b && leb b k.max_delay_ms
base_in_range k _ = true

-- A delay that is announced is at least a millisecond and at most the limit, and the base delay of an
-- attempt is between the first one and the limit.
pub record IsPaced (k : Settings) (s : Client) : Type 0 where
  pub delay : delay_in_range k s.status ≡ true
  pub base : base_in_range k s.phase ≡ true

try_again-IsPaced :
    (k : Settings) (attempt b : ℕ) (s : Client)
    → 1 ≤ k.max_delay_ms
    → k.initial_delay_ms ≤ b
    → b ≤ k.max_delay_ms
    → IsPaced k s
    → IsPaced k (try_again k attempt b s)
unfolding try_again jittered_delay
try_again-IsPaced k attempt b s one low high x = record {
  delay = ground (arith, x);
  base = ground (arith, x);
}

step-IsPaced :
    (k : Settings) (s : Client) (e : Event)
    → 1 ≤ k.initial_delay_ms
    → k.initial_delay_ms ≤ k.max_delay_ms
    → IsPaced k s
    → IsPaced k (step k s e)
unfolding step dropped monitored try_again detach_connection attach_connection waited made not_made
    not_restored give_up restored close register unregister jittered_delay next_base
step-IsPaced k s e one order x = record { delay = ground (arith, x); base = ground (arith, x) }

run-IsPaced :
    (k : Settings) (s : Client) (es : List Event)
    → 1 ≤ k.initial_delay_ms
    → k.initial_delay_ms ≤ k.max_delay_ms
    → IsPaced k s
    → IsPaced k (run k s es)
unfolding run
run-IsPaced k s [] one order x = x
run-IsPaced k s (e ∷ es) one order x =
    run-IsPaced k (step k s e) es one order (step-IsPaced k s e one order x)

-- With settings that `reconnectSettings` accepts, whatever the multiplier and the random factors make of
-- them, and whatever happens to a new client: each delay that it announces is at least one millisecond and
-- at most the maximal delay, and the base delay of each attempt is between the initial and the maximal one.
pub run-new_client-IsPaced :
    (o : Options) (scaled : ℕ → ℕ) (jittered : ℕ → ℕ → ℕ) (k : Settings) (c : ℕ) (es : List Event)
    → reconnect_settings o scaled jittered ≡ some k
    → IsPaced k (run k (new_client c) es)
unfolding reconnect_settings are_delays
run-new_client-IsPaced o scaled jittered k c es e =
    run-IsPaced k (new_client c) es (ground (arith, e)) (ground (arith, e))
      (record { delay = refl; base = refl })
