-- ===== src/Reconnect/Handlers.antt =====
-- The handlers of a client follow its connection
-- (packages/bridge-client/src/connection/reconnecting-connection.ts).
use junon.Shared.{
  ℕ, ◌≡◌, refl, Bool, true, false, ◌&&◌, ◌||◌, not, Option, none, some, List, [], ◌∷◌, ◌++◌, arith,
  eqb, map, all, keep,
}
use junon.Reconnect.Data.{
  Settings, Phase, monitoring, waiting, connecting, restoring, ended, Registration, Client,
  is_number, has_number,
}
use junon.Reconnect.Loop.{
  attach_to, registration, attach_connection, detach_connection, try_again, monitored, dropped,
  waited, made, not_made, give_up, not_restored, restored, close, register, unregister, Event,
  drops, makes, waits, fails, restores, loses, closes, registers, unregisters, step, run,
  new_client,
}

-- Every handler is attached to the connection, where there is one.
abbrev pub attached_to : Option ℕ → List Registration → Bool
attached_to none rs = true
attached_to (some c) rs = all (λ (r : Registration). has_number c r.attached) rs

abbrev pub has_none : Option ℕ → Bool
has_none none = true
has_none (some c) = false

-- While the loop looks for a connection there is no current one, and while one is watched no candidate.
abbrev in_place : Phase → Option ℕ → Option ℕ → Bool
in_place (monitoring c g) current candidate = has_none candidate && is_number current c
in_place (waiting a b) current candidate = has_none current && has_none candidate
in_place (connecting a b) current candidate = has_none current && has_none candidate
in_place (restoring a b c) current candidate = has_none current && is_number candidate c
in_place ended current candidate = has_none current

abbrev of_generation : Phase → ℕ → Bool
of_generation (monitoring c g) generation = eqb g generation
of_generation _ generation = true

pub record IsAttached (s : Client) : Type 0 where
  pub current : attached_to s.current s.handlers ≡ true
  pub candidate : attached_to s.candidate s.handlers ≡ true
  pub shut : (s.is_closed && not (has_none s.current && has_none s.candidate)) ≡ false
  pub placed : (s.is_closed || in_place s.phase s.current s.candidate) ≡ true
  pub watched : of_generation s.phase s.generation ≡ true

attach-new : (c : ℕ) (rs : List Registration) → attached_to (some c) (map (attach_to c) rs) ≡ true
unfolding all has_number
attach-new c [] = refl
attach-new c (r ∷ rs) = ground (arith, attach-new c rs)

attach-old :
    (c d : ℕ) (rs : List Registration)
    → attached_to (some d) rs ≡ true
    → attached_to (some d) (map (attach_to c) rs) ≡ true
unfolding all has_number
attach-old c d [] h = refl
attach-old c d (r ∷ rs) h = ground (arith, attach-old c d rs)

attached-append :
    (c : ℕ) (rs ss : List Registration)
    → attached_to (some c) (rs ++ ss) ≡ (attached_to (some c) rs && attached_to (some c) ss)
unfolding all
attached-append c [] ss = refl
attached-append c (r ∷ rs) ss = ground (arith, attached-append c rs ss)

attached-keep :
    (c : ℕ) (p : Registration → Bool) (rs : List Registration)
    → attached_to (some c) rs ≡ true
    → attached_to (some c) (keep p rs) ≡ true
unfolding all keep
attached-keep c p [] h = refl
attached-keep c p (r ∷ rs) h = ground (arith, attached-keep c p rs)

append_attached :
    (o : Option ℕ) (rs ss : List Registration)
    → attached_to o rs ≡ true
    → attached_to o ss ≡ true
    → attached_to o (rs ++ ss) ≡ true
append_attached none rs ss h i = refl
append_attached (some c) rs ss h i = ground (arith, attached-append c rs ss, h, i)

keep_attached :
    (o : Option ℕ) (p : Registration → Bool) (rs : List Registration)
    → attached_to o rs ≡ true
    → attached_to o (keep p rs) ≡ true
keep_attached none p rs h = refl
keep_attached (some c) p rs h = attached-keep c p rs h

-- A handler that is registered is attached at once.
attached_new :
    (n : ℕ) (current candidate : Option ℕ)
    → (attached_to current (registration n current candidate ∷ []) ≡ true)
      × (attached_to candidate (registration n current candidate ∷ []) ≡ true)
unfolding all has_number
attached_new n none none = (refl, refl)
attached_new n (some c) none = ground arith
attached_new n none (some d) = ground arith
attached_new n (some c) (some d) = ground arith

module _ (k : Settings) (s : Client) (x : IsAttached s) where
  drops-IsAttached : (c : ℕ) → IsAttached (step k s (drops c))
  unfolding step dropped monitored try_again detach_connection
  drops-IsAttached c = record {
    current = ground (arith, x);
    candidate = ground (arith, x);
    shut = ground (arith, x);
    placed = ground (arith, x);
    watched = ground (arith, x);
  }

  makes-IsAttached : (c : ℕ) → IsAttached (step k s (makes c))
  unfolding step made attach_connection
  makes-IsAttached c = record {
    current = ground (arith, x);
    candidate = ground (arith, x, attach-new c s.handlers);
    shut = ground (arith, x);
    placed = ground (arith, x);
    watched = ground (arith, x);
  }

  fails-IsAttached : IsAttached (step k s fails)
  unfolding step not_made try_again
  fails-IsAttached = record {
    current = ground (arith, x);
    candidate = ground (arith, x);
    shut = ground (arith, x);
    placed = ground (arith, x);
    watched = ground (arith, x);
  }

  waits-IsAttached : IsAttached (step k s waits)
  unfolding step waited
  waits-IsAttached = record {
    current = ground (arith, x);
    candidate = ground (arith, x);
    shut = ground (arith, x);
    placed = ground (arith, x);
    watched = ground (arith, x);
  }

  restores-IsAttached : IsAttached (step k s restores)
  unfolding step restored
  restores-IsAttached = record {
    current = ground (arith, x);
    candidate = ground (arith, x);
    shut = ground (arith, x);
    placed = ground (arith, x);
    watched = ground (arith, x);
  }

  loses-IsAttached : IsAttached (step k s loses)
  unfolding step not_restored try_again give_up detach_connection
  loses-IsAttached = record {
    current = ground (arith, x);
    candidate = ground (arith, x);
    shut = ground (arith, x);
    placed = ground (arith, x);
    watched = ground (arith, x);
  }

  closes-IsAttached : IsAttached (step k s closes)
  unfolding step close detach_connection
  closes-IsAttached = record {
    current = ground (arith, x);
    candidate = ground (arith, x);
    shut = ground (arith, x);
    placed = ground (arith, x);
    watched = ground (arith, x);
  }

  registers-IsAttached : (n : ℕ) → IsAttached (step k s (registers n))
  unfolding step register
  registers-IsAttached n =
      let r = registration n s.current s.candidate in
      let (old, new) = attached_new n s.current s.candidate in
      record {
        current = append_attached s.current s.handlers (r ∷ []) x.current old;
        candidate = append_attached s.candidate s.handlers (r ∷ []) x.candidate new;
        shut = x.shut;
        placed = x.placed;
        watched = x.watched;
      }

  unregisters-IsAttached : (n : ℕ) → IsAttached (step k s (unregisters n))
  unfolding step unregister
  unregisters-IsAttached n = record {
    current =
        keep_attached s.current (λ (r : Registration). not (eqb r.number n)) s.handlers x.current;
    candidate =
        keep_attached s.candidate (λ (r : Registration). not (eqb r.number n)) s.handlers
          x.candidate;
    shut = x.shut;
    placed = x.placed;
    watched = x.watched;
  }

step-IsAttached : (k : Settings) (s : Client) (e : Event) → IsAttached s → IsAttached (step k s e)
step-IsAttached k s (drops c) x = drops-IsAttached k s x c
step-IsAttached k s (makes c) x = makes-IsAttached k s x c
step-IsAttached k s waits x = waits-IsAttached k s x
step-IsAttached k s fails x = fails-IsAttached k s x
step-IsAttached k s restores x = restores-IsAttached k s x
step-IsAttached k s loses x = loses-IsAttached k s x
step-IsAttached k s closes x = closes-IsAttached k s x
step-IsAttached k s (registers n) x = registers-IsAttached k s x n
step-IsAttached k s (unregisters n) x = unregisters-IsAttached k s x n

run-IsAttached :
    (k : Settings) (s : Client) (es : List Event) → IsAttached s → IsAttached (run k s es)
unfolding run
run-IsAttached k s [] x = x
run-IsAttached k s (e ∷ es) x = run-IsAttached k (step k s e) es (step-IsAttached k s e x)

never_both :
    (s : Client) → IsAttached s → (not (has_none s.current) && not (has_none s.candidate)) ≡ false
never_both s x = ground (arith, x)

-- Whatever happens to a new client: each of its handlers is attached to its connection, if it has one, and
-- to the candidate that is being restored; and it has both at no time.
pub run-new_client-attached :
    (k : Settings) (c : ℕ) (es : List Event)
    → let s = run k (new_client c) es in
      (attached_to s.current s.handlers ≡ true)
      × (attached_to s.candidate s.handlers ≡ true)
      × ((not (has_none s.current) && not (has_none s.candidate)) ≡ false)
unfolding all
run-new_client-attached k c es =
    let x = run-IsAttached k (new_client c) es (record {
      current = refl;
      candidate = refl;
      shut = refl;
      placed = ground arith;
      watched = ground arith;
    }) in
    (x.current, x.candidate, never_both (run k (new_client c) es) x)
