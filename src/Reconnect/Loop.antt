-- ===== src/Reconnect/Loop.antt =====
-- `#monitor`, `#reconnect` and `close` of
-- packages/bridge-client/src/connection/reconnecting-connection.ts, as a step for each event that they
-- wait for. What `restoreSession` does, and whether a connection is made, is an event.
use junon.Shared.{
  ℕ, ◌+◌, true, false, ◌||◌, not, Option, none, some, List, [], ◌∷◌, ◌++◌, eqb, map, keep,
  if◌then◌else◌,
}
use junon.Reconnect.Data.{
  Settings, connected, reconnecting, closed, Phase, monitoring, waiting, connecting, restoring,
  ended, Registration, Client, jittered_delay, next_base, has_number, without, is_number,
}

-- `#attachConnection` and `#detachConnection`, for each handler.
abbrev pub attach_to : ℕ → Registration → Registration
attach_to c r = if has_number c r.attached then r else record r { attached = c ∷ r.attached }

abbrev pub detach_from : ℕ → Registration → Registration
detach_from c r = record r { attached = without c r.attached }

unfoldable pub attach_connection : ℕ → Client → Client
attach_connection c s = record s { handlers = map (attach_to c) s.handlers }

unfoldable pub detach_connection : ℕ → Client → Client
detach_connection c s = record s { handlers = map (detach_from c) s.handlers }

-- The head of the loop, which waits for its delay unless the client is closed.
unfoldable pub try_again : Settings → ℕ → ℕ → Client → Client
try_again k attempt base s = if s.is_closed then record s { phase = ended } else record s {
  status = reconnecting attempt (jittered_delay k s.draws base);
  phase = waiting attempt base;
  draws = s.draws + 1;
}

-- `#monitor`, when a connection has closed.
unfoldable pub monitored : Settings → ℕ → Client → Client
monitored k c s =
    let noticed : Client = record (detach_connection c s) { current = none } in
    elim s.phase [
      | monitoring d g ↦
          if eqb c d
          then if s.is_closed || not (is_number s.current c) || not (eqb s.generation g)
            then record s { phase = ended }
            else try_again k 1 k.initial_delay_ms noticed
          else s
      | _ ↦ s
    ]

unfoldable pub dropped : Settings → ℕ → Client → Client
dropped k c s = monitored k c (record s { alive = without c s.alive })

-- The end of the delay.
unfoldable pub waited : Client → Client
waited s = elim s.phase [
  | waiting attempt base ↦ record s {
    phase = if s.is_closed then ended else connecting attempt base;
  }
  | _ ↦ s
]

-- A connection is there; a client that was closed meanwhile closes it.
unfoldable pub made : ℕ → Client → Client
made c s = elim s.phase [
  | connecting attempt base ↦
      if s.is_closed
      then record s { phase = ended }
      else attach_connection c
          (record s { candidate = some c; alive = c ∷ s.alive; phase = restoring attempt base c })
  | _ ↦ s
]

-- The `catch` of the loop, without and with a connection.
unfoldable pub not_made : Settings → Client → Client
not_made k s = elim s.phase [
  | connecting attempt base ↦ try_again k (attempt + 1) (next_base k base) s
  | _ ↦ s
]

unfoldable pub give_up : ℕ → Client → Client
give_up c s = record (detach_connection c s) {
  candidate = if is_number s.candidate c then none else s.candidate;
  alive = without c s.alive;
}

unfoldable pub not_restored : Settings → Client → Client
not_restored k s = elim s.phase [
  | restoring attempt base c ↦ try_again k (attempt + 1) (next_base k base) (give_up c s)
  | _ ↦ s
]

-- The session is restored; `#shouldStop` is asked first.
unfoldable pub restored : Client → Client
restored s = elim s.phase [
  | restoring attempt base c ↦
      if s.is_closed || not (has_number c s.alive)
      then record s { alive = without c s.alive; phase = ended }
      else record s {
        candidate = none;
        current = some c;
        generation = s.generation + 1;
        status = connected c;
        phase = monitoring c (s.generation + 1);
      }
  | _ ↦ s
]

abbrev pub detach_if : Option ℕ → Client → Client
detach_if none s = s
detach_if (some c) s = record (detach_connection c s) { alive = without c s.alive }

-- The signal of the lifecycle ends the delay.
abbrev pub aborted : Phase → Phase
aborted (waiting attempt base) = ended
aborted p = p

-- `close`
unfoldable pub close : Client → Client
close s =
    if s.is_closed
    then s
    else detach_if s.candidate (
        detach_if s.current (record s {
          is_closed = true;
          current = none;
          candidate = none;
          status = closed;
          phase = aborted s.phase;
        }))

-- `onRequest` and `onNotification`, past their guards, and what they return, where it is called once.
abbrev pub attach_if : Option ℕ → Registration → Registration
attach_if none r = r
attach_if (some c) r = attach_to c r

abbrev pub registration : ℕ → Option ℕ → Option ℕ → Registration
registration n current candidate =
    attach_if candidate (attach_if current (record { number = n; attached = [] }))

unfoldable pub register : ℕ → Client → Client
register n s = record s { handlers = s.handlers ++ (registration n s.current s.candidate ∷ []) }

unfoldable pub unregister : ℕ → Client → Client
unregister n s = record s {
  handlers = keep (λ (r : Registration). not (eqb r.number n)) s.handlers;
}

pub data Event : Type 0 where
  drops makes : ℕ → Event
  waits fails restores loses closes : Event
  registers unregisters : ℕ → Event

unfoldable pub step : Settings → Client → Event → Client
step k s (drops c) = dropped k c s
step k s (makes c) = made c s
step k s waits = waited s
step k s fails = not_made k s
step k s restores = restored s
step k s loses = not_restored k s
step k s closes = close s
step k s (registers n) = register n s
step k s (unregisters n) = unregister n s

unfoldable pub run : Settings → Client → List Event → Client
run k s [] = s
run k s (e ∷ es) = run k (step k s e) es

-- The constructor, over its first connection.
abbrev pub new_client : ℕ → Client
new_client c = record {
  current = some c;
  candidate = none;
  status = connected c;
  generation = 1;
  is_closed = false;
  phase = monitoring c 1;
  alive = c ∷ [];
  handlers = [];
  draws = 0;
}

-- `#usableConnection`
pub data Usable : Type 0 where
  usable : ℕ → Usable
  is_gone is_reconnecting : Usable

unfoldable pub usable_connection : Client → Usable
usable_connection s = if s.is_closed then is_gone else elim s.current [
  | none ↦ is_reconnecting
  | some c ↦ if has_number c s.alive then usable c else is_reconnecting
]
