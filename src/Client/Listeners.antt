-- ===== src/Client/Listeners.antt =====
-- The handlers of a notification, over `onNotification` and what it returns
-- (packages/bridge-client/src/connection/json-rpc-engine.ts).
use junon.Shared.{
  ℕ, zero, suc, ◌<◌, String, true, none, some, List, [], ◌∷◌, ◌++◌, ◌≡◌, refl, arith, length, keep,
}
use junon.Shared.Maps.{get, get-set, get-delete}
use junon.Client.Data.{tells, Engine}
use junon.Client.Inbound.{handlers_at, replace_at, dispatch_notification}
use junon.Client.Handlers.{is_received, on_notification, off_notification}
use junon.Client.Step.{or_same}

handlers_at-replace_at :
    (n : ℕ) (hs : List ℕ) (sets : List (List ℕ))
    → n < length sets
    → handlers_at n (replace_at n hs sets) ≡ hs
unfolding handlers_at replace_at
handlers_at-replace_at n hs [] h = ground (arith, h)
handlers_at-replace_at zero hs (old ∷ sets) h = refl
handlers_at-replace_at (suc n) hs (old ∷ sets) h =
    handlers_at-replace_at n hs sets (ground (arith, h))

length-replace_at :
    (n : ℕ) (hs : List ℕ) (sets : List (List ℕ)) → length (replace_at n hs sets) ≡ length sets
unfolding replace_at
length-replace_at n hs [] = refl
length-replace_at zero hs (old ∷ sets) = refl
length-replace_at (suc n) hs (old ∷ sets) = ground (arith, length-replace_at n hs sets)

handlers_at-last :
    (hs : List ℕ) (sets : List (List ℕ)) → handlers_at (length sets) (sets ++ (hs ∷ [])) ≡ hs
unfolding handlers_at
handlers_at-last hs [] = refl
handlers_at-last hs (old ∷ sets) = ground (arith, handlers_at-last hs sets)

handlers_at-before :
    (n : ℕ) (hs : List ℕ) (sets : List (List ℕ))
    → n < length sets
    → handlers_at n (sets ++ (hs ∷ [])) ≡ handlers_at n sets
unfolding handlers_at
handlers_at-before n hs [] h = ground (arith, h)
handlers_at-before zero hs (old ∷ sets) h = refl
handlers_at-before (suc n) hs (old ∷ sets) h = handlers_at-before n hs sets (ground (arith, h))

-- The only handler of a set leaves it, and the set leaves the method.
off_notification-ends :
    (method : String) (h n : ℕ) (s : Engine)
    → handlers_at n s.handler_sets ≡ h ∷ []
    → let t = off_notification method n h s in
      (t.handler_sets ≡ replace_at n [] s.handler_sets)
      × (get method t.notification_handlers ≡ none)
      × (t.role ≡ s.role)
unfolding off_notification keep
off_notification-ends method h n s alone = (
  ground (arith, alone),
  ground (arith, alone, get-delete method method s.notification_handlers),
  refl,
)

on_notification-starts :
    (method : String) (g : ℕ) (s : Engine)
    → is_received s.role method ≡ true
    → get method s.notification_handlers ≡ none
    → let t = or_same (on_notification method g s) s in
      (t.handler_sets ≡ s.handler_sets ++ ((g ∷ []) ∷ []))
      × (get method t.notification_handlers ≡ some (length s.handler_sets))
unfolding on_notification
on_notification-starts method g s known free = (
  ground (arith, known, free),
  ground
      (arith, known, free, get-set method method (length s.handler_sets) s.notification_handlers),
)

off_notification-deletes :
    (method : String) (h n : ℕ) (s : Engine)
    → handlers_at n s.handler_sets ≡ []
    → get method (off_notification method n h s).notification_handlers ≡ none
unfolding off_notification keep
off_notification-deletes method h n s nothing =
    ground (arith, nothing, get-delete method method s.notification_handlers)

dispatch_notification-none :
    (method : String) (s : Engine)
    → get method s.notification_handlers ≡ none
    → dispatch_notification method s ≡ []
unfolding dispatch_notification
dispatch_notification-none method s nothing = rw (dispatch_notification, nothing) refl

-- Where a handler is the only one of its notification and is disposed of, nobody is told of the notification;
-- another handler that is registered then is told, alone; and when the first handler is disposed of once more,
-- the other one is told no more, although nobody has disposed of it.
pub off_notification-repeats :
    (method : String) (h g n : ℕ) (s : Engine)
    → is_received s.role method ≡ true
    → handlers_at n s.handler_sets ≡ h ∷ []
    → n < length s.handler_sets
    → let first = off_notification method n h s in
      let second = or_same (on_notification method g first) first in
      let third = off_notification method n h second in
      (dispatch_notification method first ≡ [])
      × (dispatch_notification method second ≡ tells method (g ∷ []) ∷ [])
      × (dispatch_notification method third ≡ [])
unfolding dispatch_notification
off_notification-repeats method h g n s known alone there =
    let first = off_notification method n h s in
    let (sets, free, role) = off_notification-ends method h n s alone in
    let second = or_same (on_notification method g first) first in
    let (sets', at) = on_notification-starts method g first (ground (arith, known, role)) free in
    let nothing : handlers_at n second.handler_sets ≡ [] = ground (
      arith,
      sets,
      sets',
      handlers_at-before n (g ∷ []) (replace_at n [] s.handler_sets),
      length-replace_at n [] s.handler_sets,
      handlers_at-replace_at n [] s.handler_sets there,
      there,
    ) in
    let gone = off_notification-deletes method h n second nothing in
    (
      dispatch_notification-none method first free,
      ground (arith, at, sets', handlers_at-last (g ∷ []) first.handler_sets),
      dispatch_notification-none method (off_notification method n h second) gone,
    )
