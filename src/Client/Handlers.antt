-- ===== src/Client/Handlers.antt =====
-- The handlers that `ClientJsonRpcEngine` keeps, `notify` and `close`
-- (packages/bridge-client/src/connection/json-rpc-engine.ts).
use junon.Shared.{
  ℕ, String, Bool, true, false, ◌&&◌, ◌||◌, not, Option, none, some, List, [], ◌∷◌, ◌++◌, eqb,
  length, contains, keep, ◌==◌, if◌then◌else◌,
}
use junon.Shared.Maps.{get, has, set, delete}
use junon.Registry.Data.{Role, adapter, consumer}
use junon.Protocol.Methods.{
  routed_methods, adapter_outbound_notifications, consumer_inbound_notifications,
}
use junon.Client.Data.{
  Effect, sends_notification, Engine, is_open, is_closed, closing, closes, terminates,
}
use junon.Client.Inbound.{is_adapter, handlers_at, replace_at}

-- `onRequest`; `none` where it throws.
unfoldable pub on_request : String → ℕ → Engine → Option Engine
on_request method handler s =
    if not (is_adapter s.role)
      || not (contains method routed_methods)
      || has method s.request_handlers
    then none
    else some (record s { request_handlers = set method handler s.request_handlers })

abbrev pub same_handler : Option ℕ → ℕ → Bool
same_handler none n = false
same_handler (some m) n = eqb m n

-- What `onRequest` returns.
unfoldable pub off_request : String → ℕ → Engine → Engine
off_request method handler s =
    if same_handler (get method s.request_handlers) handler
    then record s { request_handlers = delete method s.request_handlers }
    else s

-- The guard of `onNotification`.
unfoldable pub is_received : Role → String → Bool
is_received adapter method = method == "$/cancelRequest"
is_received consumer method = contains method consumer_inbound_notifications

unfoldable pub has_handler : ℕ → List ℕ → Bool
has_handler h [] = false
has_handler h (i ∷ hs) = eqb i h || has_handler h hs

abbrev pub with_handler : ℕ → List ℕ → List ℕ
with_handler h hs = if has_handler h hs then hs else hs ++ (h ∷ [])

-- `onNotification`; `none` where it throws.
unfoldable pub on_notification : String → ℕ → Engine → Option Engine
on_notification method h s =
    let first : Engine = record s {
      notification_handlers = set method (length s.handler_sets) s.notification_handlers;
      handler_sets = s.handler_sets ++ ((h ∷ []) ∷ []);
    } in
    let another : ℕ → Engine = λ n. record s {
      handler_sets = replace_at n (with_handler h (handlers_at n s.handler_sets)) s.handler_sets;
    } in
    if is_received s.role method
    then some (elim (get method s.notification_handlers) [ none ↦ first | some n ↦ another n ])
    else none

abbrev pub is_empty : List ℕ → Bool
is_empty [] = true
is_empty (h ∷ hs) = false

-- What `onNotification` returns, for a handler in the n-th Set.
unfoldable pub off_notification : String → ℕ → ℕ → Engine → Engine
off_notification method n h s =
    let hs = keep (λ (i : ℕ). not (eqb i h)) (handlers_at n s.handler_sets) in
    record s {
      handler_sets = replace_at n hs s.handler_sets;
      notification_handlers =
          if is_empty hs then delete method s.notification_handlers else s.notification_handlers;
    }

-- The guard of `notify`.
unfoldable pub may_notify : Role → String → Bool
may_notify adapter method = contains method adapter_outbound_notifications
may_notify consumer method = method == "$/cancelRequest"

-- `notify`, of a notification that the schema takes or not: what is sent, where it is not refused.
unfoldable pub notify : String → Bool → Engine → Option (List Effect)
notify method valid s =
    if may_notify s.role method && is_open s.socket && valid
    then some (sends_notification method ∷ [])
    else none

-- `close`
unfoldable pub close : Engine → List Effect × Engine
close s =
    if is_closed s.socket
    then ([], s)
    else if is_open s.socket
    then (closes 1000 ∷ [], record s { socket = closing })
    else (terminates ∷ [], record s { socket = closing })
