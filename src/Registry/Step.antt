-- ===== src/Registry/Step.antt =====
-- The calls that change a `SessionRegistry` (packages/bridge-daemon/src/session/session-registry.ts), as
-- steps of its state: a call that throws changes nothing.
use junon.Shared.{ℕ, String, ◌≡◌, refl, List, [], ◌∷◌}
use junon.Shared.Maps.{Map, get}
use junon.Registry.Data.{
  Connection, Capability, Workspace, WorkspaceRoot, WorkspaceStatus, Trust, RegisterParams,
  Registry, new_registry, Result, ok, err,
}
use junon.Registry.Ops.{open_session, touch, close_session, register_adapter, unregister_adapter}
use junon.Registry.Updates.{
  update_capabilities, open_workspace, close_workspace, update_workspace_roots,
  update_workspace_status, update_workspace_trust,
}
use junon.Registry.Consistent.{IsConsistent}
use junon.Registry.Consistent.Sessions.{
  open_session-IsConsistent, touch-IsConsistent, close_session-IsConsistent,
}
use junon.Registry.Consistent.Keeps.{
  register_adapter-IsConsistent, unregister_adapter-IsConsistent, open_workspace-IsConsistent,
  close_workspace-IsConsistent,
}
use junon.Registry.Consistent.Changes.{
  update_workspace_roots-IsConsistent, update_workspace_status-IsConsistent,
  update_workspace_trust-IsConsistent, update_capabilities-IsConsistent,
}

-- The first text of a call of an adapter is its session; a touch has the time first.
pub data Call : Type 0 where
  opens : Connection → Call
  touches : String → String → Call
  closes : String → Call
  registers : String → RegisterParams → Call
  unregisters : String → String → Call
  updates_capabilities : String → String → Map Capability → Call
  opens_workspace : String → Workspace → Call
  closes_workspace : String → String → String → Call
  updates_roots : String → String → String → List WorkspaceRoot → ℕ → Call
  updates_status : String → WorkspaceStatus → Call
  updates_trust : String → String → String → Trust → Call

abbrev pub kept : Result Registry → Registry → Registry
kept (ok t) r = t
kept (err e) r = r

abbrev pub kept_second : {A : Type 0} → Result (A × Registry) → Registry → Registry
kept_second (ok x) r = x.1
kept_second (err e) r = r

unfoldable pub step : Registry → Call → Registry
step r (opens connection) = kept (open_session connection r) r
step r (touches now session_id) = kept (touch now session_id r) r
step r (closes session_id) = (close_session session_id r).1
step r (registers session_id params) = kept_second (register_adapter session_id params r) r
step r (unregisters session_id adapter_id) =
    kept_second (unregister_adapter session_id adapter_id r) r
step r (updates_capabilities session_id adapter_id capabilities) =
    kept (update_capabilities session_id adapter_id capabilities r) r
step r (opens_workspace session_id w) = kept (open_workspace session_id w r) r
step r (closes_workspace session_id workspace_id adapter_id) =
    kept (close_workspace session_id workspace_id adapter_id r) r
step r (updates_roots session_id workspace_id adapter_id roots epoch) =
    kept (update_workspace_roots session_id workspace_id adapter_id roots epoch r) r
step r (updates_status session_id status) = kept (update_workspace_status session_id status r) r
step r (updates_trust session_id workspace_id adapter_id trust) =
    kept (update_workspace_trust session_id workspace_id adapter_id trust r) r

unfoldable pub run : Registry → List Call → Registry
run r [] = r
run r (c ∷ cs) = run (step r c) cs

kept-IsConsistent :
    (x : Result Registry) (r : Registry)
    → IsConsistent r
    → ((t : Registry) → x ≡ ok t → IsConsistent r → IsConsistent t)
    → IsConsistent (kept x r)
kept-IsConsistent (ok t) r c f = f t refl c
kept-IsConsistent (err e) r c f = c

kept_second-IsConsistent :
    {A : Type 0} (x : Result (A × Registry)) (r : Registry)
    → IsConsistent r
    → ((t : Registry) (a : A) → x ≡ ok (a, t) → IsConsistent r → IsConsistent t)
    → IsConsistent (kept_second x r)
kept_second-IsConsistent (ok (a, t)) r c f = f t a refl c
kept_second-IsConsistent (err e) r c f = c

pub step-IsConsistent : (r : Registry) (c : Call) → IsConsistent r → IsConsistent (step r c)
unfolding step
step-IsConsistent r (opens conn) c =
    kept-IsConsistent _ r c (λ t. open_session-IsConsistent conn r t)
step-IsConsistent r (touches now k) c = kept-IsConsistent _ r c (λ t. touch-IsConsistent now k r t)
step-IsConsistent r (closes k) c = close_session-IsConsistent k r c
step-IsConsistent r (registers k p) c =
    kept_second-IsConsistent _ r c (λ t out. register_adapter-IsConsistent k p r t out)
step-IsConsistent r (unregisters k a) c =
    kept_second-IsConsistent _ r c (λ t gone. unregister_adapter-IsConsistent k a r t gone)
step-IsConsistent r (updates_capabilities k a m) c =
    kept-IsConsistent _ r c (λ t. update_capabilities-IsConsistent k a m r t)
step-IsConsistent r (opens_workspace k w) c =
    kept-IsConsistent _ r c (λ t. open_workspace-IsConsistent k w r t)
step-IsConsistent r (closes_workspace k w a) c =
    kept-IsConsistent _ r c (λ t. close_workspace-IsConsistent k w a r t)
step-IsConsistent r (updates_roots k w a roots n) c =
    kept-IsConsistent _ r c (λ t. update_workspace_roots-IsConsistent k w a roots n r t)
step-IsConsistent r (updates_status k s) c =
    kept-IsConsistent _ r c (λ t. update_workspace_status-IsConsistent k s r t)
step-IsConsistent r (updates_trust k w a u) c =
    kept-IsConsistent _ r c (λ t. update_workspace_trust-IsConsistent k w a u r t)

new_registry-IsConsistent : IsConsistent new_registry
unfolding get
new_registry-IsConsistent = record {
  wired = record {
    keyed = λ k w e. cc;
    distinct = tt;
    based = λ k w e. cc;
    described = λ k a e. cc;
    owned = λ k a e. cc;
    held = λ k j e. cc;
  };
  serving = λ k a e. cc;
}

run-IsConsistent : (r : Registry) (cs : List Call) → IsConsistent r → IsConsistent (run r cs)
unfolding run
run-IsConsistent r [] c = c
run-IsConsistent r (call ∷ cs) c = run-IsConsistent (step r call) cs (step-IsConsistent r call c)

-- After any calls on a new registry: each workspace stands under its own ID and its adapter is
-- registered, each adapter describes its own session, the adapters and the sessions that have one are
-- in bijection, and the session of each adapter is open as an adapter's.
pub run-new_registry-IsConsistent : (cs : List Call) → IsConsistent (run new_registry cs)
run-new_registry-IsConsistent cs = run-IsConsistent new_registry cs new_registry-IsConsistent
