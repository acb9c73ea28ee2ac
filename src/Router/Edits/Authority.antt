-- ===== src/Router/Edits/Authority.antt =====
-- Whose the plan or the token of a routed edit is, and what a refusal leaves of it
-- (packages/bridge-daemon/src/routing/application-router.ts).
use junon.Shared.{String, ◌≡◌, true, some, arith, inl, inr, ◌∙◌}
use junon.Shared.Results.{ok, Result-cases}
use junon.Shared.Maps.{get}
use junon.EditStore.Data.{StoredPlan}
use junon.EditStore.Removal.Purge.{IsIndexed}
use junon.EditStore.Plans.{consume_plan}
use junon.EditStore.Lifecycle.{TakenOut, consume_plan-TakenOut}
use junon.Registry.Data.{Connection, Workspace, Registry}
use junon.Registry.Ops.{get_workspace}
use junon.Registry.Updates.{get_workspace_connection}
use junon.Router.Data.{active, EditOperation, apply, Route, Router, lift}
use junon.Router.Requests.{add_route, route_request}
use junon.Router.Routed.{route_request-Routed}
use junon.Router.Edits.{
  Call, is_trusted, assert_stored_adapter, assert_trusted, route_operation, hand_over, apply_plan,
  asked_for,
}

-- What the router has of an edit that it hands to the adapter.
pub record Handed (o : EditOperation) (adapter_session_id route_id : String) (s t : Router)
    (r : Route) : Type 0 where
  pub stored : get route_id t.routes ≡ some r
  pub performs : r.edit_operation ≡ o
  pub to_adapter : r.adapter_session_id ≡ adapter_session_id
  pub on : r.state ≡ active
  pub edit_store : t.edit_store ≡ s.edit_store

route_operation-edit_store :
    (q : Call) (o : EditOperation) (s : Router) (route_id : String)
    → (route_operation q o s).0 ≡ ok route_id
    → (route_operation q o s).1.edit_store ≡ s.edit_store
unfolding route_operation route_request add_route
route_operation-edit_store q o s route_id e = ground arith

stored_adapter_lem :
    (adapter_session_id workspace_id : String) (g : Registry) (c : Connection)
    → assert_stored_adapter adapter_session_id workspace_id g ≡ ok tt
    → get_workspace_connection workspace_id g ≡ ok c
    → c.session.session_id ≡ adapter_session_id
unfolding assert_stored_adapter lift
stored_adapter_lem adapter_session_id workspace_id g c passed found = ground (arith, passed, found)

hand_over-Handed :
    (q : Call) (adapter_session_id : String) (o : EditOperation) (s : Router) (route_id : String)
    → (hand_over q adapter_session_id o s).0 ≡ ok route_id
    → (r : Route) × Handed o adapter_session_id route_id s (hand_over q adapter_session_id o s).1 r
unfolding hand_over route_operation
hand_over-Handed q adapter_session_id o s route_id e =
    elim (Result-cases (assert_stored_adapter adapter_session_id q.workspace_id s.registry)) [
      | inl (x, stop) ↦ absurd (ground (arith, stop, e))
      | inr (done, passed) ↦ elim (Result-cases (route_operation q o s).0) [
        | inl (x, stop) ↦ absurd (ground (arith, passed, stop, e))
        | inr (id, went) ↦
            let (v, r, c, w, f) =
              route_request-Routed q.draw q.forwards q.sent (asked_for q o) s id went in
            let named : v ≡ q.workspace_id = ground (arith, f.asked) in
            let session =
              stored_adapter_lem adapter_session_id q.workspace_id s.registry c passed
                (rw named at f.connected) in
            let kept = route_operation-edit_store q o s id went in
            let same : id ≡ route_id = ground (arith, passed, went, e) in
            (
              r,
              rw (hand_over, passed, went)
                  (record {
                    stored = rw same at f.stored;
                    performs = f.performs;
                    to_adapter = f.to_adapter ∙ session;
                    on = f.on;
                    edit_store = kept;
                  }),
            )
      ]
    ]

-- The trust that lets an edit through.
pub record Trusted (workspace_id : String) (g : Registry) (w : Workspace) : Type 0 where
  pub known : get_workspace workspace_id g ≡ ok w
  pub trusted : is_trusted w.trust ≡ true

assert_trusted-Trusted :
    (workspace_id : String) (g : Registry) (w : Workspace)
    → assert_trusted workspace_id g ≡ ok w
    → Trusted workspace_id g w
unfolding assert_trusted lift
assert_trusted-Trusted workspace_id g w e = elim (Result-cases (get_workspace workspace_id g)) [
  | inl (x, missing) ↦ absurd (ground (arith, missing, e))
  | inr (w', found) ↦ record {
    known = ground (arith, found, e);
    trusted = ground (arith, found, e);
  }
]

-- What a routed application of a plan is.
pub record Applied (q : Call) (plan_id route_id : String) (s t : Router) (w : Workspace)
    (p : StoredPlan) (r : Route) : Type 0 where
  pub trust : Trusted q.workspace_id s.registry w
  pub taken :
      TakenOut q.now plan_id q.asked.consumer_session_id q.workspace_id w.workspace_epoch
        s.edit_store t.edit_store p
  pub stored : get route_id t.routes ≡ some r
  pub performs : r.edit_operation ≡ apply p
  pub to_adapter : r.adapter_session_id ≡ p.adapter_session_id
  pub on : r.state ≡ active

-- In an indexed store, an application of a plan that is routed is of a trusted workspace; the plan is the
-- consumer's own, of that workspace at its epoch, not expired, and has left the store with its adapter's ID
-- still reserved; and the active route that carries it goes to the session of the adapter that made it.
pub apply_plan-Applied :
    (q : Call) (plan_id route_id : String) (s : Router)
    → IsIndexed s.edit_store
    → (apply_plan q plan_id s).0 ≡ ok route_id
    → (w : Workspace) × (p : StoredPlan) × (r : Route) × Applied q plan_id route_id s
        (apply_plan q plan_id s).1
        w
        p
        r
unfolding apply_plan
apply_plan-Applied q plan_id route_id s x e =
    elim (Result-cases (assert_trusted q.workspace_id s.registry)) [
      | inl (y, stop) ↦ absurd (ground (arith, stop, e))
      | inr (w, passed) ↦
          let by = q.asked.consumer_session_id in
          let out = consume_plan q.now plan_id by q.workspace_id w.workspace_epoch s.edit_store in
          elim (Result-cases out.0) [
            | inl (y, stop) ↦ absurd (ground (arith, passed, stop, e))
            | inr (p, taken) ↦
                let s' : Router = record s { edit_store = out.1 } in
                let went : (hand_over q p.adapter_session_id (apply p) s').0 ≡ ok route_id =
                  ground (arith, passed, taken, e) in
                let (r, h) = hand_over-Handed q p.adapter_session_id (apply p) s' route_id went in
                let there =
                  consume_plan-TakenOut q.now plan_id by q.workspace_id w.workspace_epoch
                    s.edit_store p x taken in
                (
                  w,
                  p,
                  r,
                  rw (apply_plan, passed, taken)
                      (record {
                        trust = assert_trusted-Trusted q.workspace_id s.registry w passed;
                        taken = rw (h.edit_store) there;
                        stored = h.stored;
                        performs = h.performs;
                        to_adapter = h.to_adapter;
                        on = h.on;
                      }),
                )
          ]
    ]
