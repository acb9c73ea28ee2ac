-- ===== src/Router/Sending/Repeats.antt =====
-- What comes of it that the send to the adapter is awaited
-- (packages/bridge-daemon/src/routing/application-router.ts).
use junon.Shared.{
  ℕ, String, ◌≡◌, Bool, true, false, ◌&&◌, ◌||◌, some, List, [], ◌∷◌, ◌++◌, arith, contains,
  contains-add, contains-remove, ◌==◌,
}
use junon.Shared.Results.{ok}
use junon.Shared.Maps.{Map, get, values, get-set}
use junon.Uri.{UrlPlatform}
use junon.EditStore.Data.{EditPlan, StoredPlan, PlanCreationContext, EditStore}
use junon.EditStore.Removal.{internal_key, sweep, release_plan}
use junon.EditStore.Removal.Loops.{plan_key}
use junon.EditStore.Plans.{create_plan, store_plan, new_stored_plan}
use junon.Registry.Data.{RemovedSession}
use junon.Registry.Ops.{close_session}
use junon.Router.Data.{
  apply, Route, Router, Message, cancel_request, error_response, response, close_connection,
  is_active,
}
use junon.Router.Table.{remove_route, release_operation, cancel_route}
use junon.Router.Requests.{close_routes, session_closed}
use junon.Router.Sending.{send_failed, unrouted}

-- An error is sent to the session under the ID.
unfoldable pub told : String → String → List Message → Bool
told i id [] = false
told i id (error_response j k e ∷ ms) = (j == i && k == id) || told i id ms
told i id (cancel_request j k ∷ ms) = told i id ms
told i id (response j k a ∷ ms) = told i id ms
told i id (close_connection j code ∷ ms) = told i id ms

told-cancel :
    (i id : String) (r : Route) (s : Router) (ms : List Message)
    → told i id ((cancel_route r s).0 ++ ms) ≡ told i id ms
unfolding told cancel_route
told-cancel i id r s ms = ground arith

close_routes-told :
    (session_id k : String) (r : Route) (m : Map Route) (s : Router)
    → get k m ≡ some r
    → is_active r.state ≡ true
    → r.adapter_session_id == session_id ≡ true
    → told r.consumer_session_id r.consumer_id (close_routes session_id (values m) s).0 ≡ true
unfolding get values close_routes told
close_routes-told session_id k r [] s found on mine = absurd (ground (arith, found))
close_routes-told session_id k r ((j, v) ∷ m) s found on mine =
    let t = (cancel_route v s).1 in
    ground (
      arith,
      found,
      on,
      mine,
      close_routes-told session_id k r m (remove_route v s),
      close_routes-told session_id k r m t,
      close_routes-told session_id k r m s,
      told-cancel r.consumer_session_id r.consumer_id v s (close_routes session_id (values m) t).0,
    )

-- When an adapter's session ends while the send of a request to it is awaited, the consumer of the request is
-- sent an error under its ID by the end of the session, and another one when the send fails then.
pub send_failed-repeats :
    (session_id k : String) (r : Route) (s : Router) (gone : RemovedSession)
    → get k s.routes ≡ some r
    → is_active r.state ≡ true
    → r.adapter_session_id == session_id ≡ true
    → (close_session session_id s.registry).0 ≡ some gone
    → let (ended, t) = session_closed session_id s in
      let (failed, u) = send_failed r t in
      (told r.consumer_session_id r.consumer_id ended ≡ true)
      × (told r.consumer_session_id r.consumer_id failed ≡ true)
unfolding session_closed send_failed told
send_failed-repeats session_id k r s gone found on mine removed = (
  rw (session_closed, removed) (close_routes-told session_id k r s.routes _ found on mine),
  ground arith,
)

create_plan_stores :
    (platform : UrlPlatform) (draw : ℕ → String) (swept_at now : ℕ) (plan : EditPlan)
    (c : PlanCreationContext) (s : EditStore) (out : EditPlan)
    → (create_plan platform draw swept_at now plan c s).0 ≡ ok out
    → (create_plan platform draw swept_at now plan c s).1 ≡ store_plan out plan c (sweep swept_at s)
unfolding create_plan
create_plan_stores platform draw swept_at now plan c s out e = ground (arith, e)

-- When the send of an application fails, its plan is released; and where the adapter's session prepares a plan
-- under the same ID of its own before the second release, that release frees the ID while the new plan is
-- live in the store.
pub unrouted-frees :
    (platform : UrlPlatform) (draw : ℕ → String) (swept_at now : ℕ) (plan : EditPlan)
    (c : PlanCreationContext) (out : EditPlan) (r : Route) (p : StoredPlan) (s : Router)
    → r.edit_operation ≡ apply p
    → (create_plan platform draw swept_at now plan c (send_failed r s).1.edit_store).0 ≡ ok out
    → internal_key c.adapter_session_id plan.plan_id ≡ plan_key p
    → let t = (send_failed r s).1 in
      let made = (create_plan platform draw swept_at now plan c t.edit_store).1 in
      let u = unrouted r (record t { edit_store = made }) in
      (get out.plan_id u.edit_store.plans ≡ some (new_stored_plan out plan c))
      × (contains (plan_key (new_stored_plan out plan c)) made.internal_plans ≡ true)
      × (contains (plan_key (new_stored_plan out plan c)) u.edit_store.internal_plans ≡ false)
unfolding unrouted release_operation release_plan store_plan
unrouted-frees platform draw swept_at now plan c out r p s applies e same =
    let t = (send_failed r s).1 in
    let key = internal_key c.adapter_session_id plan.plan_id in
    let swept = sweep swept_at t.edit_store in
    let made = (create_plan platform draw swept_at now plan c t.edit_store).1 in
    let stored = create_plan_stores platform draw swept_at now plan c t.edit_store out e in
    let found = get-set out.plan_id out.plan_id (new_stored_plan out plan c) swept.plans in
    let reserved = contains-add key key swept.internal_plans in
    let freed = contains-remove (plan_key p) key made.internal_plans in
    (
      ground (arith, applies, stored, found),
      ground (arith, stored, reserved),
      ground (arith, applies, same, freed),
    )
