-- ===== src/Router/Loops.antt =====
-- The loops over the routes in packages/bridge-daemon/src/routing/application-router.ts keep the table.
use junon.Shared.{
  String, ◌≡◌, refl, Bool, false, some, List, [], ◌∷◌, arith, ◌==◌, any, Bool-cases, inl, inr,
}
use junon.Shared.Maps.{Map, get, values, get-set, get-delete}
use junon.Shared.Maps.Distinct.{Distinct, get-any}
use junon.Router.Data.{cancelled, Route, Router, key_of, is_active}
use junon.Router.Table.{
  remove_route, mark_cancelled, cancel_route, drop_routes_of, adapter_unavailable,
}
use junon.Router.Requests.{close_routes}
use junon.Router.Tabled.{IsTabled, remove_route-IsTabled, mark_cancelled-IsTabled}

is_named : String → Route → Bool
is_named id r = r.route_id == id

-- The route is in the table, as the same consumer's request.
Standing : Route → Router → Type 0
Standing r s = (q : Route) × (get r.route_id s.routes ≡ some q) × (key_of q ≡ key_of r)

-- The routes that a loop has before it: all in the table, under different IDs.
AllStanding : List Route → Router → Type 0
AllStanding [] s = Unit
AllStanding (r ∷ rs) s = Standing r s × (any (is_named r.route_id) rs ≡ false) × AllStanding rs s

AllStanding-elsewhere :
    (id : String) (rs : List Route) (s t : Router)
    → any (is_named id) rs ≡ false
    → ((k : String) → (id == k) ≡ false → get k t.routes ≡ get k s.routes)
    → AllStanding rs s
    → AllStanding rs t
unfolding AllStanding Standing any is_named
AllStanding-elsewhere id [] s t other same a = tt
AllStanding-elsewhere id (r ∷ rs) s t other same a =
    let (q, found, key) = a.0 in
    (
      (q, ground (arith, same r.route_id, found), key),
      a.1,
      AllStanding-elsewhere id rs s t (ground arith) same a.2,
    )

values-AllStanding :
    (m : Map Route) (s : Router)
    → Distinct m
    → ((k : String) (r : Route) → get k m ≡ some r → (get k s.routes ≡ some r) × (r.route_id ≡ k))
    → AllStanding (values m) s
unfolding values AllStanding Standing get is_named
values-AllStanding [] s d inside = tt
values-AllStanding ((k, r) ∷ m) s d inside =
    let here = inside k r (ground arith) in
    let rest : (j : String) (q : Route)
        → get j m ≡ some q
        → (get j s.routes ≡ some q) × (q.route_id ≡ j) =
      λ j q e. inside j q (ground arith) in
    (
      (r, ground (arith, here), refl),
      elim (Bool-cases (any (is_named r.route_id) (values m))) [
        | inl hit ↦
            let (j, q, found, named) = get-any (is_named r.route_id) m d.1 hit in
            let there = rest j q found in ground (arith, here, there, found, named, d.0)
        | inr miss ↦ miss
      ],
      values-AllStanding m s d.1 rest,
    )

drop_routes_of-IsTabled :
    (session_id : String) (rs : List Route) (s : Router)
    → AllStanding rs s
    → IsTabled s
    → IsTabled (drop_routes_of session_id rs s).1
unfolding drop_routes_of AllStanding Standing
drop_routes_of-IsTabled session_id [] s a x = x
drop_routes_of-IsTabled session_id (r ∷ rs) s a x =
    let (q, found, key) = a.0 in
    let s' = remove_route r s in
    let x' = remove_route-IsTabled r s (λ p e. ground (arith, found, key, e)) x in
    let a' =
      AllStanding-elsewhere r.route_id rs s s' a.1
        (λ k other. unfold remove_route in ground (arith, get-delete r.route_id k s.routes)) a.2 in
    let gone = drop_routes_of-IsTabled session_id rs s' a' x' in
    let kept = drop_routes_of-IsTabled session_id rs s a.2 x in
    elim (Bool-cases (r.adapter_session_id == session_id)) [
      | inl own ↦ elim (Bool-cases (is_active r.state)) [
        | inl on ↦ rw (own, on, drop_routes_of) gone
        | inr off ↦ rw (own, off, drop_routes_of) gone
      ]
      | inr other ↦ rw (other, drop_routes_of) kept
    ]

pub adapter_unavailable-IsTabled :
    (session_id : String) (s : Router) → IsTabled s → IsTabled (adapter_unavailable session_id s).1
unfolding adapter_unavailable
adapter_unavailable-IsTabled session_id s x =
    drop_routes_of-IsTabled session_id (values s.routes) s
      (values-AllStanding s.routes s x.distinct (λ k r e. (e, x.keyed k r e))) x

close_routes-IsTabled :
    (session_id : String) (rs : List Route) (s : Router)
    → AllStanding rs s
    → IsTabled s
    → IsTabled (close_routes session_id rs s).1
unfolding close_routes AllStanding Standing cancel_route
close_routes-IsTabled session_id [] s a x = x
close_routes-IsTabled session_id (r ∷ rs) s a x =
    let (q, found, key) = a.0 in
    let s' = remove_route r s in
    let x' = remove_route-IsTabled r s (λ p e. ground (arith, found, key, e)) x in
    let a' =
      AllStanding-elsewhere r.route_id rs s s' a.1
        (λ k other. unfold remove_route in ground (arith, get-delete r.route_id k s.routes)) a.2 in
    let gone = close_routes-IsTabled session_id rs s' a' x' in
    let t = mark_cancelled r s in
    let y = mark_cancelled-IsTabled r q s found key x in
    let b =
      AllStanding-elsewhere r.route_id rs s t a.1
        (λ k other.
          unfold mark_cancelled in
          ground (arith, get-set r.route_id k (record r { state = cancelled }) s.routes))
        a.2 in
    let marked = close_routes-IsTabled session_id rs t b y in
    let kept = close_routes-IsTabled session_id rs s a.2 x in
    elim (Bool-cases (r.adapter_session_id == session_id)) [
      | inl own ↦ elim (Bool-cases (is_active r.state)) [
        | inl on ↦ rw (own, on, close_routes) gone
        | inr off ↦ rw (own, off, close_routes) gone
      ]
      | inr other ↦ elim (Bool-cases (r.consumer_session_id == session_id)) [
        | inl asked ↦ elim (Bool-cases (is_active r.state)) [
          | inl on ↦ rw (other, asked, on, close_routes) marked
          | inr off ↦ rw (other, asked, off, close_routes) kept
        ]
        | inr neither ↦ rw (other, neither, close_routes) kept
      ]
    ]

-- The loop of `sessionClosed`, on a router whose table is `s.routes`.
pub close_table-IsTabled :
    (session_id : String) (s : Router)
    → IsTabled s
    → IsTabled (close_routes session_id (values s.routes) s).1
close_table-IsTabled session_id s x =
    close_routes-IsTabled session_id (values s.routes) s
      (values-AllStanding s.routes s x.distinct (λ k r e. (e, x.keyed k r e))) x
