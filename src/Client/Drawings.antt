-- ===== src/Client/Drawings.antt =====
-- How many drawings `#createRequestId` needs
-- (packages/bridge-client/src/connection/json-rpc-engine.ts).
use junon.Shared.{
  ℕ, zero, suc, ◌+◌, ◌≤◌, ◌<◌, String, ◌≡◌, refl, true, false, ◌||◌, some, [], ◌∷◌, arith, length,
  Bool-cases, inl, inr, ◌==◌,
}
use junon.Shared.Maps.{Map, get, has, delete, get-delete, length-delete-le}
use junon.Client.Data.{Engine}
use junon.Client.Requests.{
  Call, create_request_id, request, register_call, give_up, take_pending, remember_late_response,
}

length-delete_lt {ℓ} :
    {V : Type ℓ} (k : String) (m : Map V) → has k m ≡ true → length (delete k m) < length m
unfolding get delete
length-delete_lt k [] here = absurd (ground (arith, here))
length-delete_lt k ((j, v) ∷ m) here =
    ground (arith, here, length-delete_lt k m, length-delete-le k m)

-- No two of so many drawings are the same.
abbrev pub Differ : ℕ → (ℕ → String) → Type 0
Differ total draw = (m n : ℕ) → m < n → n < total → (draw m == draw n) ≡ false

abbrev without_id : String → Engine → Engine
without_id id s = record s {
  pending = delete id s.pending;
  late_responses = delete id s.late_responses;
}

-- An ID that was drawn before does not matter to the drawings that follow.
create_request_id-without :
    (left i j total : ℕ) (draw : ℕ → String) (s : Engine)
    → Differ total draw
    → i < j
    → j + left ≤ total
    → create_request_id left j draw (without_id (draw i) s) ≡ create_request_id left j draw s
unfolding create_request_id
create_request_id-without zero i j total draw s differ order last = refl
create_request_id-without (suc left) i j total draw s differ order last = ground (
  arith,
  differ i j order (omega (arith, last)),
  get-delete (draw i) (draw j) s.pending,
  get-delete (draw i) (draw j) s.late_responses,
  create_request_id-without left i (suc j) total draw s differ (omega (arith, order))
      (omega (arith, last)),
)

-- More drawings than there are IDs in use, no two of them the same, give an ID.
create_request_id-draws :
    (left i total : ℕ) (draw : ℕ → String) (s : Engine)
    → Differ total draw
    → i + left ≤ total
    → length s.pending + length s.late_responses < left
    → (id : String) × (create_request_id left i draw s ≡ some id)
unfolding create_request_id
create_request_id-draws zero i total draw s differ last room = absurd (omega (arith, room))
create_request_id-draws (suc left) i total draw s differ last room =
    elim (Bool-cases (has (draw i) s.pending || has (draw i) s.late_responses)) [
      | inl used ↦
          let t = without_id (draw i) s in
          let less : length t.pending + length t.late_responses < left = ground (
            arith,
            used,
            room,
            length-delete_lt (draw i) s.pending,
            length-delete_lt (draw i) s.late_responses,
            length-delete-le (draw i) s.pending,
            length-delete-le (draw i) s.late_responses,
          ) in
          let after : suc i + left ≤ total = omega (arith, last) in
          let (id, drawn) = create_request_id-draws left (suc i) total draw t differ after less in
          let same =
            create_request_id-without left i (suc i) total draw s differ (omega arith) after in
          (id, ground (arith, used, drawn, same))
      | inr free ↦ (draw i, ground (arith, free))
    ]

-- Where more IDs can be drawn than there are in use, no two of them the same, a call of `request` ends: it
-- returns one promise, whatever becomes of the request.
pub request-returns :
    (q : Call) (s : Engine)
    → Differ q.drawings q.draw
    → length s.pending + length s.late_responses < q.drawings
    → (request q s).1.next_promise ≡ s.next_promise + 1
unfolding request register_call give_up take_pending remember_late_response
request-returns q s differ room =
    let (id, drawn) =
      create_request_id-draws q.drawings 0 q.drawings q.draw s differ (omega arith) room in
    ground (arith, drawn)
