-- ===== src/EditStore/Ids.antt =====
-- `#uniqueId` of packages/bridge-daemon/src/plan/in-memory-edit-store.ts.
use junon.Shared.{
  ℕ, suc, zero, String, Bool, true, false, ◌&&◌, not, leb, ◌≡◌, arith, if◌then◌else◌,
}
use junon.Shared.Texts.{after_prefix, text_length}
use junon.Shared.Maps.{Map, has}
use junon.EditStore.Data.{no_unique_id, Result, ok, err}

-- The tests on a drawn ID; the prefix is `plan_` or `undo_`.
unfoldable pub is_valid_id : String → String → Bool
is_valid_id prefix id = after_prefix prefix id && leb (text_length id) 128

-- The loop of `#uniqueId` with so many attempts left.
unfoldable pub unique_id_from {ℓ} :
    {T : Type ℓ} → ℕ → ℕ → String → (ℕ → String) → Map T → Result String
unfolding is_valid_id
unique_id_from zero i prefix draw m = err no_unique_id
unique_id_from (suc left) i prefix draw m =
    let later = unique_id_from left (suc i) prefix draw m in
    if is_valid_id prefix (draw i) && not (has (draw i) m) then ok (draw i) else later

unfoldable pub unique_id {ℓ} : {T : Type ℓ} → String → (ℕ → String) → Map T → Result String
unfolding unique_id_from
unique_id prefix draw m = unique_id_from 16 0 prefix draw m

-- An ID that the loop returns has the form that the protocol asks for, and is new to the map.
pub unique_id_from-ok {ℓ} :
    {T : Type ℓ} (left i : ℕ) (prefix : String) (draw : ℕ → String) (m : Map T) (id : String)
    → unique_id_from left i prefix draw m ≡ ok id
    → (is_valid_id prefix id ≡ true) × (has id m ≡ false)
unfolding unique_id_from
unique_id_from-ok zero i prefix draw m id e = cc
unique_id_from-ok (suc left) i prefix draw m id e =
    ground (arith, unique_id_from-ok left (suc i) prefix draw m id)

-- What the loop finds when the first text serves.
pub unique_id-first {ℓ} :
    {T : Type ℓ} (prefix : String) (draw : ℕ → String) (m : Map T)
    → is_valid_id prefix (draw 0) ≡ true
    → has (draw 0) m ≡ false
    → unique_id prefix draw m ≡ ok (draw 0)
unfolding unique_id
unique_id-first prefix draw m h k = rw (h, k)

pub unique_id-ok {ℓ} :
    {T : Type ℓ} (prefix : String) (draw : ℕ → String) (m : Map T) (id : String)
    → unique_id prefix draw m ≡ ok id
    → (is_valid_id prefix id ≡ true) × (has id m ≡ false)
unfolding unique_id
unique_id-ok prefix draw m id e = unique_id_from-ok 16 0 prefix draw m id e
