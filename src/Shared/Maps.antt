-- ===== src/Shared/Maps.antt =====
-- The `Map` of the source with text keys: its entries in the order of their first insertion.
pub mod Distinct
use junon.Shared.{
  ℕ, ◌+◌, ◌≤◌, String, ◌≡◌, refl, Bool, true, false, ◌&&◌, Option, none, some, List, [], ◌∷◌, arith,
  ◌==◌, if◌then◌else◌, text_discrete, length, any, keep,
}

abbrev pub Map {ℓ} : Type ℓ → Type ℓ
Map V = List (String × V)

abbrev pub is_some {ℓ} : {A : Type ℓ} → Option A → Bool
is_some none = false
is_some (some _) = true

module _ {ℓ} {V : Type ℓ} where
  unfoldable pub get : String → Map V → Option V
  get k [] = none
  get k ((j, v) ∷ m) = if j == k then some v else get k m

  abbrev pub has : String → Map V → Bool
  has k m = is_some (get k m)

  -- A key that is there keeps its place.
  unfoldable pub set : String → V → Map V → Map V
  set k v [] = (k, v) ∷ []
  set k v ((j, w) ∷ m) = if j == k then (j, v) ∷ m else (j, w) ∷ set k v m

  unfoldable pub delete : String → Map V → Map V
  delete k [] = []
  delete k ((j, v) ∷ m) = let rest = delete k m in if j == k then rest else (j, v) ∷ rest

  unfoldable pub values : Map V → List V
  values [] = []
  values ((k, v) ∷ m) = v ∷ values m

  -- `[...m.values()].filter(p).length`
  unfoldable pub count : (V → Bool) → Map V → ℕ
  unfolding keep values
  count p m = length (keep p (values m))

  pub get-set :
      (k j : String) (v : V) (m : Map V) → get j (set k v m) ≡ (if k == j then some v else get j m)
  unfolding get set
  get-set k j v [] = refl
  get-set k j v ((i, w) ∷ m) = ground (arith, get-set k j v m)

  pub get-delete :
      (k j : String) (m : Map V) → get j (delete k m) ≡ (if k == j then none else get j m)
  unfolding get delete
  get-delete k j [] = ground arith
  get-delete k j ((i, w) ∷ m) = ground (arith, get-delete k j m)

  pub length-delete-le : (k : String) (m : Map V) → length (delete k m) ≤ length m
  unfolding delete
  length-delete-le k [] = omega arith
  length-delete-le k ((j, v) ∷ m) = ground (arith, length-delete-le k m)

  pub length-set :
      (k : String) (v : V) (m : Map V)
      → length (set k v m) ≡ (if has k m then length m else length m + 1)
  unfolding get set
  length-set k v [] = omega arith
  length-set k v ((j, w) ∷ m) = ground (arith, length-set k v m)

  pub count-delete-le : (p : V → Bool) (k : String) (m : Map V) → count p (delete k m) ≤ count p m
  unfolding count delete
  count-delete-le p k [] = omega arith
  count-delete-le p k ((j, v) ∷ m) = ground (arith, count-delete-le p k m)

  pub count-set_new :
      (p : V → Bool) (k : String) (v : V) (m : Map V)
      → has k m ≡ false
      → count p (set k v m) ≡ (if p v then count p m + 1 else count p m)
  unfolding count get set
  count-set_new p k v [] h = ground arith
  count-set_new p k v ((j, w) ∷ m) h = ground (arith, count-set_new p k v m)
