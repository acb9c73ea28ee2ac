-- ===== src/Shared/Fresh.antt =====
-- The loops of the packages that keep a `Set` of what they have seen, and refuse what comes twice.
use junon.Shared.{
  String, ◌≡◌, refl, Bool, true, ◌&&◌, not, List, [], ◌∷◌, map, arith, all, contains, add,
  contains-add,
}

-- No text comes twice.
unfoldable pub are_distinct : List String → Bool
are_distinct [] = true
are_distinct (k ∷ ks) = not (contains k ks) && are_distinct ks

-- Each element passes its test, and none has a name that was seen before.
unfoldable pub admits {ℓ} : {A : Type ℓ} → (A → Bool) → (A → String) → List String → List A → Bool
admits test name seen [] = true
admits test name seen (x ∷ xs) =
    test x && not (contains (name x) seen) && admits test name (add (name x) seen) xs

unfoldable are_new : List String → List String → Bool
are_new seen [] = true
are_new seen (k ∷ ks) = not (contains k seen) && are_new seen ks

are_new-add :
    (k : String) (seen ks : List String)
    → are_new (add k seen) ks ≡ (not (contains k ks) && are_new seen ks)
unfolding are_new contains
are_new-add k seen [] = refl
are_new-add k seen (j ∷ ks) = ground (arith, are_new-add k seen ks, contains-add k j seen)

admits-are_new {ℓ} :
    {A : Type ℓ} (test : A → Bool) (name : A → String) (seen : List String) (xs : List A)
    → admits test name seen xs
      ≡ (all test xs && are_distinct (map name xs) && are_new seen (map name xs))
unfolding admits are_distinct are_new all
admits-are_new test name seen [] = refl
admits-are_new test name seen (x ∷ xs) = ground (
  arith,
  admits-are_new test name (add (name x) seen) xs,
  are_new-add (name x) seen (map name xs),
)

are_new-nothing : (ks : List String) → are_new [] ks ≡ true
unfolding are_new contains
are_new-nothing [] = refl
are_new-nothing (k ∷ ks) = are_new-nothing ks

-- Such a loop accepts exactly when each element passes and the names are distinct.
pub admits-distinct {ℓ} :
    {A : Type ℓ} (test : A → Bool) (name : A → String) (xs : List A)
    → admits test name [] xs ≡ (all test xs && are_distinct (map name xs))
admits-distinct test name xs =
    ground (arith, admits-are_new test name [] xs, are_new-nothing (map name xs))
