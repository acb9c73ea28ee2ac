-- ===== src/Shared/Maps/Distinct.antt =====
-- The keys of a `Map` are distinct, so its values are those that `get` finds.
use junon.Shared.{
  ◌+◌, String, ◌≡◌, refl, Bool, true, none, some, [], ◌∷◌, arith, any, keep, Bool-cases, inl, inr,
  ◌==◌, if◌then◌else◌,
}
use junon.Shared.Maps.{Map, get, set, delete, values, count, get-set, get-delete}

module _ {ℓ} {V : Type ℓ} where
  abbrev pub Distinct : Map V → Type ℓ
  Distinct [] = Unit
  Distinct ((k, v) ∷ m) = (get k m ≡ none) × Distinct m

  pub set-Distinct : (k : String) (v : V) (m : Map V) → Distinct m → Distinct (set k v m)
  unfolding set get
  set-Distinct k v [] d = (refl, tt)
  set-Distinct k v ((j, w) ∷ m) d = ground (arith, set-Distinct k v m d.1, get-set k j v m)

  pub delete-Distinct : (k : String) (m : Map V) → Distinct m → Distinct (delete k m)
  unfolding delete get
  delete-Distinct k [] d = tt
  delete-Distinct k ((j, w) ∷ m) d = ground (arith, delete-Distinct k m d.1, get-delete k j m)

  -- A value that `get` finds is among the values.
  pub any-get :
      (p : V → Bool) (k : String) (v : V) (m : Map V)
      → get k m ≡ some v
      → p v ≡ true
      → any p (values m) ≡ true
  unfolding any values get
  any-get p k v [] e h = cc
  any-get p k v ((j, w) ∷ m) e h = ground (arith, any-get p k v m)

  -- A value among the values is what `get` finds at some key.
  pub get-any :
      (p : V → Bool) (m : Map V)
      → Distinct m
      → any p (values m) ≡ true
      → (k : String) × (v : V) × (get k m ≡ some v) × (p v ≡ true)
  unfolding any values get
  get-any p [] d e = cc
  get-any p ((j, w) ∷ m) d e = elim (Bool-cases (p w)) [
    | inl hit ↦ (j, w, ground arith, hit)
    | inr miss ↦ let (k, v, found, h) = get-any p m d.1 (ground arith) in (k, v, ground arith, h)
  ]

  pub delete_absent : (k : String) (m : Map V) → get k m ≡ none → delete k m ≡ m
  unfolding delete get
  delete_absent k [] e = refl
  delete_absent k ((j, w) ∷ m) e = ground (arith, delete_absent k m, e)

  -- A deletion takes away the value that was there, once.
  pub count-delete_found :
      (p : V → Bool) (k : String) (v : V) (m : Map V)
      → Distinct m
      → get k m ≡ some v
      → count p m ≡ count p (delete k m) + (if p v then 1 else 0)
  unfolding count delete get values keep
  count-delete_found p k v [] d e = absurd (ground (arith, e))
  count-delete_found p k v ((j, w) ∷ m) d e = elim (Bool-cases (j == k)) [
    | inl same ↦
        let here : j ≡ k = ground (arith, same) in
        let rest = delete_absent k m (rw here at d.0) in ground (arith, same, rest, e)
    | inr other ↦ ground (arith, other, e, count-delete_found p k v m d.1)
  ]
