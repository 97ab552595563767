-- ===== src/Assoc.antt =====
-- The maps from strings of the C++ library (`std::unordered_map`), as the code uses them: lists of
-- entries with at most one for a key.
use container_system.Base.{
  ◌≡◌, refl, ap, Bool-cases, inl, inr, Bytes, List, [], ◌∷◌, ◌++◌, Option, none, some, ◌===◌,
  ===_iff, if◌then◌else◌, arith,
}

module _ {ℓ} {V : Type ℓ} where
  unfoldable pub find : Bytes → List (Bytes × V) → Option V
  find key [] = none
  find key ((k, v) ∷ entries) = if k === key then some v else find key entries

  unfoldable pub assign_key : Bytes → V → List (Bytes × V) → List (Bytes × V)
  assign_key key v [] = (key, v) ∷ []
  assign_key key v ((k, w) ∷ entries) =
      let rest = assign_key key v entries in if k === key then (k, v) ∷ entries else (k, w) ∷ rest

  unfoldable pub erase_key : Bytes → List (Bytes × V) → List (Bytes × V)
  erase_key key [] = []
  erase_key key ((k, v) ∷ entries) =
      let rest = erase_key key entries in if k === key then rest else (k, v) ∷ rest

  pub find-assign_key :
      (key : Bytes) (v : V) (entries : List (Bytes × V)) (j : Bytes)
      → find j (assign_key key v entries) ≡ (if key === j then some v else find j entries)
  unfolding find assign_key
  find-assign_key key v [] j = refl
  find-assign_key key v ((k, w) ∷ entries) j =
      ground (arith, find-assign_key key v entries j, ===_iff k key, ===_iff k j, ===_iff key j)

  pub find-erase_key :
      (key : Bytes) (entries : List (Bytes × V)) (j : Bytes)
      → find j (erase_key key entries) ≡ (if key === j then none else find j entries)
  unfolding find erase_key
  find-erase_key key [] j = ground arith
  find-erase_key key ((k, v) ∷ entries) j =
      ground (arith, find-erase_key key entries j, ===_iff k key, ===_iff k j, ===_iff key j)

  -- A new key is added at the end.
  pub assign_key-new :
      (key : Bytes) (v : V) (entries : List (Bytes × V))
      → find key entries ≡ none
      → assign_key key v entries ≡ entries ++ ((key, v) ∷ [])
  unfolding find assign_key
  assign_key-new key v [] e = refl
  assign_key-new key v ((k, w) ∷ entries) e = elim (Bool-cases (k === key)) [
    | inl b ↦ absurd (let f : some w ≡ none = rw b at e in cc)
    | inr b ↦ rw b (ap (λ r. (k, w) ∷ r) (assign_key-new key v entries (rw b at e)))
  ]
