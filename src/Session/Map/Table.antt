-- ===== src/Session/Map/Table.antt =====
-- The hash map from session ids to entries, as an association list; a key occurs once.
use bsrvcore.Base.{
  Bytes, bytes_eq, bytes_eq_iff, eq_of_bytes_eq, Bool-cases, Option-cases, inl, inr, ◌⊎◌, sym, ap,
  ◌∙◌, if◌then◌else◌, List, [], ◌∷◌, Option, none, some, ◌≡◌, refl, arith,
}

module _ {V : Type 0} where
  unfoldable pub lookup : Bytes → List (Bytes × V) → Option V
  lookup key [] = none
  lookup key ((k, v) ∷ m) = if bytes_eq k key then some v else lookup key m

  -- `emplace`: an entry that is there stays.
  unfoldable pub emplace : Bytes → V → List (Bytes × V) → List (Bytes × V)
  emplace key v [] = (key, v) ∷ []
  emplace key v ((k, w) ∷ m) = if bytes_eq k key then (k, w) ∷ m else (k, w) ∷ emplace key v m

  -- A write through an iterator or a reference to the entry of `key`.
  unfoldable pub assign : Bytes → V → List (Bytes × V) → List (Bytes × V)
  assign key v [] = []
  assign key v ((k, w) ∷ m) = if bytes_eq k key then (k, v) ∷ m else (k, w) ∷ assign key v m

  unfoldable pub erase : Bytes → List (Bytes × V) → List (Bytes × V)
  erase key [] = []
  erase key ((k, w) ∷ m) = if bytes_eq k key then erase key m else (k, w) ∷ erase key m

  pub lookup-emplace :
      (key other : Bytes) (v : V) (m : List (Bytes × V))
      → lookup other (emplace key v m) ≡ (
          if bytes_eq key other
          then elim (lookup key m) [ none ↦ some v | some w ↦ some w ]
          else lookup other m)
  unfolding lookup emplace
  lookup-emplace key other v [] = refl
  lookup-emplace key other v ((k, w) ∷ m) = ground (
    arith,
    bytes_eq_iff k key,
    bytes_eq_iff key other,
    bytes_eq_iff k other,
    lookup-emplace key other v m,
  )

  pub lookup-assign :
      (key other : Bytes) (v : V) (m : List (Bytes × V)) (old : V)
      → lookup key m ≡ some old
      → lookup other (assign key v m) ≡ (if bytes_eq key other then some v else lookup other m)
  unfolding lookup assign
  lookup-assign key other v [] old h = cc
  lookup-assign key other v ((k, w) ∷ m) old h = ground (
    arith,
    bytes_eq_iff k key,
    bytes_eq_iff key other,
    bytes_eq_iff k other,
    lookup-assign key other v m old,
  )

  pub lookup-erase :
      (key other : Bytes) (m : List (Bytes × V))
      → lookup other (erase key m) ≡ (if bytes_eq key other then none else lookup other m)
  unfolding lookup erase
  lookup-erase key other [] = ground arith
  lookup-erase key other ((k, w) ∷ m) = ground (
    arith,
    bytes_eq_iff k key,
    bytes_eq_iff key other,
    bytes_eq_iff k other,
    lookup-erase key other m,
  )

  -- Where an entry that is found after a write comes from.
  pub emplace_cases :
      (key other : Bytes) (v w : V) (m : List (Bytes × V))
      → lookup other (emplace key v m) ≡ some w
      → (lookup other m ≡ some w) ⊎ ((key ≡ other) × (v ≡ w))
  emplace_cases key other v w m h =
      let put = lookup-emplace key other v m in
      elim (Bool-cases (bytes_eq key other)) [
        | inr c ↦ inl (sym (rw c at put) ∙ h)
        | inl c ↦
            let same : key ≡ other = eq_of_bytes_eq key other c in
            elim (Option-cases (lookup key m)) [
              | inl e ↦ inr (same, ground (arith, put, e, h, c))
              | inr (u, e) ↦
                  let there : lookup other m ≡ some u = ap (λ k. lookup k m) (sym same) ∙ e in
                  inl (there ∙ ground (arith, put, e, h, c))
            ]
      ]

  pub emplace_keeps :
      (key other : Bytes) (v w : V) (m : List (Bytes × V))
      → lookup other m ≡ some w
      → lookup other (emplace key v m) ≡ some w
  emplace_keeps key other v w m h =
      let put = lookup-emplace key other v m in
      elim (Bool-cases (bytes_eq key other)) [
        | inr c ↦ put ∙ rw c h
        | inl c ↦
            let there : lookup key m ≡ some w =
              ap (λ k. lookup k m) (eq_of_bytes_eq key other c) ∙ h in
            put ∙ rw (c, there) refl
      ]

  pub assign_cases :
      (key other : Bytes) (v w old : V) (m : List (Bytes × V))
      → lookup key m ≡ some old
      → lookup other (assign key v m) ≡ some w
      → (lookup other m ≡ some w) ⊎ ((key ≡ other) × (v ≡ w))
  assign_cases key other v w old m there h =
      let put = lookup-assign key other v m old there in
      elim (Bool-cases (bytes_eq key other)) [
        | inr c ↦ inl (sym (rw c at put) ∙ h)
        | inl c ↦ inr (eq_of_bytes_eq key other c, ground (arith, put, h, c))
      ]
