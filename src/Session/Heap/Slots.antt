-- ===== src/Session/Heap/Slots.antt =====
-- The slots of a vector: reads and writes by index, and how often a kind of element occurs.
use bsrvcore.Base.{
  ℕ, zero, suc, ◌+◌, ◌<◌, ◌≡◌, refl, ap, length, take, ◌==◌, if◌then◌else◌, List, [], ◌∷◌, ◌++◌,
  Bool, true, false, arith,
}

abbrev pub one : Bool → ℕ
one true = 1
one false = 0

module _ {A : Type 0} where
  abbrev pub get_or : List A → ℕ → A → A
  get_or [] i d = d
  get_or (x ∷ xs) zero d = x
  get_or (x ∷ xs) (suc i) d = get_or xs i d

  -- A write out of bounds changes nothing.
  abbrev pub set : List A → ℕ → A → List A
  set [] i v = []
  set (x ∷ xs) zero v = v ∷ xs
  set (x ∷ xs) (suc i) v = x ∷ set xs i v

  -- How many elements pass the test.
  abbrev pub count : (A → Bool) → List A → ℕ
  count p [] = 0
  count p (x ∷ xs) = one (p x) + count p xs

  pub length-set : (xs : List A) (i : ℕ) (v : A) → length (set xs i v) ≡ length xs
  length-set [] i v = refl
  length-set (x ∷ xs) zero v = refl
  length-set (x ∷ xs) (suc i) v = ap suc (length-set xs i v)

  pub get_or-set :
      (xs : List A) (i j : ℕ) (v d : A)
      → i < length xs
      → get_or (set xs i v) j d ≡ (if i == j then v else get_or xs j d)
  get_or-set [] i j v d h = absurd (omega arith)
  get_or-set (x ∷ xs) zero zero v d h = refl
  get_or-set (x ∷ xs) zero (suc j) v d h = ground arith
  get_or-set (x ∷ xs) (suc i) zero v d h = ground arith
  get_or-set (x ∷ xs) (suc i) (suc j) v d h = ground (arith, get_or-set xs i j v d)

  pub count-set :
      (p : A → Bool) (xs : List A) (i : ℕ) (v d : A)
      → i < length xs
      → count p (set xs i v) + one (p (get_or xs i d)) ≡ count p xs + one (p v)
  count-set p [] i v d h = absurd (omega arith)
  count-set p (x ∷ xs) zero v d h = omega arith
  count-set p (x ∷ xs) (suc i) v d h = omega (arith, count-set p xs i v d)

  pub count-append : (p : A → Bool) (xs ys : List A) → count p (xs ++ ys) ≡ count p xs + count p ys
  count-append p [] ys = omega arith
  count-append p (x ∷ xs) ys = omega (arith, count-append p xs ys)

  pub length-take : (n : ℕ) (xs : List A) → n < length xs → length (take n xs) ≡ n
  length-take zero xs h = refl
  length-take (suc n) [] h = absurd (omega arith)
  length-take (suc n) (x ∷ xs) h = ap suc (length-take n xs (omega arith))

  pub get_or-take : (n i : ℕ) (xs : List A) (d : A) → i < n → get_or (take n xs) i d ≡ get_or xs i d
  get_or-take zero i xs d h = absurd (omega arith)
  get_or-take (suc n) i [] d h = refl
  get_or-take (suc n) zero (x ∷ xs) d h = refl
  get_or-take (suc n) (suc i) (x ∷ xs) d h = get_or-take n i xs d (omega arith)

  -- All but the last element, and the last one.
  pub count-take_last :
      (p : A → Bool) (n : ℕ) (xs : List A) (d : A)
      → length xs ≡ suc n
      → count p (take n xs) + one (p (get_or xs n d)) ≡ count p xs
  count-take_last p n [] d h = absurd (omega arith)
  count-take_last p zero (x ∷ []) d h = omega arith
  count-take_last p zero (x ∷ y ∷ xs) d h = absurd (omega arith)
  count-take_last p (suc n) (x ∷ xs) d h = omega (arith, count-take_last p n xs d)

  pub get_or-append :
      (xs ys : List A) (i : ℕ) (d : A) → i < length xs → get_or (xs ++ ys) i d ≡ get_or xs i d
  get_or-append [] ys i d h = absurd (omega arith)
  get_or-append (x ∷ xs) ys zero d h = refl
  get_or-append (x ∷ xs) ys (suc i) d h = get_or-append xs ys i d (omega arith)

  pub get_or-append_last : (xs : List A) (v d : A) → get_or (xs ++ v ∷ []) (length xs) d ≡ v
  get_or-append_last [] v d = refl
  get_or-append_last (x ∷ xs) v d = get_or-append_last xs v d

  pub set-append_last : (xs : List A) (v : A) → set (xs ++ v ∷ []) (length xs) v ≡ xs ++ v ∷ []
  set-append_last [] v = refl
  set-append_last (x ∷ xs) v = ap (◌∷◌ x) (set-append_last xs v)
