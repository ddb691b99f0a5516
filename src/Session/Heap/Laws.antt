-- ===== src/Session/Heap/Laws.antt =====
-- `Push` and `Pop` on a heap: order, contents, and which element comes out.
use bsrvcore.Base.{
  ℕ, suc, ◌+◌, ◌-◌, ◌/◌, ◌≤◌, ◌<◌, ◌≡◌, refl, sym, ◌∙◌, subst, length, length-append, take, ltb,
  List, [], ◌∷◌, ◌++◌, Bool, arith, Bool-cases, inl, inr,
}
use bsrvcore.Session.Heap.Slots.{
  one, get_or, set, count, length-set, get_or-set, count-set, count-append, length-take,
  get_or-take, count-take_last, get_or-append, set-append_last,
}
use bsrvcore.Session.Heap.Order.{key_at, IsHeap, Sifted, root_least}
use bsrvcore.Session.Heap.Up.{UpInv, up_loop-Sifted}
use bsrvcore.Session.Heap.Down.{DownInv, down_loop-Sifted}
use bsrvcore.Session.Heap.{up_loop, down_loop, push, pop}

-- The elements of the heap: all but element 0.
abbrev pub items {ℓ} : {A : Type ℓ} → List A → List A
items [] = []
items (x ∷ xs) = xs

count-items :
    {A : Type 0} (p : A → Bool) (xs : List A) (d : A)
    → 1 ≤ length xs
    → count p xs ≡ one (p (get_or xs 0 d)) + count p (items xs)
count-items p [] d h = absurd (omega arith)
count-items p (x ∷ xs) d h = refl

module _ {A : Type 0} (default : A) (key : A → ℕ) where
  -- A vector that is a heap: it has its element 0, and its elements are in heap order.
  pub record IsHeapOf (a : List A) : Type 0 where
    pub based : 1 ≤ length a
    pub ordered : IsHeap default key a

  -- What is left of `a`, after an element that passes the test `p` exactly if it is `x`, say, came
  -- out of it.
  pub record Popped (a : List A) (r : A × List A) : Type 0 where
    pub heap : IsHeapOf r.1
    pub sized : length a ≡ length r.1 + 1
    pub removed : (p : A → Bool) → count p (items a) ≡ count p (items r.1) + one (p r.0)
    pub least : (i : ℕ) → 1 ≤ i → i < length a → key r.0 ≤ key_at default key a i

  pub record Pushed (a : List A) (val : A) (r : List A) : Type 0 where
    pub heap : IsHeapOf r
    pub sized : length r ≡ length a + 1
    pub added : (p : A → Bool) → count p (items r) ≡ count p (items a) + one (p val)

  module _ (comp : A → A → Bool) (by_key : (x y : A) → comp x y ≡ ltb (key y) (key x)) where
    push-start : (a : List A) (val : A) → IsHeapOf a → UpInv default key (a ++ val ∷ []) (length a)
    push-start a val v =
        let size = length-append a (val ∷ []) in
        let old = λ (c : ℕ). get_or-append a (val ∷ []) c default in
        record {
          used = v.based;
          inside = omega (arith, size);
          edges = λ c p q r. ground (arith, size, old c, old (c / 2), v.ordered c);
          bridged = λ c p q r t. absurd (omega (arith, size));
        }

    -- `Push` onto a heap keeps the heap order, and adds exactly the element that it was given.
    pub push_lem : (a : List A) (val : A) → IsHeapOf a → Pushed a val (push default comp a val)
    unfolding push
    push_lem a val v =
        let same = set-append_last a val in
        let size = length-append a (val ∷ []) in
        let s =
          up_loop-Sifted default key comp by_key (suc (length a)) (a ++ val ∷ []) (length a) val
            (omega arith) (omega (arith, size))
            (subst (λ b. UpInv default key b (length a)) (sym same) (push-start a val v)) in
        let s' : Sifted default key (a ++ val ∷ [])
            (up_loop default comp (suc (length a)) (a ++ val ∷ []) (length a) val) =
          subst
            (λ b.
              Sifted default key b
                (up_loop default comp (suc (length a)) (a ++ val ∷ []) (length a) val))
            same s in
        record {
          heap = record { based = omega (arith, s'.sized, size); ordered = s'.ordered };
          sized = omega (arith, s'.sized, size);
          added = λ p.
              let first : get_or (a ++ val ∷ []) 0 default ≡ get_or a 0 default =
                get_or-append a (val ∷ []) 0 default v.based in
              let whole =
                count-items p (up_loop default comp (suc (length a)) (a ++ val ∷ []) (length a) val)
                  default (omega (arith, s'.sized, size)) in
              let whole' = rw (s'.sentinel ∙ first) at whole in
              omega (
                arith,
                whole',
                s'.same p,
                count-append p a (val ∷ []),
                count-items p a default v.based,
              );
        }

    module _ (a : List A) (v : IsHeapOf a) (h : 2 ≤ length a) where
      abbrev last : ℕ
      last = length a - 1

      abbrev cut : List A
      cut = take last a

      length-cut : length cut ≡ last
      length-cut = length-take last a (omega arith)

      cut-DownInv : 2 ≤ last → DownInv default key (set cut 1 (get_or a last default)) 1
      cut-DownInv q =
          let size = length-cut in
          let size' = length-set cut 1 (get_or a last default) in
          let at =
            λ (c : ℕ). get_or-set cut 1 c (get_or a last default) default (omega (arith, size)) in
          let old = λ (c : ℕ). get_or-take last c a default in
          record {
            used = omega arith;
            inside = omega (arith, size, size');
            edges = λ c p r s.
                ground (arith, size, size', at c, at (c / 2), old c, old (c / 2), v.ordered c);
            bridged = λ c p r s t. absurd (omega arith);
          }

      heap_least :
          (i : ℕ) → 1 ≤ i → i < length a → key (get_or a 1 default) ≤ key_at default key a i
      heap_least i p q = root_least default key a i v.ordered p q

      pop-last : last < 2 → Popped a (get_or a 1 default, cut)
      pop-last q =
          let one_left : last ≡ 1 = omega arith in
          record {
            heap = record {
              based = omega (arith, length-cut);
              ordered = λ c p r. absurd (omega (arith, length-cut));
            };
            sized = omega (arith, length-cut);
            removed = λ p.
                let all = count-take_last p last a default (omega arith) in
                let all' : count p cut + one (p (get_or a 1 default)) ≡ count p a =
                  subst (λ i. count p cut + one (p (get_or a i default)) ≡ count p a) one_left
                    all in
                let kept = get_or-take last 0 a default (omega arith) in
                let left = rw kept at (count-items p cut default (omega (arith, length-cut))) in
                omega (arith, all', left, count-items p a default v.based);
            least = heap_least;
          }

      pop-sifted :
          2 ≤ last
          → Popped a (
            get_or a 1 default,
            down_loop default comp (suc last) cut (last - 1) 1 (get_or a last default),
          )
      pop-sifted q =
          let size = length-cut in
          let tmp = get_or a last default in
          let size' = length-set cut 1 tmp in
          let s =
            down_loop-Sifted default key comp by_key (suc last) cut (last - 1) 1 tmp
              (omega (arith, size)) (omega (arith, size)) (omega (arith, size)) (cut-DownInv q) in
          record {
            heap = record { based = omega (arith, s.sized, size, size'); ordered = s.ordered };
            sized = omega (arith, s.sized, size, size');
            removed = λ p.
                let all = count-take_last p last a default (omega arith) in
                let top_kept = get_or-take last 1 a default (omega arith) in
                let written =
                  rw top_kept at (count-set p cut 1 tmp default (omega (arith, size))) in
                let base : get_or (set cut 1 tmp) 0 default ≡ get_or a 0 default =
                  ground
                    (arith, size, get_or-set cut 1 0 tmp default, get_or-take last 0 a default) in
                let left =
                  count-items p (down_loop default comp (suc last) cut (last - 1) 1 tmp) default
                    (omega (arith, s.sized, size, size')) in
                let left' = rw (s.sentinel ∙ base) at left in
                omega (arith, all, written, left', s.same p, count-items p a default v.based);
            least = heap_least;
          }

      -- `Pop` of a heap that is not empty takes out exactly one element, none has a smaller key,
      -- and what is left is a heap.
      pub pop_lem : Popped a (pop default comp a)
      unfolding pop
      pop_lem = elim (Bool-cases (ltb (last - 1) 1)) [
        | inl e ↦ rw e (pop-last (ground (arith, e)))
        | inr e ↦ rw e (pop-sifted (ground (arith, e)))
      ]
