-- ===== src/Session/Heap/Up.antt =====
-- The loop of `Push`. The vector that it works on, with `tmp` put at `child`, is a heap but for
-- the edge above `child`.
use bsrvcore.Base.{
  ℕ, zero, suc, ◌/◌, ◌≤◌, ◌<◌, ◌≡◌, ◌≢◌, refl, sym, ◌∙◌, length, ltb, ◌==◌, List, Bool, arith,
  Bool-cases, inl, inr,
}
use bsrvcore.Session.Heap.Slots.{get_or, set, length-set, get_or-set}
use bsrvcore.Session.Heap.Order.{key_at, Sifted}
use bsrvcore.Session.Heap.Move.{moved, get_or-moved, length-moved, count-moved}
use bsrvcore.Session.Heap.{up_loop}

module _ {A : Type 0} (default : A) (key : A → ℕ) where
  pub record UpInv (v : List A) (child : ℕ) : Type 0 where
    pub used : 1 ≤ child
    pub inside : child < length v
    pub edges :
        (c : ℕ)
        → 2 ≤ c
        → c < length v
        → c ≢ child
        → key_at default key v (c / 2) ≤ key_at default key v c
    pub bridged :
        (c : ℕ)
        → 2 ≤ c
        → c < length v
        → c / 2 ≡ child
        → 2 ≤ child
        → key_at default key v (child / 2) ≤ key_at default key v c

  -- One round: the parent moves down to `child`, and `tmp` is to go where the parent was.
  module _ (a : List A) (child : ℕ) (tmp : A) (h : child < length a) where
    moved-UpInv :
        UpInv (set a child tmp) child
        → 2 ≤ child
        → key tmp < key (get_or a (child / 2) default)
        → UpInv (moved default a child (child / 2) tmp) (child / 2)
    moved-UpInv v two below =
        let at = get_or-moved default a child (child / 2) tmp h (omega arith) in
        let was = λ (c : ℕ). get_or-set a child c tmp default h in
        let size = length-moved default a child (child / 2) tmp in
        let size' = length-set a child tmp in
        record {
          used = omega arith;
          inside = omega (arith, size);
          edges = λ c p q r. ground (
            arith,
            size,
            size',
            at c,
            at (c / 2),
            was c,
            was (c / 2),
            was (child / 2),
            v.edges c,
            v.bridged c,
          );
          bridged = λ c p q r t. ground (
            arith,
            size,
            size',
            at c,
            at (child / 2 / 2),
            was c,
            was (child / 2),
            was (child / 2 / 2),
            v.edges c,
            v.edges (child / 2),
          );
        }

  module _ (comp : A → A → Bool) (by_key : (x y : A) → comp x y ≡ ltb (key y) (key x)) where
    pub up_loop-Sifted :
        (fuel : ℕ) (a : List A) (child : ℕ) (tmp : A)
        → child < fuel
        → child < length a
        → UpInv (set a child tmp) child
        → Sifted default key (set a child tmp) (up_loop default comp fuel a child tmp)
    unfolding up_loop
    up_loop-Sifted zero a child tmp f h v = absurd (omega arith)
    up_loop-Sifted (suc fuel) a child tmp f h v = elim (Bool-cases (child / 2 == 0)) [
      | inl e ↦ rw e (settled a child tmp v (ground arith))
      | inr e ↦ elim (Bool-cases (comp (get_or a (child / 2) default) tmp)) [
        | inl c ↦
            let two : 2 ≤ child = ground arith in
            let below : key tmp < key (get_or a (child / 2) default) =
              ground (arith, by_key (get_or a (child / 2) default) tmp) in
            let size = length-set a child (get_or a (child / 2) default) in
            let r =
              up_loop-Sifted fuel (set a child (get_or a (child / 2) default)) (child / 2) tmp
                (omega arith) (omega (arith, size)) (moved-UpInv a child tmp h v two below) in
            rw (e, c)
              (record {
                ordered = r.ordered;
                same = λ p.
                    r.same p
                    ∙ count-moved default a child (child / 2) tmp h (omega arith) p (omega arith);
                sized =
                    r.sized
                    ∙ length-moved default a child (child / 2) tmp
                    ∙ sym (length-set a child tmp);
                sentinel = ground (
                  arith,
                  r.sentinel,
                  get_or-moved default a child (child / 2) tmp h (omega arith) 0,
                  get_or-set a child 0 tmp default h,
                );
              })
        | inr c ↦
            rw (e, c)
              (record {
                ordered = λ d p q. ground (
                  arith,
                  v.edges d,
                  by_key (get_or a (child / 2) default) tmp,
                  length-set a child tmp,
                  get_or-set a child d tmp default h,
                  get_or-set a child (d / 2) tmp default h,
                );
                same = λ p. refl;
                sized = refl;
                sentinel = refl;
              })
      ]
    ]
      where
        settled :
            (b : List A) (i : ℕ) (t : A)
            → UpInv (set b i t) i
            → i < 2
            → Sifted default key (set b i t) (set b i t)
        settled b i t w root = record {
          ordered = λ d p q. w.edges d p q (λ x. absurd (omega arith));
          same = λ p. refl;
          sized = refl;
          sentinel = refl;
        }
