-- ===== src/Session/Heap/Down.antt =====
-- The loop of `Pop`. The vector that it works on, with `tmp` put at `curr`, is a heap but for the
-- edges below `curr`.
use bsrvcore.Base.{
  ℕ, zero, suc, ◌+◌, ◌*◌, ◌/◌, ◌≤◌, ◌<◌, ◌≡◌, ◌≢◌, refl, sym, ◌∙◌, ◌⊎◌, length, ltb, leb, List,
  Bool, arith, Bool-cases, inl, inr,
}
use bsrvcore.Session.Heap.Slots.{get_or, set, length-set, get_or-set}
use bsrvcore.Session.Heap.Order.{key_at, Sifted}
use bsrvcore.Session.Heap.Move.{moved, get_or-moved, length-moved, count-moved}
use bsrvcore.Session.Heap.{to_compare, down_loop}

module _ {A : Type 0} (default : A) (key : A → ℕ) where
  pub record DownInv (v : List A) (curr : ℕ) : Type 0 where
    pub used : 1 ≤ curr
    pub inside : curr < length v
    pub edges :
        (c : ℕ)
        → 2 ≤ c
        → c < length v
        → c / 2 ≢ curr
        → key_at default key v (c / 2) ≤ key_at default key v c
    pub bridged :
        (c : ℕ)
        → 2 ≤ c
        → c < length v
        → c / 2 ≡ curr
        → 2 ≤ curr
        → key_at default key v (curr / 2) ≤ key_at default key v c

  -- `next` is the child of `curr` with the smaller key.
  pub record IsLeastChild (a : List A) (curr next : ℕ) : Type 0 where
    pub inside : next < length a
    pub child : (next ≡ curr * 2) ⊎ (next ≡ curr * 2 + 1)
    pub least :
        (c : ℕ) → c < length a → c / 2 ≡ curr → key_at default key a next ≤ key_at default key a c

  moved-DownInv :
      (a : List A) (curr next : ℕ) (tmp : A)
      → 1 ≤ curr
      → curr < length a
      → DownInv (set a curr tmp) curr
      → IsLeastChild a curr next
      → key (get_or a next default) < key tmp
      → DownInv (moved default a curr next tmp) next
  moved-DownInv a curr next tmp used h v s below =
      let ne : curr ≢ next = ground (arith, s.child) in
      let at = get_or-moved default a curr next tmp h s.inside in
      let was = λ (c : ℕ). get_or-set a curr c tmp default h in
      let size = length-moved default a curr next tmp in
      let size' = length-set a curr tmp in
      record {
        used = ground (arith, s.child);
        inside = omega (arith, size, s.inside);
        edges = λ c p q r. ground (
          arith,
          size,
          size',
          s.child,
          at c,
          at (c / 2),
          was c,
          was (c / 2),
          was next,
          was (curr / 2),
          v.edges c,
          v.bridged c,
          v.bridged next,
          s.least c,
        );
        bridged = λ c p q r t. ground (
          arith,
          size,
          size',
          s.child,
          at c,
          at (next / 2),
          was c,
          was (c / 2),
          v.edges c,
          s.least c,
        );
      }

  module _ (comp : A → A → Bool) (by_key : (x y : A) → comp x y ≡ ltb (key y) (key x)) where
    to_compare-IsLeastChild :
        (a : List A) (last_idx curr : ℕ)
        → 1 ≤ curr
        → length a ≡ suc last_idx
        → curr * 2 ≤ last_idx
        → IsLeastChild a curr (to_compare default comp a last_idx (curr * 2))
    to_compare-IsLeastChild a last_idx curr used size h =
        elim (Bool-cases (ltb last_idx (curr * 2 + 1))) [
          | inl e ↦ rw e (record {
            inside = omega arith;
            child = inl refl;
            least = λ c p q. let only : c ≡ curr * 2 = ground (arith, e) in rw only (omega arith);
          })
          | inr e ↦
              let order = by_key (get_or a (curr * 2) default) (get_or a (curr * 2 + 1) default) in
              elim (Bool-cases
                (comp (get_or a (curr * 2) default) (get_or a (curr * 2 + 1) default))) [
                  | inl b ↦
                      rw (e, b)
                        (record {
                          inside = ground arith;
                          child = inr refl;
                          least = λ c p q. elim (children c q) [
                            | inl here ↦ rw here (ground (arith, order))
                            | inr here ↦ rw here (omega arith)
                          ];
                        })
                  | inr b ↦
                      rw (e, b)
                        (record {
                          inside = omega arith;
                          child = inl refl;
                          least = λ c p q. elim (children c q) [
                            | inl here ↦ rw here (omega arith)
                            | inr here ↦ rw here (ground (arith, order))
                          ];
                        })
                ]
        ]
      where
        children : (c : ℕ) → c / 2 ≡ curr → (c ≡ curr * 2) ⊎ (c ≡ curr * 2 + 1)
        children c q = omega arith

    settled :
        (a : List A) (curr : ℕ) (tmp : A)
        → DownInv (set a curr tmp) curr
        → ((c : ℕ)
            → 2 ≤ c
            → c < length (set a curr tmp)
            → c / 2 ≡ curr
            → key_at default key (set a curr tmp) (c / 2) ≤ key_at default key (set a curr tmp) c)
        → Sifted default key (set a curr tmp) (set a curr tmp)
    settled a curr tmp v below = record {
      ordered = λ c p q. ground (arith, v.edges c, below c);
      same = λ p. refl;
      sized = refl;
      sentinel = refl;
    }

    pub down_loop-Sifted :
        (fuel : ℕ) (a : List A) (last_idx curr : ℕ) (tmp : A)
        → length a < fuel + curr
        → length a ≡ suc last_idx
        → curr < length a
        → DownInv (set a curr tmp) curr
        → Sifted default key (set a curr tmp) (down_loop default comp fuel a last_idx curr tmp)
    unfolding down_loop
    down_loop-Sifted zero a last_idx curr tmp f size h v = absurd (omega arith)
    down_loop-Sifted (suc fuel) a last_idx curr tmp f size h v =
        let next = to_compare default comp a last_idx (curr * 2) in
        let size' = length-set a curr tmp in
        let was = λ (c : ℕ). get_or-set a curr c tmp default h in
        elim (Bool-cases (leb (curr * 2) last_idx)) [
          | inr e ↦ rw e (settled a curr tmp v (λ c p q r. absurd (ground (arith, e, size'))))
          | inl e ↦
              let s = to_compare-IsLeastChild a last_idx curr v.used size (ground arith) in
              let order = by_key tmp (get_or a next default) in
              elim (Bool-cases (comp tmp (get_or a next default))) [
                | inr b ↦
                    rw (e, b)
                      (settled a curr tmp v
                        (λ c p q r. ground (arith, order, s.least c, was c, was (c / 2), size')))
                | inl b ↦
                    let ne : curr ≢ next = ground (arith, s.child, v.used) in
                    let r =
                      down_loop-Sifted fuel (set a curr (get_or a next default)) last_idx next tmp
                        (ground (arith, length-set a curr (get_or a next default), s.child, v.used))
                        (length-set a curr (get_or a next default) ∙ size)
                        (rw (length-set a curr (get_or a next default)) s.inside)
                        (moved-DownInv a curr next tmp v.used h v s (ground (arith, order))) in
                    rw (e, b)
                      (record {
                        ordered = r.ordered;
                        same = λ p. r.same p ∙ count-moved default a curr next tmp h s.inside p ne;
                        sized = r.sized ∙ length-moved default a curr next tmp ∙ sym size';
                        sentinel = ground (
                          arith,
                          r.sentinel,
                          get_or-moved default a curr next tmp h s.inside 0,
                          was 0,
                          s.child,
                          v.used,
                        );
                      })
              ]
        ]
