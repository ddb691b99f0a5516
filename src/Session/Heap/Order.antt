-- ===== src/Session/Heap/Order.antt =====
-- The heap order, by the key of an element: `comp` says that its first argument has the larger key.
use bsrvcore.Base.{ℕ, zero, suc, ◌/◌, ◌≤◌, ◌<◌, ◌≡◌, length, List, Bool, arith}
use bsrvcore.Session.Heap.Slots.{get_or, count}

module _ {A : Type 0} (default : A) (key : A → ℕ) where
  abbrev pub key_at : List A → ℕ → ℕ
  key_at a i = key (get_or a i default)

  -- No element has a smaller key than its parent. The root is element 1.
  abbrev pub IsHeap : List A → Type 0
  IsHeap a = (c : ℕ) → 2 ≤ c → c < length a → key_at a (c / 2) ≤ key_at a c

  -- `r` holds what `v` holds, in heap order, and the same element 0.
  pub record Sifted (v r : List A) : Type 0 where
    pub ordered : IsHeap r
    pub same : (p : A → Bool) → count p r ≡ count p v
    pub sized : length r ≡ length v
    pub sentinel : get_or r 0 default ≡ get_or v 0 default

  root_least_below :
      (k : ℕ) (a : List A) (i : ℕ)
      → IsHeap a
      → i < k
      → 1 ≤ i
      → i < length a
      → key_at a 1 ≤ key_at a i
  root_least_below zero a i h f p q = absurd (omega arith)
  root_least_below (suc k) a i h f p q = ground (arith, h i, root_least_below k a (i / 2) h)

  -- The root of a heap has the least key.
  pub root_least : (a : List A) (i : ℕ) → IsHeap a → 1 ≤ i → i < length a → key_at a 1 ≤ key_at a i
  root_least a i h p q = root_least_below (suc i) a i h (omega arith) p q
