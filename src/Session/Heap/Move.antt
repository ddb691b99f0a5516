-- ===== src/Session/Heap/Move.antt =====
-- One round of either loop of the heap: the element of slot `j` moves to slot `i`, and `tmp` is
-- then to go to slot `j`.
use bsrvcore.Base.{ℕ, ◌+◌, ◌<◌, ◌≡◌, ◌≢◌, length, ◌==◌, if◌then◌else◌, List, Bool, arith}
use bsrvcore.Session.Heap.Slots.{one, get_or, set, count, length-set, get_or-set, count-set}

module _ {A : Type 0} (default : A) (a : List A) (i j : ℕ) (tmp : A) where
  abbrev pub moved : List A
  moved = set (set a i (get_or a j default)) j tmp

  pub length-moved : length moved ≡ length a
  length-moved =
      omega (
        arith,
        length-set a i (get_or a j default),
        length-set (set a i (get_or a j default)) j tmp,
      )

  module _ (hi : i < length a) (hj : j < length a) where
    pub get_or-moved :
        (c : ℕ)
        → get_or moved c default
          ≡ (if j == c then tmp else (if i == c then get_or a j default else get_or a c default))
    get_or-moved c = ground (
      arith,
      length-set a i (get_or a j default),
      get_or-set (set a i (get_or a j default)) j c tmp default,
      get_or-set a i c (get_or a j default) default,
    )

    -- The element that slot `i` held apart, the vector holds what it held, and `tmp`.
    pub count-moved : (p : A → Bool) → i ≢ j → count p moved ≡ count p (set a i tmp)
    count-moved p ne =
        let up = get_or a j default in
        let kept : get_or (set a i up) j default ≡ up =
          ground (arith, get_or-set a i j up default) in
        let second = count-set p (set a i up) j tmp default (omega (arith, length-set a i up)) in
        let second' : count p moved + one (p up) ≡ count p (set a i up) + one (p tmp) =
          rw kept at second in
        omega (arith, second', count-set p a i up default hi, count-set p a i tmp default hi)
