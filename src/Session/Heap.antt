-- ===== src/Session/Heap.antt =====
-- src/session/include_exported/bsrvcore/internal/session/detail/heap.h: a binary heap in a vector
-- whose element 0 is never used. `default` is a value-initialised element, `comp` is `C`.
pub mod Slots
pub mod Order
pub mod Move
pub mod Up
pub mod Down
pub mod Laws
use bsrvcore.Base.{
  ℕ, zero, suc, ◌+◌, ◌-◌, ◌*◌, ◌/◌, length, leb, ltb, ◌==◌, take, if◌then◌else◌, List, [], ◌∷◌,
  ◌++◌, Bool, true, false,
}
use Slots.{get_or, set}

module _ {A : Type 0} (default : A) (comp : A → A → Bool) where
  -- `Heap()`.
  abbrev pub empty_heap : List A
  empty_heap = default ∷ []

  -- The loop of `Push`: `tmp` is not in the vector; `child` is the place it is to go.
  unfoldable pub up_loop : ℕ → List A → ℕ → A → List A
  up_loop zero container child tmp = container
  up_loop (suc fuel) container child tmp =
      let parent = child / 2 in
      let higher =
        up_loop fuel (set container child (get_or container parent default)) parent tmp in
      let placed = set container child tmp in
      if parent == 0
      then placed
      else (if comp (get_or container parent default) tmp then higher else placed)

  unfoldable pub push : List A → A → List A
  unfolding up_loop
  push container val =
      up_loop (suc (length container)) (container ++ val ∷ []) (length container) val

  -- The child that the loop of `Pop` compares `tmp` with.
  abbrev pub to_compare : List A → ℕ → ℕ → ℕ
  to_compare container last_idx left =
      if ltb last_idx (left + 1)
      then left
      else (if comp (get_or container left default) (get_or container (left + 1) default)
          then left + 1
          else left)

  unfoldable pub down_loop : ℕ → List A → ℕ → ℕ → A → List A
  down_loop zero container last_idx curr tmp = container
  down_loop (suc fuel) container last_idx curr tmp =
      let next = to_compare container last_idx (curr * 2) in
      let lower =
        down_loop fuel (set container curr (get_or container next default)) last_idx next tmp in
      let placed = set container curr tmp in
      if leb (curr * 2) last_idx
      then (if comp tmp (get_or container next default) then lower else placed)
      else placed

  -- `Pop`, of a heap that is not empty: the top, and the vector that is left.
  unfoldable pub pop : List A → A × List A
  unfolding down_loop
  pop container =
      let last_idx = length container - 1 in
      let result = get_or container 1 default in
      let tmp = get_or container last_idx default in
      let cut = take last_idx container in
      let sifted = down_loop (suc last_idx) cut (last_idx - 1) 1 tmp in
      if ltb (last_idx - 1) 1 then (result, cut) else (result, sifted)

  abbrev pub top : List A → A
  top container = get_or container 1 default

-- `GetSize`, `IsEmpty`; the vector always holds element 0.
abbrev pub get_size : {A : Type 0} → List A → ℕ
get_size container = length container - 1

abbrev pub heap_is_empty : {A : Type 0} → List A → Bool
heap_is_empty container = leb (length container) 1
