-- ===== src/Ring/State.antt =====
-- `empty`, `full` and the capacities of include/async/RingBuffer.h, in terms of the values of a ring.
use dynalog.Base.{ℕ, ◌≡◌, refl, sym, ap, List, length, ◌==◌}
use dynalog.Ring.{Slots, is_empty, is_full, create, init, move_construct}
use dynalog.Ring.Holds.{Holds}

module _ {ℓ} {A : Type ℓ} where
  pub is_empty-Holds : (s : Slots A) (xs : List A) → Holds s xs → is_empty s ≡ (length xs == 0)
  unfolding is_empty
  is_empty-Holds s xs v = ap (λ n. n == 0) (sym v.counted)

  pub is_full-Holds :
      (s : Slots A) (xs : List A) → Holds s xs → is_full s ≡ (length xs == s.capacity)
  unfolding is_full
  is_full-Holds s xs v = ap (λ n. n == s.capacity) (sym v.counted)

  pub capacity-move_construct : (s : Slots A) → (move_construct s).0.capacity ≡ s.capacity
  unfolding move_construct
  capacity-move_construct s = refl

pub capacity-create {ℓ} : (A : Type ℓ) (n : ℕ) → (create {A = A} n).capacity ≡ n
unfolding create init
capacity-create A n = refl
