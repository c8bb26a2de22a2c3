-- ===== src/Ring/Pointers.antt =====
-- Pointer steps through the storage of include/async/RingBuffer.h.
use dynalog.Base.{ℕ, ◌≤◌, ◌<◌, ◌≡◌, arith}
use dynalog.Ring.{Slots, advance, rewind}

module _ {ℓ} {A : Type ℓ} where
  -- From a pointer into the storage, `advance` and `rewind` by the same count, of at most the
  -- capacity, undo one another in both orders, and stay inside the storage.
  pub rewind-advance :
      (s : Slots A) (ptr count : ℕ)
      → ptr < s.capacity
      → count ≤ s.capacity
      → (rewind s (advance s ptr count) count ≡ ptr)
        × (advance s (rewind s ptr count) count ≡ ptr)
        × (advance s ptr count < s.capacity)
        × (rewind s ptr count < s.capacity)
  unfolding rewind advance
  rewind-advance s ptr count h k = ground arith
