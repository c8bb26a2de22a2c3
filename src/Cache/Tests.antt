-- ===== src/Cache/Tests.antt =====
-- A concrete cache: the theorems at inputs that meet their hypotheses, and runs.
use dynalog.Base.{ℕ, ◌≤◌, true, ◌≡◌, [], ◌∷◌, none, some, ltb, ◌==◌, if◌then◌else◌, arith, Returns}
use dynalog.Cache.{Buffers, Cache, remove, delegate_delete}
use dynalog.Cache.Ownership.{IsValid, times, cached}
use dynalog.Cache.Operations.{remove_lem, delegate_delete_lem}

-- Buffer 0 waits in the cache, buffer 1 of the cache is held, and so is the bigger buffer 2.
abbrev buffers : Buffers
buffers = record {
  next = 3;
  live = λ k. ltb k 3;
  size = λ k. if k == 2 then 99 else 16;
  recycled = λ k. ltb k 2;
}

abbrev one : Cache
one = record { capacity = 16; index = 1; slots = some 0 ∷ none ∷ [] }

one-IsValid : IsValid one buffers (1 ∷ 2 ∷ [])
one-IsValid = record {
  room = omega arith;
  owned = λ k. ground arith;
  numbered = λ k h. ground arith;
  sized = λ k h r. ground arith;
  ours = λ k h. ground arith;
}

remove_lem_example :
    Returns
      (remove 10 one buffers)
      (λ r. (times r.0 (1 ∷ 2 ∷ []) ≡ 0) × (10 ≤ r.2.size r.0) × IsValid r.1 r.2 (r.0 ∷ 1 ∷ 2 ∷ []))
remove_lem_example = remove_lem 10 one buffers (1 ∷ 2 ∷ []) one-IsValid

delegate_delete_lem_example : Returns (delegate_delete 1 one buffers) (λ r.
    IsValid r.0 r.1 (2 ∷ [])
    × (r.0.capacity ≡ 16)
    × (cached r.0 ≡ 1 ∷ 0 ∷ [])
    × ((k : ℕ) → r.1.live k ≡ (if k == 1 then true else ltb k 3)))
delegate_delete_lem_example = delegate_delete_lem 1 one buffers (2 ∷ []) one-IsValid

abbrev unrelated : Buffers
unrelated = record buffers { live = λ k. k == 2 }
