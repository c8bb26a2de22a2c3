-- ===== src/Latency/Parts.antt =====
-- The data of `LatencyQueue` of include/async/LatencyQueue.h, and its constructors. A ticket is a
-- number, and so is a point in time. The number of caches is that of `Replicated`, which asks the
-- hardware. A division by zero is undefined behaviour, which is `none`.
use dynalog.Base.{
  ℕ, zero, suc, ◌+◌, ◌*◌, ◌/◌, ◌%◌, ◌^◌, Bool, false, List, [], ◌∷◌, Option, none, some, replicate,
  ◌==◌, if◌then◌else◌,
}
use dynalog.Ring.{Slots, create, emplace, sub_size}

module _ {ℓ} (A : Type ℓ) where
  pub record QueueCache : Type ℓ where
    pub cache : Slots A
    pub tickets : Slots ℕ

  pub record Reader : Type ℓ where
    pub occupied : Bool
    pub drain : Slots A
    pub deadline : ℕ

  pub record Depo : Type ℓ where
    pub ready : Slots (Slots A)
    pub spare : Slots (Slots A)
    pub readers : List Reader
    pub waiting : Slots ℕ
    pub sleeping : ℕ

  pub record LatencyQueue : Type ℓ where
    pub latency : ℕ
    pub caches : List QueueCache
    pub depos : List Depo
    pub readers_per_depo : ℕ

-- `size_t` multiplication.
abbrev pub mul_size : ℕ → ℕ → ℕ
mul_size a b = a * b % 2 ^ 64

module _ {ℓ} {A : Type ℓ} where
  unfoldable pub create_queue_cache : ℕ → QueueCache A
  create_queue_cache capacity = record { cache = create capacity; tickets = create 8 }

  -- The loop that fills `spare`: the rounds left.
  unfoldable pub spare_loop : ℕ → ℕ → Slots (Slots A) → Slots (Slots A)
  spare_loop capacity zero spare = spare
  spare_loop capacity (suc rounds) spare =
      spare_loop capacity rounds (emplace spare (create capacity))

  -- The loop that makes the readers: the rounds left, and the index.
  unfoldable pub readers_loop : ℕ → ℕ → ℕ → ℕ → ℕ → List (Reader A)
  readers_loop now latency capacity zero index = []
  readers_loop now latency capacity (suc rounds) index =
      record { occupied = false; drain = create capacity; deadline = now + latency * index }
      ∷ readers_loop now latency capacity rounds (suc index)

  unfoldable pub create_depo : ℕ → ℕ → ℕ → ℕ → ℕ → ℕ → Depo A
  create_depo now latency capacity n_readers n_waiters scale =
      let count = mul_size n_waiters scale in
      record {
        ready = create count;
        spare = spare_loop capacity count (create count);
        readers = readers_loop now latency capacity n_readers 0;
        waiting = create count;
        sleeping = 0;
      }

  -- `LatencyQueue( ... )`. `latency` is set from `readersPerDepo` before that has a value: `stale` is
  -- what stands there.
  unfoldable pub create_queue : ℕ → ℕ → ℕ → ℕ → ℕ → ℕ → ℕ → ℕ → Option (LatencyQueue A)
  create_queue n_caches stale now abs_latency capacity scale n_readers n_depos =
      if n_depos == 0
      then none
      else some (record {
        latency = abs_latency * stale;
        caches = replicate n_caches (create_queue_cache capacity);
        depos = replicate n_depos (
            create_depo now abs_latency capacity n_readers
              (sub_size ((n_caches + 1) % 2 ^ 64 / n_depos) 1) scale);
        readers_per_depo = n_readers;
      })
