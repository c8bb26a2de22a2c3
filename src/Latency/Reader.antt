-- ===== src/Latency/Reader.antt =====
-- `remove`, `slots` and `collect` of `LatencyQueue` of include/async/LatencyQueue.h, a critical
-- section at a time. A reader that is not there is undefined behaviour, which is `none`.
use dynalog.Base.{
  ℕ, zero, suc, ◌+◌, ◌/◌, ◌%◌, ◌^◌, Bool, true, false, ◌||◌, List, [], ◌∷◌, Option, none, some, ltb,
  ◌==◌, if◌then◌else◌, ◌>>=◌, get_elem?, set, length,
}
use dynalog.Ring.{is_empty, is_full, emplace, pop, move_construct, move_assign, sub_size}
use dynalog.Latency.Parts.{QueueCache, Reader, Depo, LatencyQueue, mul_size}
use dynalog.Latency.Writer.{hand_over}

module _ {ℓ} {A : Type ℓ} where
  unfoldable pub slots : LatencyQueue A → ℕ
  slots q = mul_size (length q.depos) q.readers_per_depo

  abbrev pub with_readers : Depo A → ℕ → Reader A → Depo A
  with_readers depo head reader = record depo { readers = set depo.readers head reader }

  -- The start of `remove`: whether the reader was free.
  unfoldable pub enter : ℕ → LatencyQueue A → Option (Bool × LatencyQueue A)
  enter index q =
      if ltb (slots q) index then some (false, q) else if length q.depos == 0 then none else (do
        depo ← get_elem? q.depos (index % length q.depos)
        reader ← get_elem? depo.readers (index / length q.depos)
        some (
            if reader.occupied then (false, q) else (
              true,
              record q {
                depos = set q.depos (index % length q.depos) (
                    with_readers depo (index / length q.depos) (record reader { occupied = true }));
              },
            )))

  -- `func( reader.drain.pop() )`: the value that `func` receives.
  unfoldable pub deliver : Reader A → Option (A × Reader A)
  deliver reader = do
    (value, drain) ← pop reader.drain
    some (value, record reader { drain = drain })

  -- The inner loop of `remove`, where `answers` is what `pred` says, call by call: whether `pred` ended
  -- it, the values that `func` received, and the reader. `none` also says that `answers` are used up.
  unfoldable pub drain_loop : List Bool → Reader A → Option (Bool × List A × Reader A)
  drain_loop [] reader = none
  drain_loop (finished ∷ answers) reader =
      if finished
      then some (true, [], reader)
      else if is_empty reader.drain
      then some (false, [], reader)
      else (do
        (value, reader') ← deliver reader
        (ended, values, reader'') ← drain_loop answers reader'
        some (ended, value ∷ values, reader''))

  -- `spare.emplace( std::move( drain ) ); drain = ready.pop()`.
  unfoldable pub refill : ℕ → Reader A → Depo A → Option (Depo A)
  refill head reader depo =
      let (moved, left) = move_construct reader.drain in
      (do
        (next, ready) ← pop depo.ready
        (gone, drain, left') ← move_assign left next
        some (record depo {
          spare = emplace depo.spare moved;
          ready = ready;
          readers = set depo.readers head (record reader { drain = drain });
        }))

  -- The ticket that is woken up, if one waits.
  unfoldable pub next_ticket : Depo A → Option (Option ℕ × Depo A)
  next_ticket depo = if is_empty depo.waiting then some (none, depo) else (do
    (ticket, waiting) ← pop depo.waiting
    some (some ticket, record depo { waiting = waiting }))

  -- What a reader does when its drain is used up.
  unfoldable pub fetch : ℕ → Depo A → Option (Option ℕ × Depo A)
  fetch head depo = if is_empty depo.ready then some (none, depo) else (do
    reader ← get_elem? depo.readers head
    depo' ← refill head reader depo
    next_ticket depo')

  -- The number of readers that sleep is one more while a reader waits; a writer that hands a cache over
  -- wakes one up if it is not zero.
  unfoldable pub fall_asleep : Depo A → Depo A
  fall_asleep depo = record depo { sleeping = (depo.sleeping + 1) % 2 ^ 64 }

  unfoldable pub rise : Depo A → Depo A
  rise depo = record depo { sleeping = sub_size depo.sleeping 1 }

  -- A timeout of the reader's wait: the next deadline.
  unfoldable pub postpone : ℕ → Reader A → Reader A
  postpone latency reader = record reader { deadline = reader.deadline + latency }

  unfoldable pub leave : Reader A → Reader A
  leave reader = record reader { occupied = false }

  -- The visit of one cache by `collect`.
  unfoldable pub collect_one : QueueCache A → Depo A → Option (QueueCache A × Depo A)
  collect_one c depo =
      if is_empty c.cache
      then some (c, depo)
      else if is_full depo.ready || is_empty depo.spare
      then some (c, depo)
      else (do (cache, depo') ← hand_over c.cache depo; some (record c { cache = cache }, depo'))

-- The caches that `collect( slot )` visits, where there are `qty` of them and `stride` depos.
unfoldable pub collect_indices : ℕ → ℕ → ℕ → ℕ → List ℕ
collect_indices zero qty stride index = []
collect_indices (suc fuel) qty stride index =
    let rest = collect_indices fuel qty stride (index + stride) in
    if ltb index qty then index ∷ rest else []

module _ {ℓ} {A : Type ℓ} where
  -- The loop of `collect`, over the caches that are visited.
  unfoldable pub collect_loop :
      List ℕ → List (QueueCache A) → Depo A → Option (List (QueueCache A) × Depo A)
  collect_loop [] caches depo = some (caches, depo)
  collect_loop (index ∷ rest) caches depo = do
    c ← get_elem? caches index
    (c', depo') ← collect_one c depo
    collect_loop rest (set caches index c') depo'

  -- `collect( slot )`, when no other thread runs.
  unfoldable pub collect : ℕ → LatencyQueue A → Option (LatencyQueue A)
  collect slot q = do
    depo ← get_elem? q.depos slot
    (caches, depo') ←
        collect_loop (collect_indices (length q.caches) (length q.caches) (length q.depos) slot)
          q.caches depo
    some (record q { caches = caches; depos = set q.depos slot depo' })
