-- ===== src/Latency/Writer.antt =====
-- `insert` of `LatencyQueue` of include/async/LatencyQueue.h, a round of its loop at a time, with
-- `Depo::wait` and `Depo::unwait`. The lock of the cache is held in a round, and that of the depo in
-- the part of it that uses the depo.
use dynalog.Base.{
  ℕ, zero, suc, List, ◌∷◌, ◌+◌, ◌-◌, ◌^◌, Bool, true, false, not, ◌||◌, [], Option, none, some, ltb,
  ◌==◌, if◌then◌else◌, ◌>>=◌,
}
use dynalog.Ring.{
  Slots, is_empty, is_full, emplace, pop, erase, reshape, move_construct, move_assign,
}
use dynalog.Latency.Parts.{QueueCache, Depo, mul_size}

-- What a round of the loop comes to.
pub data Attempt : Type 0 where
  accepted handed_over must_wait : Attempt

-- The deadline of a call, the first time that it waits. Times are signed 64-bit counts, and their
-- overflow is undefined behaviour.
unfoldable pub deadline_of : ℕ → ℕ → Option ℕ
deadline_of now timeout =
    if ltb (now + timeout) (2 ^ 63)
    then some (if ltb now (now + timeout) then now + timeout else 2 ^ 63 - 1)
    else none

module _ {ℓ} {A : Type ℓ} where
  unfoldable pub wait : ℕ → Depo A → Option (Depo A)
  wait ticket depo = do
    (gone, waiting) ←
        if is_full depo.waiting
        then reshape (mul_size depo.waiting.capacity 2) depo.waiting
        else some ([], depo.waiting)
    some (record depo { waiting = emplace waiting ticket })

  unfoldable pub unwait : ℕ → Depo A → Option (Depo A)
  unwait ticket depo = do
    (removed, waiting) ← erase (λ other. ticket == other) depo.waiting
    some (record depo { waiting = waiting })

  -- `ready.emplace( std::move( cache ) ); cache = spare.pop()`.
  unfoldable pub hand_over : Slots A → Depo A → Option (Slots A × Depo A)
  hand_over cache depo =
      let (moved, left) = move_construct cache in
      (do
        (next, spare) ← pop depo.spare
        (gone, cache', left') ← move_assign left next
        some (cache', record depo { ready = emplace depo.ready moved; spare = spare }))

  -- The visit of the depo: whether the caller must wait.
  unfoldable pub offer : ℕ → Slots A → Depo A → Option (Bool × Slots A × Depo A)
  offer ticket cache depo =
      if is_full depo.ready || is_empty depo.spare
      then (do depo' ← wait ticket depo; some (true, cache, depo'))
      else (do (cache', depo') ← hand_over cache depo; some (false, cache', depo'))

  unfoldable pub attempt : A → ℕ → QueueCache A → Depo A → Option (Attempt × QueueCache A × Depo A)
  attempt value ticket c depo =
      if not (is_full c.cache)
      then some (accepted, record c { cache = emplace c.cache value }, depo)
      else (do
        (full, cache, depo') ← offer ticket c.cache depo
        some (if full then must_wait else handed_over, record c { cache = cache }, depo'))

  -- The ticket that a call starts with: a cached one, or a new one.
  unfoldable pub take_ticket : ℕ → QueueCache A → Option (ℕ × QueueCache A)
  take_ticket fresh c =
      if is_empty c.tickets
      then some (fresh, c)
      else (do (ticket, tickets) ← pop c.tickets; some (ticket, record c { tickets = tickets }))

  -- The end of a call: the ticket is cached if there is room.
  unfoldable pub keep_ticket : ℕ → QueueCache A → QueueCache A
  keep_ticket ticket c =
      if not (is_full c.tickets) then record c { tickets = emplace c.tickets ticket } else c

-- How a wait of a call ends: whether it was woken up, and the cache and the depo as other threads left
-- them.
pub record Wake {ℓ} (A : Type ℓ) : Type ℓ where
  pub woken : Bool
  pub cache : QueueCache A
  pub depo : Depo A

module _ {ℓ} {A : Type ℓ} where
  -- The loop of `insert`: the rounds left, the value, the ticket and how the waits end. `none` also says
  -- that rounds or waits are used up.
  unfoldable pub insert_loop :
      ℕ → A → ℕ → List (Wake A) → QueueCache A → Depo A → Option (Bool × QueueCache A × Depo A)
  insert_loop zero value ticket waits c depo = none
  insert_loop (suc rounds) value ticket waits c depo = do
    (outcome, c', depo') ← attempt value ticket c depo
    elim outcome [
      | accepted ↦ some (true, c', depo')
      | handed_over ↦ insert_loop rounds value ticket waits c' depo'
      | must_wait ↦ elim waits [
        | [] ↦ none
        | w ∷ rest ↦ elim w.woken [
          | true ↦ insert_loop rounds value ticket rest w.cache w.depo
          | false ↦ do depo'' ← unwait ticket w.depo; some (false, w.cache, depo'')
        ]
      ]
    ]

  unfoldable pub insert :
      ℕ → ℕ → A → List (Wake A) → QueueCache A → Depo A → Option (Bool × QueueCache A × Depo A)
  insert rounds fresh value waits c depo = do
    (ticket, c1) ← take_ticket fresh c
    (result, c2, depo2) ← insert_loop rounds value ticket waits c1 depo
    some (result, keep_ticket ticket c2, depo2)
