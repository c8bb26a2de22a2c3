-- ===== src/Async/Workers.antt =====
-- The workers that `Dispatcher` of source/async/Emitter.cpp starts.
use dynalog.Base.{
  ℕ, zero, suc, ◌+◌, ◌<◌, ◌≡◌, refl, sym, ◌∙◌, ap, true, false, [], some, arith, length, get_elem?,
  ◌==◌, Bool-cases, inl, inr,
}
use dynalog.Latency.Reader.{slots}
use dynalog.Async.Dispatcher.{Dispatcher, spawn_loop, run}

length-spawn_loop : (rounds index : ℕ) → length (spawn_loop rounds index) ≡ rounds
unfolding spawn_loop
length-spawn_loop zero index = refl
length-spawn_loop (suc rounds) index = ap suc (length-spawn_loop rounds (suc index))

spawned :
    (rounds index k : ℕ)
    → k < rounds
    → get_elem? (spawn_loop rounds index) k ≡ some (record { stop = false; index = index + k })
unfolding spawn_loop
spawned zero index k h = absurd (omega arith)
spawned (suc rounds) index zero h =
    ap (λ i. some (record { stop = false; index = i })) (omega arith)
spawned (suc rounds) index (suc k) h =
    spawned rounds (suc index) k (omega arith)
    ∙ ap (λ i. some (record { stop = false; index = i })) (omega arith)

module _ {ℓ} {M : Type ℓ} where
  -- `run` starts a worker for each slot of the queue, and no other, where there is none yet, and changes
  -- nothing where there are some; so running it again changes nothing.
  pub run_lem :
      (dispatcher : Dispatcher M)
      → ((k : ℕ)
          → dispatcher.threads ≡ []
          → k < slots dispatcher.queue
          → get_elem? (run dispatcher).threads k ≡ some (record { stop = false; index = k }))
        × (dispatcher.threads ≡ [] → length (run dispatcher).threads ≡ slots dispatcher.queue)
        × (run (run dispatcher) ≡ run dispatcher)
  unfolding run
  run_lem dispatcher = (
    λ k e h. rw (none_yet e) (
        spawned (slots dispatcher.queue) 0 k h
        ∙ ap (λ i. some (record { stop = false; index = i })) (omega arith)),
    λ e. rw (none_yet e) (length-spawn_loop (slots dispatcher.queue) 0),
    elim (Bool-cases (length dispatcher.threads == 0)) [
      | inl e ↦ let first : run dispatcher ≡ started = rw e refl in ap run first ∙ again ∙ sym first
      | inr e ↦ let first : run dispatcher ≡ dispatcher = rw e refl in ap run first
    ],
  )
    where
      none_yet : dispatcher.threads ≡ [] → (length dispatcher.threads == 0) ≡ true
      none_yet e = ap (λ ts. length ts == 0) e

      started : Dispatcher M
      started = record dispatcher { threads = spawn_loop (slots dispatcher.queue) 0 }

      again : run started ≡ started
      again = elim (Bool-cases (length (spawn_loop (slots dispatcher.queue) 0) == 0)) [
        | inl f ↦ rw f refl
        | inr f ↦ rw f refl
      ]
