-- ===== src/Latency/OrderTests.antt =====
-- Concrete queues and steps: the abstract queue and its order at inputs that meet their hypotheses.
use dynalog.Base.{
  ℕ, ◌%◌, ◌<◌, ◌≡◌, refl, Bool, true, List, [], ◌∷◌, ◌++◌, arith, if◌then◌else◌, Returns,
}
use dynalog.Latency.Parts.{create_queue}
use dynalog.Latency.Writer.{attempt}
use dynalog.Latency.System.{System, is_accepted, with_cache, with_depo, start, Step, round, Reach}
use dynalog.Latency.Follows.{Follows}
use dynalog.Latency.Insert.{attempt_lem}
use dynalog.Latency.Simulation.{simulation}
use dynalog.Latency.Order.{oldest_first, mine}
use dynalog.Latency.Fifo.{Sourced, fifo}
use dynalog.Latency.Signals.{Signals, Signalling, silent}
use dynalog.Latency.Wakes.{AllHeard}
use dynalog.Latency.Alert.{create_queue-AllHeard}
use dynalog.Latency.Tests.{
  full_cache, depo, full_cache-Buffered, depo-Holds, depo-waiting, depo_room, system, queue-caches,
  queue-depos,
}

-- A round of `insert` at the full cache.
abbrev anything : ℕ → ℕ → Bool
anything i value = true

handing_over : Returns (attempt 8 3 full_cache depo) (λ r.
    Step system (record (with_depo (with_cache system 0 r.1) 0 r.2) {
      taken = if is_accepted r.0 then 8 ∷ system.taken else system.taken;
    }))
handing_over =
    let (r, e, h) =
      attempt_lem 1 2 8 3 full_cache depo (7 ∷ []) [] ([] ∷ []) [] full_cache-Buffered depo-Holds
        depo-waiting depo_room in
    (r, e, round 0 0 3 8 full_cache depo r (refl, refl) depo_room e)

abbrev round_made : System ℕ
round_made = record (with_depo (with_cache system 0 handing_over.0.1) 0 handing_over.0.2) {
  taken = if is_accepted handing_over.0.0 then 8 ∷ system.taken else system.taken;
}

simulation_example :
    Follows anything 1 2 system ((7 ∷ []) ∷ (7 ∷ []) ∷ []) (([], [] ∷ []) ∷ []) round_made
simulation_example =
    simulation anything 1 2 system round_made ((7 ∷ []) ∷ (7 ∷ []) ∷ []) (([], [] ∷ []) ∷ [])
      (round 0 0 3 8 full_cache depo handing_over.0 (refl, refl) depo_room handing_over.1) refl
      (record { cached = queue-caches; stocked = queue-depos })

-- Four caches; a value names its cache by its last digit.
fifo_example : Returns (create_queue {A = ℕ} 4 0 0 5 128 4 1 1) (λ q.
    (t : System ℕ) (run : Reach (start q) t)
    → Sourced (λ v. v % 10) (start q) t run
    → (i : ℕ) → i < 4
    → (left : List ℕ) × (mine (λ v. v % 10) i (oldest_first t.taken)
        ≡ mine (λ v. v % 10) i (oldest_first t.delivered) ++ left))
fifo_example = fifo (λ v. v % 10) 4 0 0 5 128 4 (omega arith) (omega arith)

create_queue-AllHeard_example :
    Returns
      (create_queue {A = ℕ} 4 0 0 5 128 4 1 1)
      (λ q. (t : System ℕ) (g : Signals) → Signalling (start q) silent t g → AllHeard t.depos g)
create_queue-AllHeard_example =
    create_queue-AllHeard 4 0 0 5 128 4 1 1 (omega arith) (omega arith) (omega arith)
