-- ===== src/Latency/ServedTests.antt =====
-- A concrete call that waits, at a depo with a ready buffer.
use dynalog.Base.{ℕ, ◌≡◌, refl, ◌∙◌, Bool, true, false, [], ◌∷◌, some, arith, Returns}
use dynalog.Ring.{create, emplace}
use dynalog.Ring.Holds.{Holds, create-Holds, emplace-Holds, capacity-emplace}
use dynalog.Ring.State.{capacity-create, is_empty-Holds}
use dynalog.Latency.Parts.{Depo}
use dynalog.Latency.Holds.{DepoHolds}
use dynalog.Latency.Reader.{fetch}
use dynalog.Latency.System.{System, with_depo}
use dynalog.Latency.Signals.{Signals, Signalled, wake_ticket, end_wait}
use dynalog.Latency.Books.{SystemHolds}
use dynalog.Latency.Tests.{full_cache, full_cache-Buffered, idle, idle-Vacant}
use dynalog.Latency.Served.{owing, resumed_signals, first_served}

one_held : {B : Type 0} (x : B) → Holds (emplace (create 2) x) (x ∷ [])
one_held {B} x =
    let v = create-Holds {A = B} 2 (omega arith) in
    emplace-Holds (create 2) [] x v (omega (arith, v.counted, capacity-create B 2))

two_places : {B : Type 0} (x : B) → (emplace (create 2) x).capacity ≡ 2
two_places {B} x = capacity-emplace (create 2) x ∙ capacity-create B 2

abbrev busy : Depo ℕ
busy = record {
  ready = emplace (create 2) full_cache.cache;
  spare = emplace (create 2) (create 1);
  readers = idle ∷ [];
  waiting = emplace (create 2) 3;
  sleeping = 0;
}

busy-Holds : DepoHolds 1 2 busy ((7 ∷ []) ∷ []) ([] ∷ [])
busy-Holds = record {
  full_ones = full_cache.cache ∷ [];
  spare_ones = create 1 ∷ [];
  waiters = 3 ∷ [];
  ready_ring = one_held full_cache.cache;
  spare_ring = one_held (create 1);
  waiting_ring = one_held 3;
  waiting_room = omega (arith, two_places {B = ℕ} 3);
  ready_room = two_places full_cache.cache;
  spare_room = two_places (create {A = ℕ} 1);
  balance = omega arith;
  filled = (full_cache-Buffered, tt);
  vacant = ((create-Holds 1 (omega arith), capacity-create ℕ 1), tt);
  reading = (idle-Vacant, tt);
}

abbrev waiting_system : System ℕ
waiting_system = record {
  caches = full_cache ∷ [];
  depos = busy ∷ [];
  taken = 7 ∷ 7 ∷ [];
  delivered = [];
}

waiting_system-Holds : SystemHolds 1 2 waiting_system
waiting_system-Holds = record {
  in_caches = (7 ∷ []) ∷ [];
  in_depos = ((7 ∷ []) ∷ [], [] ∷ []) ∷ [];
  cached = ((full_cache-Buffered, [], create-Holds 8 (omega arith)), tt);
  stocked = (busy-Holds, tt);
  conserved = λ p. ground arith;
}

abbrev third_waits : Signals
third_waits = record { ready = λ t. false; owed = []; blocked = 3 ∷ [] }

first_served_example : Returns (fetch 0 busy) (λ r.
    let t = with_depo waiting_system 0 r.1 in
    (r.0 ≡ some 3)
    × Holds r.1.waiting []
    × Signalled waiting_system third_waits t (owing 3 third_waits)
    × Signalled t (owing 3 third_waits) t (wake_ticket 3 third_waits)
    × ((timed_out : Bool) → end_wait 3 timed_out (wake_ticket 3 third_waits) ≡ some true)
    × Signalled t (wake_ticket 3 third_waits) t (resumed_signals 3 (wake_ticket 3 third_waits)))
first_served_example =
    first_served 1 2 waiting_system third_waits 0 0 busy idle 3 [] waiting_system-Holds (refl, refl)
      (is_empty-Holds idle.drain [] idle-Vacant.0)
      (is_empty-Holds busy.ready (full_cache.cache ∷ []) (one_held full_cache.cache)) (one_held 3)
      refl
