-- ===== src/Latency/Create.antt =====
-- The constructors of include/async/LatencyQueue.h, and what every run of a queue that they made keeps.
use dynalog.Base.{
  ℕ, zero, suc, ◌+◌, ◌/◌, ◌%◌, ◌^◌, ◌<◌, ◌≤◌, ◌≡◌, refl, ◌∙◌, Bool, false, List, [], ◌∷◌, ◌++◌,
  arith, length, replicate, ◌==◌, All, All-last, Each, Each-replicate, total-replicate,
  length-append, Returns,
}
use dynalog.Ring.{Slots, create, emplace, sub_size}
use dynalog.Ring.Fifo.{count}
use dynalog.Ring.Holds.{Holds, create-Holds, emplace-Holds, capacity-emplace}
use dynalog.Ring.State.{capacity-create}
use dynalog.Latency.Parts.{
  mul_size, create_queue_cache, spare_loop, readers_loop, create_depo, create_queue,
}
use dynalog.Latency.Holds.{Vacant, Drains, DepoHolds}
use dynalog.Latency.System.{System, start, Reach}
use dynalog.Latency.Abstract.{stock}
use dynalog.Latency.Books.{SystemHolds, Represents}
use dynalog.Latency.Reachable.{Reach-SystemHolds}

create-Vacant {ℓ} :
    (B : Type ℓ) (capacity : ℕ) → capacity < 2 ^ 64 → Vacant {A = B} capacity (create capacity)
create-Vacant B capacity b = (create-Holds capacity b, capacity-create B capacity)

readers_loop-Holds {ℓ} :
    (B : Type ℓ) (now latency capacity rounds index : ℕ)
    → capacity < 2 ^ 64
    → Each
        (Drains {A = B} capacity)
        (readers_loop now latency capacity rounds index)
        (replicate rounds [])
unfolding readers_loop
readers_loop-Holds B now latency capacity zero index b = tt
readers_loop-Holds B now latency capacity (suc rounds) index b =
    (create-Vacant B capacity b, readers_loop-Holds B now latency capacity rounds (suc index) b)

-- The places for ready buffers that the queue gives each of its depos.
abbrev pub places : ℕ → ℕ → ℕ → ℕ
places n_caches n_depos scale = mul_size (sub_size ((n_caches + 1) % 2 ^ 64 / n_depos) 1) scale

module _ {ℓ} {A : Type ℓ} where
  spare_loop-Holds :
      (capacity rounds : ℕ) (s : Slots (Slots A)) (ss : List (Slots A))
      → capacity < 2 ^ 64
      → Holds s ss
      → All (Vacant capacity) ss
      → length ss + rounds ≤ s.capacity
      → (zs : List (Slots A)) × Holds (spare_loop capacity rounds s) zs
        × All (Vacant capacity) zs
        × (length zs ≡ length ss + rounds)
        × ((spare_loop capacity rounds s).capacity ≡ s.capacity)
  unfolding spare_loop
  spare_loop-Holds capacity zero s ss b v a h = (ss, v, a, omega arith, refl)
  spare_loop-Holds capacity (suc rounds) s ss b v a h =
      let longer = length-append ss (create {A = A} capacity ∷ []) in
      let kept = capacity-emplace s (create {A = A} capacity) in
      let (zs, w, e, l, c) =
        spare_loop-Holds capacity rounds (emplace s (create capacity)) (ss ++ create capacity ∷ [])
          b (emplace-Holds s ss (create capacity) v (omega (arith, v.counted)))
          (All-last _ ss (create capacity) a (create-Vacant A capacity b))
          (omega (arith, longer, kept)) in
      (zs, w, e, omega (arith, longer, l), c ∙ kept)

  -- A new depo has as many spare buffers as it has places for ready ones, which is not zero where both
  -- the number of waiters and the scale are above zero.
  pub create_depo_lem :
      (now latency capacity n_readers n_waiters scale : ℕ)
      → capacity < 2 ^ 64
      → 0 < mul_size n_waiters scale
      → DepoHolds {A = A} capacity
          (mul_size n_waiters scale)
          (create_depo now latency capacity n_readers n_waiters scale)
          []
          (replicate n_readers [])
  unfolding create_depo
  create_depo_lem now latency capacity n_readers n_waiters scale b p =
      let n = mul_size n_waiters scale in
      let small : n < 2 ^ 64 = omega arith in
      let at_ready = capacity-create (Slots A) n in
      let (zs, w, e, l, c) =
        spare_loop-Holds capacity n (create n) [] b (create-Holds n small) tt
          (omega (arith, at_ready)) in
      record {
        full_ones = [];
        spare_ones = zs;
        waiters = [];
        ready_ring = create-Holds n small;
        spare_ring = w;
        waiting_ring = create-Holds n small;
        waiting_room = omega (arith, capacity-create ℕ n);
        ready_room = at_ready;
        spare_room = c ∙ at_ready;
        balance = omega (arith, l);
        filled = tt;
        vacant = e;
        reading = readers_loop-Holds A now latency capacity n_readers 0 b;
      }

  no_stock : (p : A → Bool) (n_readers : ℕ) → stock p ([], replicate n_readers []) ≡ 0
  no_stock p n_readers = omega (arith, total-replicate (count p) n_readers [] refl)

  -- A new queue is empty.
  pub create_queue-Represents :
      (n_caches stale now abs_latency capacity scale n_readers n_depos : ℕ)
      → capacity < 2 ^ 64
      → 0 < n_depos
      → 0 < places n_caches n_depos scale
      → Returns
          (create_queue {A = A} n_caches stale now abs_latency capacity scale n_readers n_depos)
          (λ q.
            Represents capacity
              (places n_caches n_depos scale)
              (start q)
              (replicate n_caches [])
              (replicate n_depos ([], replicate n_readers [])))
  unfolding create_queue create_queue_cache
  create_queue-Represents n_caches stale now abs_latency capacity scale n_readers n_depos b d p =
      let some_depo : (n_depos == 0) ≡ false = ground arith in
      rw some_depo (
        _,
        refl,
        record {
          cached =
              Each-replicate _ n_caches (create_queue_cache capacity) []
                (create-Vacant A capacity b, [], create-Holds 8 (omega arith));
          stocked =
              Each-replicate _ n_depos _ ([], replicate n_readers [])
                (create_depo_lem now abs_latency capacity n_readers _ scale b p);
        },
      )

  pub create_queue-SystemHolds :
      (n_caches stale now abs_latency capacity scale n_readers n_depos : ℕ)
      → capacity < 2 ^ 64
      → 0 < n_depos
      → 0 < places n_caches n_depos scale
      → Returns
          (create_queue {A = A} n_caches stale now abs_latency capacity scale n_readers n_depos)
          (λ q. SystemHolds capacity (places n_caches n_depos scale) (start q))
  create_queue-SystemHolds n_caches stale now abs_latency capacity scale n_readers n_depos b d p =
      let (q, e, h) =
        create_queue-Represents n_caches stale now abs_latency capacity scale n_readers n_depos b d
          p in
      (
        q,
        e,
        record {
          in_caches = replicate n_caches [];
          in_depos = replicate n_depos ([], replicate n_readers []);
          cached = h.cached;
          stocked = h.stocked;
          conserved = λ p. omega (
            arith,
            total-replicate (count p) n_caches [] refl,
            total-replicate (stock p) n_depos ([], replicate n_readers []) (no_stock p n_readers),
          );
        },
      )

  -- A queue that its constructor made, with a depo and a place for a ready buffer at least, and any
  -- number of threads that insert, give up, remove and collect, in any interleaving: every value that
  -- an `insert` accepted was passed on once, or stands once in a cache, a ready buffer or the drain of
  -- a reader. None is lost, and none is there twice.
  pub conservation :
      (n_caches stale now abs_latency capacity scale n_readers n_depos : ℕ)
      → capacity < 2 ^ 64
      → 0 < n_depos
      → 0 < places n_caches n_depos scale
      → Returns
          (create_queue {A = A} n_caches stale now abs_latency capacity scale n_readers n_depos)
          (λ q.
            (t : System A)
            → Reach (start q) t
            → SystemHolds capacity (places n_caches n_depos scale) t)
  conservation n_caches stale now abs_latency capacity scale n_readers n_depos b d p =
      let (q, e, h) =
        create_queue-SystemHolds n_caches stale now abs_latency capacity scale n_readers n_depos b d
          p in
      (q, e, λ t run. Reach-SystemHolds _ _ (start q) t h run)
