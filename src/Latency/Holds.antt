-- ===== src/Latency/Holds.antt =====
-- The representation invariant of `LatencyQueue` of include/async/LatencyQueue.h: which values stand
-- in which buffers.
use dynalog.Base.{
  ℕ, ◌+◌, ◌<◌, ◌≡◌, refl, sym, ◌∙◌, ap, subst, ◌||◌, List, [], ◌∷◌, ◌++◌, arith, length, ◌==◌, All,
  Each, Each-last, length-Each, length-append, Returns,
}
use dynalog.Ring.{Slots, is_empty, is_full, emplace, move_construct, move_assign}
use dynalog.Ring.Holds.{Holds, emplace-Holds, capacity-emplace}
use dynalog.Ring.State.{is_empty-Holds, is_full-Holds, capacity-move_construct}
use dynalog.Ring.Fifo.{pop-Holds, move_construct-Holds, move_assign-Holds}
use dynalog.Latency.Parts.{Reader, Depo}
use dynalog.Latency.Writer.{hand_over}

module _ {ℓ} {A : Type ℓ} where
  -- A buffer of the queue, with its values; all have one capacity.
  abbrev pub Buffered : ℕ → Slots A → List A → Type ℓ
  Buffered capacity s xs = Holds s xs × (s.capacity ≡ capacity)

  abbrev pub Vacant : ℕ → Slots A → Type ℓ
  Vacant capacity s = Buffered capacity s []

  abbrev pub Drains : ℕ → Reader A → List A → Type ℓ
  Drains capacity reader xs = Buffered capacity reader.drain xs

  -- A depo of `n` buffers, each ready or spare. `ready` lists the values of the ready ones, and
  -- `drains` those of the readers.
  pub record DepoHolds (capacity n : ℕ) (d : Depo A) (ready drains : List (List A)) : Type ℓ where
    pub full_ones : List (Slots A)
    pub spare_ones : List (Slots A)
    pub waiters : List ℕ
    pub ready_ring : Holds d.ready full_ones
    pub spare_ring : Holds d.spare spare_ones
    pub waiting_ring : Holds d.waiting waiters
    pub waiting_room : 0 < d.waiting.capacity
    pub ready_room : d.ready.capacity ≡ n
    pub spare_room : d.spare.capacity ≡ n
    pub balance : length full_ones + length spare_ones ≡ n
    pub filled : Each (Buffered capacity) full_ones ready
    pub vacant : All (Vacant capacity) spare_ones
    pub reading : Each (Drains capacity) d.readers drains

  -- A buffer that is replaced by another one loses nothing, for it was moved from.
  pub exchange :
      (capacity : ℕ) (s next : Slots A) (xs ys : List A)
      → Buffered capacity s xs
      → Buffered capacity next ys
      → Buffered capacity (move_construct s).0 xs
        × Returns
            (move_assign (move_construct s).1 next)
            (λ r. (r.0 ≡ []) × Buffered capacity r.1 ys)
  exchange capacity s next xs ys v w =
      let m = move_construct-Holds s xs v.0 in
      let (r, e, h) = move_assign-Holds (move_construct s).1 next [] ys m.1 w.0 in
      ((m.0, capacity-move_construct s ∙ v.1), (r, e, (h.0, (h.1, h.3 ∙ w.1))))

  room_left :
      (capacity n : ℕ) (d : Depo A) (rs ds : List (List A)) (w : DepoHolds capacity n d rs ds)
      → length rs < n
      → d.ready.size < d.ready.capacity
  room_left capacity n d rs ds w h =
      omega (arith, length-Each _ w.full_ones rs w.filled, w.ready_ring.counted, w.ready_room)

  hand_over_from :
      (capacity n : ℕ) (cache : Slots A) (d : Depo A) (xs : List A) (rs ds : List (List A))
      (spares : List (Slots A)) (w : DepoHolds capacity n d rs ds)
      → Buffered capacity cache xs
      → length rs < n
      → w.spare_ones ≡ spares
      → Returns (hand_over cache d) (λ r.
        Vacant capacity r.0
        × DepoHolds capacity n r.1 (rs ++ xs ∷ []) ds
        × (r.1.waiting ≡ d.waiting))
  unfolding hand_over
  hand_over_from capacity n cache d xs rs ds [] w v h e =
      absurd
        (let k = ap length e in omega (arith, length-Each _ w.full_ones rs w.filled, w.balance, k))
  hand_over_from capacity n cache d xs rs ds (next ∷ spares) w v h e =
      let (p, pe, ph) = pop-Holds d.spare next spares (subst (Holds d.spare) e w.spare_ring) in
      let vs = subst (All (Vacant capacity)) e w.vacant in
      let (x, q) = exchange capacity cache p.0 xs [] v (subst (Vacant capacity) (sym ph.0) vs.0) in
      let (m, me, mh) = q in
      let after : Depo A = record d {
        ready = emplace d.ready (move_construct cache).0;
        spare = p.1;
      } in
      (
        (m.1, after),
        rw (pe, me) refl,
        (
          mh.1,
          record {
            full_ones = w.full_ones ++ (move_construct cache).0 ∷ [];
            spare_ones = spares;
            waiters = w.waiters;
            ready_ring =
                emplace-Holds d.ready w.full_ones (move_construct cache).0 w.ready_ring
                  (room_left capacity n d rs ds w h);
            spare_ring = ph.1;
            waiting_ring = w.waiting_ring;
            waiting_room = w.waiting_room;
            ready_room = capacity-emplace d.ready (move_construct cache).0 ∙ w.ready_room;
            spare_room = ph.2 ∙ w.spare_room;
            balance =
                let k = ap length e in
                omega
                  (arith, length-append w.full_ones ((move_construct cache).0 ∷ []), w.balance, k);
            filled = Each-last _ w.full_ones rs (move_construct cache).0 xs w.filled x;
            vacant = vs.1;
            reading = w.reading;
          },
          refl,
        ),
      )

  -- Where fewer than `n` buffers are ready, handing one over makes it the last ready one, with its
  -- values, leaves a vacant buffer in its place, and changes nothing of those that wait.
  pub hand_over_lem :
      (capacity n : ℕ) (cache : Slots A) (d : Depo A) (xs : List A) (rs ds : List (List A))
      → DepoHolds capacity n d rs ds
      → Buffered capacity cache xs
      → length rs < n
      → Returns (hand_over cache d) (λ r.
        Vacant capacity r.0
        × DepoHolds capacity n r.1 (rs ++ xs ∷ []) ds
        × (r.1.waiting ≡ d.waiting))
  hand_over_lem capacity n cache d xs rs ds w v h =
      hand_over_from capacity n cache d xs rs ds w.spare_ones w v h refl

  -- The test for room is that fewer than `n` buffers are ready.
  pub full-DepoHolds :
      (capacity n : ℕ) (d : Depo A) (rs ds : List (List A))
      → DepoHolds capacity n d rs ds
      → (is_full d.ready || is_empty d.spare) ≡ (length rs == n)
  full-DepoHolds capacity n d rs ds w = ground (
    arith,
    is_full-Holds d.ready w.full_ones w.ready_ring,
    is_empty-Holds d.spare w.spare_ones w.spare_ring,
    w.balance,
    w.ready_room,
    length-Each _ w.full_ones rs w.filled,
  )

  pub empty-DepoHolds :
      (capacity n : ℕ) (d : Depo A) (rs ds : List (List A))
      → DepoHolds capacity n d rs ds
      → is_empty d.ready ≡ (length rs == 0)
  empty-DepoHolds capacity n d rs ds w =
      is_empty-Holds d.ready w.full_ones w.ready_ring
      ∙ ap (λ k. k == 0) (length-Each _ w.full_ones rs w.filled)
