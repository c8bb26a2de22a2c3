-- ===== src/Latency/Refill.antt =====
-- How a reader of include/async/LatencyQueue.h exchanges its drain for a ready buffer.
use dynalog.Base.{
  ℕ, ◌<◌, ◌≡◌, refl, sym, ◌∙◌, ap, subst, List, [], ◌∷◌, ◌++◌, arith, length, set, All-last, Each,
  Each-set, length-Each, length-append, Returns,
}
use dynalog.Ring.{Slots, emplace, move_construct}
use dynalog.Ring.Holds.{Holds, emplace-Holds, capacity-emplace}
use dynalog.Ring.Fifo.{pop-Holds}
use dynalog.Latency.Parts.{Reader, Depo}
use dynalog.Latency.Reader.{refill}
use dynalog.Latency.Holds.{Buffered, Vacant, Drains, DepoHolds, exchange}

module _ {ℓ} {A : Type ℓ} where
  spare_left :
      (capacity n : ℕ) (d : Depo A) (r : List A) (rs ds : List (List A))
      (w : DepoHolds capacity n d (r ∷ rs) ds)
      → d.spare.size < d.spare.capacity
  spare_left capacity n d r rs ds w = omega (
    arith,
    length-Each _ w.full_ones (r ∷ rs) w.filled,
    w.spare_ring.counted,
    w.spare_room,
    w.balance,
  )

  refill_from :
      (capacity n head : ℕ) (reader : Reader A) (d : Depo A) (xs : List A) (rs ds : List (List A))
      (fulls : List (Slots A)) (w : DepoHolds capacity n d (xs ∷ rs) ds)
      → Vacant capacity reader.drain
      → w.full_ones ≡ fulls
      → Returns
          (refill head reader d)
          (λ d'. DepoHolds capacity n d' rs (set ds head xs) × (d'.waiting ≡ d.waiting))
  unfolding refill
  refill_from capacity n head reader d xs rs ds [] w v e =
      absurd (let k = ap length e in omega (arith, length-Each _ w.full_ones (xs ∷ rs) w.filled, k))
  refill_from capacity n head reader d xs rs ds (next ∷ fulls) w v e =
      let (p, pe, ph) = pop-Holds d.ready next fulls (subst (Holds d.ready) e w.ready_ring) in
      let fs = subst (λ z. Each (Buffered capacity) z (xs ∷ rs)) e w.filled in
      let (x, q) =
        exchange capacity reader.drain p.0 [] xs v
          (subst (λ z. Buffered capacity z xs) (sym ph.0) fs.0) in
      let (m, me, mh) = q in
      let after : Depo A = record d {
        spare = emplace d.spare (move_construct reader.drain).0;
        ready = p.1;
        readers = set d.readers head (record reader { drain = m.1 });
      } in
      (
        after,
        rw (pe, me) refl,
        (
          record {
            full_ones = fulls;
            spare_ones = w.spare_ones ++ (move_construct reader.drain).0 ∷ [];
            waiters = w.waiters;
            ready_ring = ph.1;
            spare_ring =
                emplace-Holds d.spare w.spare_ones (move_construct reader.drain).0 w.spare_ring
                  (spare_left capacity n d xs rs ds w);
            waiting_ring = w.waiting_ring;
            waiting_room = w.waiting_room;
            ready_room = ph.2 ∙ w.ready_room;
            spare_room = capacity-emplace d.spare (move_construct reader.drain).0 ∙ w.spare_room;
            balance =
                let k = ap length e in
                omega (
                  arith,
                  length-append w.spare_ones ((move_construct reader.drain).0 ∷ []),
                  w.balance,
                  k,
                );
            filled = fs.1;
            vacant = All-last _ w.spare_ones (move_construct reader.drain).0 w.vacant x;
            reading =
                Each-set (Drains capacity) d.readers ds head (record reader { drain = m.1 }) xs
                  w.reading mh.1;
          },
          refl,
        ),
      )

  -- A reader whose drain is used up gets the first of the ready buffers, and gives its own back.
  pub refill_lem :
      (capacity n head : ℕ) (reader : Reader A) (d : Depo A) (xs : List A) (rs ds : List (List A))
      → DepoHolds capacity n d (xs ∷ rs) ds
      → Vacant capacity reader.drain
      → Returns
          (refill head reader d)
          (λ d'. DepoHolds capacity n d' rs (set ds head xs) × (d'.waiting ≡ d.waiting))
  refill_lem capacity n head reader d xs rs ds w v =
      refill_from capacity n head reader d xs rs ds w.full_ones w v refl
