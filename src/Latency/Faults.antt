-- ===== src/Latency/Faults.antt =====
-- No step of a thread of include/async/LatencyQueue.h runs into undefined behaviour.
use dynalog.Base.{
  ℕ, ◌^◌, ◌<◌, ◌≡◌, subst, true, false, List, [], ◌∷◌, Option, some, arith, get_elem?, Each-get,
}
use dynalog.Ring.{is_empty}
use dynalog.Ring.State.{is_empty-Holds}
use dynalog.Latency.Parts.{QueueCache, Reader, Depo}
use dynalog.Latency.Writer.{attempt, unwait, take_ticket}
use dynalog.Latency.Reader.{deliver, fetch, collect_one}
use dynalog.Latency.Holds.{Buffered, Drains}
use dynalog.Latency.Tickets.{unwait_lem, take_ticket_lem}
use dynalog.Latency.Insert.{attempt_lem}
use dynalog.Latency.Collect.{deliver_lem, fetch_lem, collect_one_lem}
use dynalog.Latency.System.{System, At}
use dynalog.Latency.Books.{SystemHolds}
use dynalog.Latency.Follows.{Vacant-empty}

-- A call that ends with a result.
abbrev pub Ends {ℓ} : {B : Type ℓ} → Option B → Type ℓ
Ends {B = B} m = (b : B) × (m ≡ some b)

module _ {ℓ} {A : Type ℓ} where
  deliver-some :
      (capacity : ℕ) (reader : Reader A) (zs : List A)
      → Drains capacity reader zs
      → is_empty reader.drain ≡ false
      → Ends (deliver reader)
  deliver-some capacity reader [] v f =
      absurd (let q = is_empty-Holds reader.drain [] v.0 in grind (arith, f, q))
  deliver-some capacity reader (x ∷ zs) v f =
      let (r, e, h) = deliver_lem capacity reader x zs v in (r, e)

  -- What a thread may do next in a state never runs into undefined behaviour.
  module _ (capacity n : ℕ) (t : System A) (w : SystemHolds capacity n t) where
    -- No step can fail on a queue whose invariant holds, which it does in every run: a round of
    -- `insert`, its tickets, a visit by `collect`, a fetch by a reader whose drain is used up, and
    -- passing on a value from one that is not, all come to an end with a result.
    pub no_fault :
        (i k head ticket : ℕ) (value : A) (c : QueueCache A) (d : Depo A) (reader : Reader A)
        → At t i c k d
        → get_elem? d.readers head ≡ some reader
        → d.waiting.capacity < 2 ^ 63
        → Ends (take_ticket ticket c)
          × Ends (attempt value ticket c d)
          × Ends (unwait ticket d)
          × Ends (collect_one c d)
          × (is_empty reader.drain ≡ true → Ends (fetch head d))
          × (is_empty reader.drain ≡ false → Ends (deliver reader))
    no_fault i k head ticket value c d reader (gc, gd) g b =
        let (xs, gx, hc) = Each-get _ t.caches w.in_caches i c w.cached gc in
        let (y, gy, hd) = Each-get _ t.depos w.in_depos k d w.stocked gd in
        let (zs, gz, hz) = Each-get _ d.readers y.1 head reader hd.reading g in
        let (r0, e0, h0) = take_ticket_lem ticket c hc.1 hc.2 in
        let (r1, e1, h1) =
          attempt_lem capacity n value ticket c d xs y.0 y.1 hd.waiters hc.0 hd hd.waiting_ring b in
        let (r2, e2, h2) = unwait_lem capacity n ticket d y.0 y.1 hd.waiters hd hd.waiting_ring in
        let (r3, e3, h3) = collect_one_lem capacity n c d xs y.0 y.1 hc.0 hd in
        (
          (r0, e0),
          (r1, e1),
          (r2, e2),
          (r3, e3),
          λ f.
              let none_left = Vacant-empty capacity reader.drain zs hz f in
              let (r4, e4, h4) =
                fetch_lem capacity n head reader d y.0 y.1 hd.waiters hd hd.waiting_ring g
                  (subst (Buffered capacity reader.drain) none_left hz) in
              (r4, e4),
          λ f. deliver-some capacity reader zs hz f,
        )
