-- ===== src/Latency/Alert.antt =====
-- Where the wake-up of a call that waits is to come from: `LatencyQueue` of include/async/LatencyQueue.h with its tickets, under all
-- interleavings.
use dynalog.Base.{
  ℕ, ◌^◌, ◌<◌, refl, subst, true, false, if◌then◌else◌, Each-get, Returns, Returns-at,
}
use dynalog.Ring.{is_empty, is_full}
use dynalog.Latency.Parts.{create_queue}
use dynalog.Latency.Writer.{attempt, unwait}
use dynalog.Latency.Reader.{with_readers, fetch, fall_asleep, rise, postpone, leave, collect_one}
use dynalog.Latency.System.{
  System, start, Step, begin_insert, round, give_up, end_insert, occupy, pass_on, get_more, sleep,
  wake, time_out, visit, vacate,
}
use dynalog.Latency.Insert.{attempt_lem}
use dynalog.Latency.Collect.{fetch_lem, collect_one_lem}
use dynalog.Latency.Signals.{
  Signals, reset_ticket, signal, Permitted, Signalled, acts, wakes, resumes, Signalling, still,
  then_, silent,
}
use dynalog.Latency.Holds.{Buffered}
use dynalog.Latency.Tickets.{unwait_lem}
use dynalog.Latency.Books.{SystemHolds}
use dynalog.Latency.System.{here, next}
use dynalog.Latency.Reachable.{Reach-SystemHolds}
use dynalog.Latency.Follows.{Vacant-empty}
use dynalog.Latency.Create.{places, create_queue-SystemHolds}
use dynalog.Latency.Wakes.{
  AllHeard, depo_only, reset_unused, round_heard, fetch_heard, unwait_heard, woken, resumed,
}

module _ {ℓ} {A : Type ℓ} (capacity n : ℕ) where
  module _ (s : System A) (w : SystemHolds capacity n s) (g : Signals)
      (heard : AllHeard s.depos g) where
    Step-AllHeard :
        (t : System A) (step : Step s t)
        → Permitted s t step g
        → AllHeard t.depos (signal s t step g)
    unfolding fall_asleep rise postpone leave
    Step-AllHeard t (begin_insert i fresh ticket c c' e f) p =
        elim (is_empty c.tickets)
          as (λ b. AllHeard s.depos (if b then reset_ticket ticket g else g)) [
            | true ↦ reset_unused s.depos ticket g heard p
            | false ↦ heard
          ]
    Step-AllHeard t (round i k ticket value c d r e b f) p =
        let (xs, gx, hx) = Each-get _ s.caches w.in_caches i c w.cached e.0 in
        let (y, gy, hy) = Each-get _ s.depos w.in_depos k d w.stocked e.1 in
        round_heard capacity n value ticket k c d xs y.0 y.1 hy.waiters s.depos g r.0 r.1 r.2 e.1
          heard hy.waiting_ring
          (λ ws v.
            (Returns-at (attempt value ticket c d) _ r
              (attempt_lem capacity n value ticket c d xs y.0 y.1 ws hx.0 hy v b) f).0)
    Step-AllHeard t (give_up k ticket d d' e f) p =
        let (y, gy, hy) = Each-get _ s.depos w.in_depos k d w.stocked e in
        unwait_heard ticket k d d' s.depos g e heard (λ ws v.
          (Returns-at (unwait ticket d) _ d' (unwait_lem capacity n ticket d y.0 y.1 ws hy v) f).1)
    Step-AllHeard t (end_insert i ticket c e) p =
        elim (is_full c.tickets)
          as (λ b. AllHeard s.depos (if b then g else reset_ticket ticket g)) [
            | true ↦ heard
            | false ↦ reset_unused s.depos ticket g heard p
          ]
    Step-AllHeard t (occupy k head d reader e f) p = depo_only s.depos k d _ g e.0 heard refl
    Step-AllHeard t (pass_on k head d reader r e f h) p = depo_only s.depos k d _ g e.0 heard refl
    Step-AllHeard t (get_more k head d reader r e f h) p =
        let (y, gy, hy) = Each-get _ s.depos w.in_depos k d w.stocked e.0 in
        let (xs, gx, hx) = Each-get _ d.readers y.1 head reader hy.reading e.1 in
        let none_left = Vacant-empty capacity reader.drain xs hx f in
        fetch_heard capacity n head k d y.0 y.1 hy.waiters s.depos g r e.0 heard hy.waiting_ring
          (λ ws v.
            Returns-at (fetch head d) _ r
              (fetch_lem capacity n head reader d y.0 y.1 ws hy v e.1
                (subst (Buffered capacity reader.drain) none_left hx))
              h)
    Step-AllHeard t (sleep k d e) p = depo_only s.depos k d (fall_asleep d) g e heard refl
    Step-AllHeard t (wake k d e) p = depo_only s.depos k d (rise d) g e heard refl
    Step-AllHeard t (time_out k head latency d reader e) p =
        depo_only s.depos k d _ g e.0 heard refl
    Step-AllHeard t (visit i k c d r e f) p =
        let (xs, gx, hx) = Each-get _ s.caches w.in_caches i c w.cached e.0 in
        let (y, gy, hy) = Each-get _ s.depos w.in_depos k d w.stocked e.1 in
        let h =
          Returns-at (collect_one c d) _ r (collect_one_lem capacity n c d xs y.0 y.1 hx.0 hy) f in
        depo_only s.depos k d r.1 g e.1 heard h.3
    Step-AllHeard t (vacate k head d reader e) p =
        depo_only s.depos k d (with_readers d head (leave reader)) g e.0 heard refl

    Signalled-AllHeard :
        (t : System A) (g' : Signals)
        → Signalled s g t g'
        → SystemHolds capacity n t × AllHeard t.depos g'
    Signalled-AllHeard _ _ (acts t step p) =
        (Reach-SystemHolds capacity n s t w (next here step), Step-AllHeard t step p)
    Signalled-AllHeard _ _ (wakes ticket p) = (w, woken ticket s.depos g heard)
    Signalled-AllHeard _ _ (resumes ticket timed_out b p) = (w, resumed ticket s.depos g heard)

  Signalling-AllHeard :
      (s : System A) (g : Signals) (t : System A) (g' : Signals)
      → SystemHolds capacity n s
      → AllHeard s.depos g
      → Signalling s g t g'
      → SystemHolds capacity n t × AllHeard t.depos g'
  Signalling-AllHeard s g t g' w heard still = (w, heard)
  Signalling-AllHeard s g t g' w heard (then_ {t = u} {g' = m} run step) =
      let (v, h) = Signalling-AllHeard s g u m w heard run in Signalled-AllHeard u v m h t g' step

-- A queue that its constructor made, with a capacity below 2 ^ 64, a depo and a place for a ready
-- buffer at least, and any number of threads that insert, wait, give up, remove, collect and wake
-- each other, in any interleaving: the ticket of each call that waits is ready, or a reader that
-- took it out is about to wake it up, or it stands among those that wait at a depo.
pub create_queue-AllHeard {ℓ} :
    {A : Type ℓ} (n_caches stale now abs_latency capacity scale n_readers n_depos : ℕ)
    → capacity < 2 ^ 64
    → 0 < n_depos
    → 0 < places n_caches n_depos scale
    → Returns
        (create_queue {A = A} n_caches stale now abs_latency capacity scale n_readers n_depos)
        (λ q. (t : System A) (g : Signals) → Signalling (start q) silent t g → AllHeard t.depos g)
create_queue-AllHeard {A = A} n_caches stale now abs_latency capacity scale n_readers n_depos b d
      p =
    let (q, e, h) =
      create_queue-SystemHolds n_caches stale now abs_latency capacity scale n_readers n_depos b d
        p in
    (
      q,
      e,
      λ t g run.
          (Signalling-AllHeard capacity (places n_caches n_depos scale) (start q) silent t g h
            (λ ticket m. absurd (cc m)) run).1,
    )
