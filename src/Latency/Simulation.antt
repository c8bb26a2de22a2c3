-- ===== src/Latency/Simulation.antt =====
-- Every step of a thread of include/async/LatencyQueue.h moves its values as the abstract queue does, or
-- leaves them where they are.
use dynalog.Base.{ℕ, refl, Bool, List, Each-get, Returns-at}
use dynalog.Latency.Writer.{attempt, unwait, take_ticket, keep_ticket}
use dynalog.Latency.Reader.{fall_asleep, rise, postpone, leave}
use dynalog.Latency.Tickets.{unwait_lem, sleepers_changed, take_ticket_lem, keep_ticket_lem}
use dynalog.Latency.Insert.{attempt_lem}
use dynalog.Latency.System.{
  System, Step, begin_insert, round, give_up, end_insert, occupy, pass_on, get_more, sleep, wake,
  time_out, visit, vacate,
}
use dynalog.Latency.Abstract.{Stock}
use dynalog.Latency.Books.{Represents}
use dynalog.Latency.Follows.{Allowed, Follows, same_values, same_stock, same_drain}
use dynalog.Latency.Moves.{passing_on, fetching, rounded, visited}

module _ {ℓ} {A : Type ℓ} (allowed : ℕ → A → Bool) (capacity n : ℕ) where
  -- From a state that represents the contents of an abstract queue, each step of a thread, of
  -- `insert` and its rounds, of `remove` and of `collect`, leads to a state that represents the
  -- same contents, or those after a move of the abstract queue. Where the step inserts a value, it
  -- must be allowed in its cache.
  pub simulation :
      (s t : System A) (cs : List (List A)) (ds : List (Stock A)) (step : Step s t)
      → Allowed allowed s t step
      → Represents capacity n s cs ds
      → Follows allowed capacity n s cs ds t
  unfolding fall_asleep rise postpone leave
  simulation s t cs ds (begin_insert i fresh ticket c c' g e) u w =
      same_values allowed capacity n s cs ds w i c c' g
        (λ ts h. Returns-at (take_ticket fresh c) _ (ticket, c') (take_ticket_lem fresh c ts h) e)
  simulation s t cs ds (round i k ticket value c d r g b e) u w =
      let (xs, gx, hx) = Each-get _ s.caches cs i c w.cached g.0 in
      let (y, gy, hy) = Each-get _ s.depos ds k d w.stocked g.1 in
      let h =
        Returns-at (attempt value ticket c d) _ r
          (attempt_lem capacity n value ticket c d xs y.0 y.1 hy.waiters hx.0 hy hy.waiting_ring b)
          e in
      rounded allowed capacity n s cs ds w i k ticket value c d xs y hy.waiters r.0 r.1 r.2 gx gy hx
        hy u h.0 h.1
  simulation s t cs ds (give_up k ticket d d' g e) u w =
      same_stock allowed capacity n s cs ds w k d d' g (λ y v.
        (Returns-at (unwait ticket d) _ d'
          (unwait_lem capacity n ticket d y.0 y.1 v.waiters v v.waiting_ring) e).0)
  simulation s t cs ds (end_insert i ticket c g) u w =
      same_values allowed capacity n s cs ds w i c (keep_ticket ticket c) g
        (λ ts h. keep_ticket_lem ticket c ts h)
  simulation s t cs ds (occupy k head d reader g f) u w =
      same_drain allowed capacity n s cs ds w k head d reader _ g refl
  simulation s t cs ds (pass_on k head d reader r g f e) u w =
      let (y, gy, hy) = Each-get _ s.depos ds k d w.stocked g.0 in
      let (xs, gx, hx) = Each-get _ d.readers y.1 head reader hy.reading g.1 in
      passing_on allowed capacity n s cs ds w k head d reader xs r y gy hy gx hx f e
  simulation s t cs ds (get_more k head d reader r g f e) u w =
      fetching allowed capacity n s cs ds w k head d reader r g f e
  simulation s t cs ds (sleep k d g) u w =
      same_stock allowed capacity n s cs ds w k d (fall_asleep d) g
        (λ y v. sleepers_changed capacity n d y.0 y.1 _ v)
  simulation s t cs ds (wake k d g) u w =
      same_stock allowed capacity n s cs ds w k d (rise d) g
        (λ y v. sleepers_changed capacity n d y.0 y.1 _ v)
  simulation s t cs ds (time_out k head latency d reader g) u w =
      same_drain allowed capacity n s cs ds w k head d reader _ g refl
  simulation s t cs ds (visit i k c d r g e) u w =
      visited allowed capacity n s cs ds w i k c d r g e
  simulation s t cs ds (vacate k head d reader g) u w =
      same_drain allowed capacity n s cs ds w k head d reader (leave reader) g refl
