-- ===== src/Latency/Served.antt =====
-- How a call of `insert` of include/async/LatencyQueue.h that waits first at a depo goes on: a fetch there,
-- a wake-up, and the end of its wait.
use dynalog.Base.{
  ℕ, ◌≡◌, refl, subst, Bool, true, false, List, [], ◌∷◌, some, arith, get_elem?, mem, Each-get,
  Returns,
}
use dynalog.Ring.{is_empty}
use dynalog.Ring.Holds.{Holds}
use dynalog.Latency.Parts.{Reader, Depo}
use dynalog.Latency.Reader.{fetch}
use dynalog.Latency.Holds.{Buffered, DepoHolds, empty-DepoHolds}
use dynalog.Latency.Collect.{fetch_lem}
use dynalog.Latency.System.{System, with_depo, ReaderAt, get_more}
use dynalog.Latency.Signals.{
  Signals, without, remove_one, wake_ticket, reset_ticket, end_wait, after_fetch, Signalled, acts,
  wakes, resumes,
}
use dynalog.Latency.Books.{SystemHolds}
use dynalog.Latency.Follows.{Vacant-empty}

-- The signals once a reader owes the ticket a wake-up, and once it is woken up.
abbrev pub owing : ℕ → Signals → Signals
owing ticket g = record g { owed = ticket ∷ g.owed }

abbrev pub resumed_signals : ℕ → Signals → Signals
resumed_signals ticket g = reset_ticket ticket (record g { blocked = without ticket g.blocked })

module _ {ℓ} {A : Type ℓ} (capacity n : ℕ) where
  -- A fetch where a buffer is ready takes the first ticket out, and no other.
  first_taken :
      (k head : ℕ) (d : Depo A) (reader : Reader A) (rs ds : List (List A)) (ticket : ℕ)
      (ws : List ℕ)
      → DepoHolds capacity n d rs ds
      → Holds d.waiting (ticket ∷ ws)
      → get_elem? d.readers head ≡ some reader
      → Buffered capacity reader.drain []
      → is_empty d.ready ≡ false
      → Returns (fetch head d) (λ r. (r.0 ≡ some ticket) × Holds r.1.waiting ws)
  first_taken k head d reader [] ds ticket ws w v g u e =
      absurd (let q = empty-DepoHolds capacity n d [] ds w in ground (arith, q, e))
  first_taken k head d reader (xs ∷ rs) ds ticket ws w v g u e =
      let (r, q, h) = fetch_lem capacity n head reader d (xs ∷ rs) ds (ticket ∷ ws) w v g u in
      (r, q, (h.0, h.2))

  -- In a state that keeps the invariant, where a depo has a ready buffer and a reader with a drain that
  -- is used up, and a call waits whose ticket stands first at the depo: a fetch by that reader returns,
  -- it takes out that ticket and leaves the others in their order, and it makes the reader owe this
  -- ticket a wake-up; the wake-up can follow at once, and it is the only one that is settled; then
  -- `wait` returns success, whether or not the time is up, and the call goes on with its ticket reset.
  pub first_served :
      (s : System A) (g : Signals) (k head : ℕ) (d : Depo A) (reader : Reader A) (ticket : ℕ)
      (ws : List ℕ)
      → SystemHolds capacity n s
      → ReaderAt s k d head reader
      → is_empty reader.drain ≡ true
      → is_empty d.ready ≡ false
      → Holds d.waiting (ticket ∷ ws)
      → mem ticket g.blocked ≡ true
      → Returns (fetch head d) (λ r.
        let t = with_depo s k r.1 in
        (r.0 ≡ some ticket)
        × Holds r.1.waiting ws
        × Signalled s g t (owing ticket g)
        × Signalled t (owing ticket g) t (wake_ticket ticket g)
        × ((timed_out : Bool) → end_wait ticket timed_out (wake_ticket ticket g) ≡ some true)
        × Signalled t (wake_ticket ticket g) t (resumed_signals ticket (wake_ticket ticket g)))
  unfolding end_wait
  first_served s g k head d reader ticket ws w (gd, gr) drained ready v b =
      let (y, gy, hy) = Each-get _ s.depos w.in_depos k d w.stocked gd in
      let (xs, gx, hx) = Each-get _ d.readers y.1 head reader hy.reading gr in
      let none_left = Vacant-empty capacity reader.drain xs hx drained in
      let (r, e, h) =
        first_taken k head d reader y.0 y.1 ticket ws hy v gr
          (subst (Buffered capacity reader.drain) none_left hx) ready in
      let t = with_depo s k r.1 in
      let fetched : Signalled s g t (after_fetch r.0 g) =
        acts t (get_more k head d reader r (gd, gr) drained e) tt in
      let first : mem ticket (owing ticket g).owed ≡ true = ground arith in
      let settled : remove_one ticket (ticket ∷ g.owed) ≡ g.owed = ground arith in
      let paid : Signalled t (owing ticket g) t (wake_ticket ticket g) =
        subst (λ o. Signalled t (owing ticket g) t (wake_ticket ticket (record g { owed = o })))
          settled (wakes ticket first) in
      let ready_now : (wake_ticket ticket g).ready ticket ≡ true = ground arith in
      (
        r,
        e,
        (
          h.0,
          h.1,
          subst (λ o. Signalled s g t (after_fetch o g)) h.0 fetched,
          paid,
          λ timed_out. rw ready_now refl,
          resumes ticket false b (rw ready_now refl),
        ),
      )
