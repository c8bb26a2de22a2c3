-- ===== src/Latency/Moves.antt =====
-- How a round of `insert`, a fetch, a visit and the delivery of a value in include/async/LatencyQueue.h
-- move the values of the abstract queue.
use dynalog.Base.{
  ℕ, ◌<◌, ◌≡◌, refl, sym, ◌∙◌, ap, subst, Bool, true, false, List, [], ◌∷◌, ◌++◌, Option, some,
  arith, get_elem?, set, length, if◌then◌else◌, Each-get, Each-set, Returns-at, Bool-cases, inl,
  inr,
}
use dynalog.Ring.{is_empty}
use dynalog.Ring.Holds.{Holds}
use dynalog.Ring.State.{is_empty-Holds}
use dynalog.Latency.Parts.{QueueCache, Reader, Depo}
use dynalog.Latency.Writer.{Attempt, accepted, handed_over, must_wait}
use dynalog.Latency.Reader.{with_readers, deliver, fetch, collect_one}
use dynalog.Latency.Holds.{Buffered, Drains}
use dynalog.Latency.Insert.{Came, ready_bound}
use dynalog.Latency.Collect.{deliver_lem, Fetched, fetch_lem, moves, collect_one_lem}
use dynalog.Latency.System.{System, is_accepted, with_cache, with_depo, At, ReaderAt}
use dynalog.Latency.Abstract.{Stock, Move, accept, hand_on, take_up, hand_out}
use dynalog.Latency.Books.{CacheHolds, StockHolds, Represents, contents}
use dynalog.Latency.Follows.{Follows, Vacant-empty, readers_changed, kept_stock, kept_cache}

module _ {ℓ} {A : Type ℓ} (allowed : ℕ → A → Bool) (capacity n : ℕ) where
  module _ (s : System A) (cs : List (List A)) (ds : List (Stock A))
      (w : Represents capacity n s cs ds) where
    pub passing_on :
        (k head : ℕ) (d : Depo A) (reader : Reader A) (xs : List A) (r : A × Reader A) (y : Stock A)
        → get_elem? ds k ≡ some y
        → StockHolds capacity n d y
        → get_elem? y.1 head ≡ some xs
        → Drains capacity reader xs
        → is_empty reader.drain ≡ false
        → deliver reader ≡ some r
        → Follows allowed capacity n s cs ds
            (record (with_depo s k (with_readers d head r.1)) { delivered = r.0 ∷ s.delivered })
    passing_on k head d reader [] r y gy hy gx hx f e =
        absurd (let q = is_empty-Holds reader.drain [] hx.0 in grind (arith, f, q))
    passing_on k head d reader (x ∷ xs) r y gy hy gx hx f e =
        let h = Returns-at (deliver reader) _ r (deliver_lem capacity reader x xs hx) e in
        let z : Stock A = (y.0, set y.1 head xs) in
        (
          cs,
          set ds k z,
          record {
            cached = w.cached;
            stocked =
                Each-set _ s.depos ds k (with_readers d head r.1) z w.stocked
                  (readers_changed capacity n head d y r.1 xs hy h.1);
          },
          inr (
              subst
                (λ v.
                  Move allowed capacity n (contents s cs ds)
                    (record (contents s cs (set ds k z)) { delivered = v ∷ s.delivered }))
                (sym h.0) (hand_out k head x xs y.0 y.1 gy gx)),
        )

    fetched :
        (k head : ℕ) (d : Depo A) (y : Stock A) (ws : List ℕ) (r : Option ℕ × Depo A)
        → get_elem? ds k ≡ some y
        → StockHolds capacity n d y
        → get_elem? y.1 head ≡ some []
        → Fetched capacity n head d y.0 y.1 ws r
        → Follows allowed capacity n s cs ds (with_depo s k r.1)
    fetched k head d ([], es) ws r gy hy g h = (
      cs,
      ds,
      record {
        cached = w.cached;
        stocked =
            kept_stock allowed capacity n s cs ds w k r.1 ([], es) gy
              (subst (λ x. StockHolds capacity n x ([], es)) (sym (ap (λ x. x.1) h)) hy);
      },
      inl refl,
    )
    fetched k head d (xs ∷ rs, es) ws r gy hy g h = (
      cs,
      set ds k (rs, set es head xs),
      record { cached = w.cached; stocked = Each-set _ s.depos ds k r.1 _ w.stocked h.1 },
      inr (take_up k head xs rs es gy g),
    )

    pub fetching :
        (k head : ℕ) (d : Depo A) (reader : Reader A) (r : Option ℕ × Depo A)
        → ReaderAt s k d head reader
        → is_empty reader.drain ≡ true
        → fetch head d ≡ some r
        → Follows allowed capacity n s cs ds (with_depo s k r.1)
    fetching k head d reader r (g, f) e q =
        let (y, gy, hy) = Each-get _ s.depos ds k d w.stocked g in
        let (xs, gx, hx) = Each-get _ d.readers y.1 head reader hy.reading f in
        let none_left = Vacant-empty capacity reader.drain xs hx e in
        fetched k head d y hy.waiters r gy hy (gx ∙ ap some none_left) (
          Returns-at (fetch head d) _ r
            (fetch_lem capacity n head reader d y.0 y.1 hy.waiters hy hy.waiting_ring f
              (subst (Buffered capacity reader.drain) none_left hx))
            q)

    -- A round of `insert`.
    pub rounded :
        (i k ticket : ℕ) (value : A) (c : QueueCache A) (d : Depo A) (xs : List A) (y : Stock A)
        (ws : List ℕ) (a : Attempt) (c' : QueueCache A) (d' : Depo A)
        → get_elem? cs i ≡ some xs
        → get_elem? ds k ≡ some y
        → CacheHolds capacity c xs
        → StockHolds capacity n d y
        → allowed i value ≡ true
        → Came capacity n value ticket c d xs y.0 y.1 ws a c' d'
        → c'.tickets ≡ c.tickets
        → Follows allowed capacity n s cs ds (record (with_depo (with_cache s i c') k d') {
          taken = if is_accepted a then value ∷ s.taken else s.taken;
        })
    rounded i k ticket value c d xs y ws accepted c' d' gx gy (v, ts, t) hy u h e = (
      set cs i (xs ++ value ∷ []),
      ds,
      record {
        cached =
            Each-set _ s.caches cs i c' _ w.cached (h.1, ts, subst (λ b. Holds b ts) (sym e) t);
        stocked =
            kept_stock allowed capacity n s cs ds w k d' y gy
              (subst (λ x. StockHolds capacity n x y) (sym h.2) hy);
      },
      inr (accept i xs value gx h.0 u),
    )
    rounded i k ticket value c d xs y ws handed_over c' d' gx gy (v, ts, t) hy u h e = (
      set cs i [],
      set ds k (y.0 ++ xs ∷ [], y.1),
      record {
        cached =
            Each-set _ s.caches cs i c' _ w.cached (h.2, ts, subst (λ b. Holds b ts) (sym e) t);
        stocked = Each-set _ s.depos ds k d' _ w.stocked h.3;
      },
      inr (hand_on i k xs y gx gy h.1),
    )
    rounded i k ticket value c d xs y ws must_wait c' d' gx gy (v, ts, t) hy u h e = (
      cs,
      ds,
      record {
        cached =
            kept_cache allowed capacity n s cs ds w i c' xs gx
              (h.2, ts, subst (λ b. Holds b ts) (sym e) t);
        stocked = kept_stock allowed capacity n s cs ds w k d' y gy h.3;
      },
      inl refl,
    )

    -- A visit by `collect`.
    pub visited :
        (i k : ℕ) (c : QueueCache A) (d : Depo A) (r : QueueCache A × Depo A)
        → At s i c k d
        → collect_one c d ≡ some r
        → Follows allowed capacity n s cs ds (with_depo (with_cache s i r.0) k r.1)
    visited i k c d r (gc, gd) e =
        let (xs, gx, hx) = Each-get _ s.caches cs i c w.cached gc in
        let (y, gy, hy) = Each-get _ s.depos ds k d w.stocked gd in
        let h =
          Returns-at (collect_one c d) _ r (collect_one_lem capacity n c d xs y.0 y.1 hx.0 hy) e in
        let t = subst (λ b. Holds b hx.1) (sym h.2) hx.2 in
        elim (Bool-cases (moves n xs y.0)) [
          | inl m ↦
              let fewer : length y.0 < n =
                let b = ready_bound capacity n d y.0 y.1 hy in ground (arith, m, b) in
              (
                set cs i [],
                set ds k (y.0 ++ xs ∷ [], y.1),
                record {
                  cached = Each-set _ s.caches cs i r.0 _ w.cached (
                    subst (λ b. Buffered capacity r.0.cache (if b then [] else xs)) m h.0,
                    hx.1,
                    t,
                  );
                  stocked = Each-set _ s.depos ds k r.1 _ w.stocked (
                      subst
                        (λ b. StockHolds capacity n r.1 (if b then y.0 ++ xs ∷ [] else y.0, y.1)) m
                        h.1);
                },
                inr (hand_on i k xs y gx gy fewer),
              )
          | inr m ↦ (
            cs,
            ds,
            record {
              cached =
                  kept_cache allowed capacity n s cs ds w i r.0 xs gx (
                    subst (λ b. Buffered capacity r.0.cache (if b then [] else xs)) m h.0,
                    hx.1,
                    t,
                  );
              stocked = kept_stock allowed capacity n s cs ds w k r.1 y gy (
                  subst (λ b. StockHolds capacity n r.1 (if b then y.0 ++ xs ∷ [] else y.0, y.1)) m
                    h.1);
            },
            inl refl,
          )
        ]
