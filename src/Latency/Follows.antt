-- ===== src/Latency/Follows.antt =====
-- Steps of the threads of include/async/LatencyQueue.h against the abstract queue of their values.
use dynalog.Base.{
  ℕ, ◌≡◌, refl, sym, ap, subst, true, Bool, List, [], ◌∷◌, some, arith, get_elem?, set, set_same,
  Each, Each-get, Each-set, ◌⊎◌, inl,
}
use dynalog.Ring.{Slots, is_empty}
use dynalog.Ring.Holds.{Holds}
use dynalog.Ring.State.{is_empty-Holds}
use dynalog.Latency.Parts.{QueueCache, Reader, Depo}
use dynalog.Latency.Reader.{with_readers}
use dynalog.Latency.Holds.{Buffered, Drains}
use dynalog.Latency.Tickets.{altered}
use dynalog.Latency.System.{System, with_cache, with_depo, ReaderAt, Step, round}
use dynalog.Latency.Abstract.{Stock, Move}
use dynalog.Latency.Books.{CacheHolds, StockHolds, Represents, contents}

module _ {ℓ} {A : Type ℓ} where
  -- The value that a step inserts is allowed in its cache.
  abbrev pub Allowed : (ℕ → A → Bool) → (s t : System A) → Step s t → Type 0
  Allowed allowed s t (round i k ticket value c d r g b e) = allowed i value ≡ true
  Allowed allowed s t step = Unit

  pub Vacant-empty :
      (capacity : ℕ) (s : Slots A) (xs : List A)
      → Buffered capacity s xs
      → is_empty s ≡ true
      → xs ≡ []
  Vacant-empty capacity s [] v e = refl
  Vacant-empty capacity s (x ∷ xs) v e =
      absurd (let q = is_empty-Holds s (x ∷ xs) v.0 in grind (arith, e, q))

  -- A depo with another reader.
  pub readers_changed :
      (capacity n head : ℕ) (d : Depo A) (y : Stock A) (reader : Reader A) (xs : List A)
      → StockHolds capacity n d y
      → Drains capacity reader xs
      → StockHolds capacity n (with_readers d head reader) (y.0, set y.1 head xs)
  readers_changed capacity n head d y reader xs w v =
      altered capacity n d y.0 y.1 (set y.1 head xs) d.waiting w.waiters (set d.readers head reader)
        d.sleeping w w.waiting_ring w.waiting_room
        (Each-set (Drains capacity) d.readers y.1 head reader xs w.reading v)

module _ {ℓ} {A : Type ℓ} (allowed : ℕ → A → Bool) (capacity n : ℕ) where
  -- The contents of the new state, and how they come from those of the old one.
  abbrev pub Follows : System A → List (List A) → List (Stock A) → System A → Type ℓ
  Follows s cs ds t =
      (cs' : List (List A)) × (ds' : List (Stock A)) × Represents capacity n t cs' ds'
      × ((contents t cs' ds' ≡ contents s cs ds)
          ⊎ Move allowed capacity n (contents s cs ds) (contents t cs' ds'))

  module _ (s : System A) (cs : List (List A)) (ds : List (Stock A))
      (w : Represents capacity n s cs ds) where
    pub same_values :
        (i : ℕ) (c c' : QueueCache A)
        → get_elem? s.caches i ≡ some c
        → ((ts : List ℕ)
            → Holds c.tickets ts
            → (c'.cache ≡ c.cache) × (us : List ℕ) × Holds c'.tickets us)
        → Follows s cs ds (with_cache s i c')
    same_values i c c' g f =
        let (xs, gx, hx) = Each-get _ s.caches cs i c w.cached g in
        let (e, us, h) = f hx.1 hx.2 in
        (
          set cs i xs,
          ds,
          record {
            cached =
                Each-set _ s.caches cs i c' xs w.cached
                  (subst (λ b. Buffered capacity b xs) (sym e) hx.0, us, h);
            stocked = w.stocked;
          },
          inl (ap (λ z. contents s z ds) (set_same cs i xs gx)),
        )

    pub same_stock :
        (k : ℕ) (d d' : Depo A)
        → get_elem? s.depos k ≡ some d
        → ((y : Stock A) → StockHolds capacity n d y → StockHolds capacity n d' y)
        → Follows s cs ds (with_depo s k d')
    same_stock k d d' g f =
        let (y, gy, hy) = Each-get _ s.depos ds k d w.stocked g in
        (
          cs,
          set ds k y,
          record { cached = w.cached; stocked = Each-set _ s.depos ds k d' y w.stocked (f y hy) },
          inl (ap (λ z. contents s cs z) (set_same ds k y gy)),
        )

    -- A step of a reader that changes neither its drain nor anything else of the depo.
    pub same_drain :
        (k head : ℕ) (d : Depo A) (reader reader' : Reader A)
        → ReaderAt s k d head reader
        → reader'.drain ≡ reader.drain
        → Follows s cs ds (with_depo s k (with_readers d head reader'))
    same_drain k head d reader reader' (g, f) e =
        same_stock k d (with_readers d head reader') g (λ y h.
          let (xs, gx, hx) = Each-get _ d.readers y.1 head reader h.reading f in
          subst (λ z. StockHolds capacity n (with_readers d head reader') (y.0, z))
            (set_same y.1 head xs gx)
            (readers_changed capacity n head d y reader' xs h
              (subst (λ b. Buffered capacity b xs) (sym e) hx)))

    pub kept_stock :
        (k : ℕ) (d' : Depo A) (y : Stock A)
        → get_elem? ds k ≡ some y
        → StockHolds capacity n d' y
        → Each (StockHolds capacity n) (set s.depos k d') ds
    kept_stock k d' y gy h =
        subst (Each (StockHolds capacity n) (set s.depos k d')) (set_same ds k y gy)
          (Each-set _ s.depos ds k d' y w.stocked h)

    pub kept_cache :
        (i : ℕ) (c' : QueueCache A) (xs : List A)
        → get_elem? cs i ≡ some xs
        → CacheHolds capacity c' xs
        → Each (CacheHolds capacity) (set s.caches i c') cs
    kept_cache i c' xs gx h =
        subst (Each (CacheHolds capacity) (set s.caches i c')) (set_same cs i xs gx)
          (Each-set _ s.caches cs i c' xs w.cached h)
