-- ===== src/Latency/Books.antt =====
-- How the caches, depos and readers of include/async/LatencyQueue.h stand for the contents of the queue.
use dynalog.Base.{ℕ, ◌+◌, ◌≡◌, Bool, List, Each}
use dynalog.Ring.Holds.{Holds}
use dynalog.Ring.Fifo.{count}
use dynalog.Latency.Parts.{QueueCache, Depo}
use dynalog.Latency.Holds.{Buffered, DepoHolds}
use dynalog.Latency.System.{System}
use dynalog.Latency.Abstract.{Stock, Contents, worth}

module _ {ℓ} {A : Type ℓ} where
  abbrev pub CacheHolds : ℕ → QueueCache A → List A → Type ℓ
  CacheHolds capacity c xs = Buffered capacity c.cache xs × (ts : List ℕ) × Holds c.tickets ts

  abbrev pub StockHolds : ℕ → ℕ → Depo A → Stock A → Type ℓ
  StockHolds capacity n d y = DepoHolds capacity n d y.0 y.1

  -- The caches and depos of a state hold these values.
  pub record Represents (capacity n : ℕ) (s : System A) (cs : List (List A)) (ds : List (Stock A))
      : Type ℓ where
    pub cached : Each (CacheHolds capacity) s.caches cs
    pub stocked : Each (StockHolds capacity n) s.depos ds

  abbrev pub contents : System A → List (List A) → List (Stock A) → Contents A
  contents s cs ds = record { caches = cs; depos = ds; taken = s.taken; delivered = s.delivered }

  -- The invariant: each buffer is where it belongs, and each value that was accepted was delivered or
  -- stands in one place.
  pub record SystemHolds (capacity n : ℕ) (s : System A) : Type ℓ where
    pub in_caches : List (List A)
    pub in_depos : List (Stock A)
    pub cached : Each (CacheHolds capacity) s.caches in_caches
    pub stocked : Each (StockHolds capacity n) s.depos in_depos
    pub conserved :
        (p : A → Bool) → count p s.taken ≡ count p s.delivered + worth p in_caches in_depos
