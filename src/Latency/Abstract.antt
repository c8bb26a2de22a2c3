-- ===== src/Latency/Abstract.antt =====
-- What include/async/LatencyQueue.h promises of its values: buffers of bounded size that go, whole and
-- in their order, from the caches through the ready ones of a depo to a reader.
use dynalog.Base.{
  ℕ, ◌+◌, ◌<◌, ◌≡◌, Bool, true, List, [], ◌∷◌, ◌++◌, some, arith, get_elem?, set, length, total,
  total-set, total-append,
}
use dynalog.Ring.Fifo.{count}

pub count-append {ℓ} :
    {A : Type ℓ} (p : A → Bool) (xs ys : List A) → count p (xs ++ ys) ≡ count p xs + count p ys
count-append p [] ys = omega arith
count-append p (x ∷ xs) ys = ground (arith, count-append p xs ys)

-- The values of a depo: those of its ready buffers, and those of its readers.
abbrev pub Stock {ℓ} : Type ℓ → Type ℓ
Stock A = List (List A) × List (List A)

-- The values of a queue, and those that were accepted and passed on, the last ones first.
pub record Contents {ℓ} (A : Type ℓ) : Type ℓ where
  pub caches : List (List A)
  pub depos : List (Stock A)
  pub taken : List A
  pub delivered : List A

module _ {ℓ} {A : Type ℓ} where
  -- A move of values, where `capacity` bounds a buffer, `n` the ready ones, and `allowed` says which
  -- values may come to which cache.
  pub data Move (allowed : ℕ → A → Bool) (capacity n : ℕ) (a : Contents A)
      : Contents A → Type ℓ where
    accept :
        (i : ℕ) (xs : List A) (value : A)
        → get_elem? a.caches i ≡ some xs
        → length xs < capacity
        → allowed i value ≡ true
        → Move allowed capacity n a
            (record a { caches = set a.caches i (xs ++ value ∷ []); taken = value ∷ a.taken })
    hand_on :
        (i k : ℕ) (xs : List A) (y : Stock A)
        → get_elem? a.caches i ≡ some xs
        → get_elem? a.depos k ≡ some y
        → length y.0 < n
        → Move allowed capacity n a
            (record a { caches = set a.caches i []; depos = set a.depos k (y.0 ++ xs ∷ [], y.1) })
    take_up :
        (k head : ℕ) (xs : List A) (rs ds : List (List A))
        → get_elem? a.depos k ≡ some (xs ∷ rs, ds)
        → get_elem? ds head ≡ some []
        → Move allowed capacity n a (record a { depos = set a.depos k (rs, set ds head xs) })
    hand_out :
        (k head : ℕ) (x : A) (xs : List A) (rs ds : List (List A))
        → get_elem? a.depos k ≡ some (rs, ds)
        → get_elem? ds head ≡ some (x ∷ xs)
        → Move allowed capacity n a
            (record a { depos = set a.depos k (rs, set ds head xs); delivered = x ∷ a.delivered })

  abbrev pub stock : (A → Bool) → Stock A → ℕ
  stock p y = total (count p) y.0 + total (count p) y.1

  -- All values of a queue.
  abbrev pub worth : (A → Bool) → List (List A) → List (Stock A) → ℕ
  worth p cs ds = total (count p) cs + total (stock p) ds

  -- Each value that was accepted was delivered or stands in one place.
  abbrev pub Conserved : Contents A → Type ℓ
  Conserved a = (p : A → Bool) → count p a.taken ≡ count p a.delivered + worth p a.caches a.depos

  pub Move-Conserved :
      (allowed : ℕ → A → Bool) (capacity n : ℕ) (a b : Contents A)
      → Conserved a
      → Move allowed capacity n a b
      → Conserved b
  Move-Conserved allowed capacity n a b h (accept i xs value g l u) p =
      let c = h p in
      let s = total-set (count p) a.caches i xs (xs ++ value ∷ []) g in
      let q = count-append p xs (value ∷ []) in ground (arith, c, s, q)
  Move-Conserved allowed capacity n a b h (hand_on i k xs y g f l) p = omega (
    arith,
    h p,
    total-set (count p) a.caches i xs [] g,
    total-set (stock p) a.depos k y (y.0 ++ xs ∷ [], y.1) f,
    total-append (count p) y.0 (xs ∷ []),
  )
  Move-Conserved allowed capacity n a b h (take_up k head xs rs ds g f) p = omega (
    arith,
    h p,
    total-set (stock p) a.depos k (xs ∷ rs, ds) (rs, set ds head xs) g,
    total-set (count p) ds head [] xs f,
  )
  Move-Conserved allowed capacity n a b h (hand_out k head x xs rs ds g f) p =
      let c = h p in
      let s = total-set (stock p) a.depos k (rs, ds) (rs, set ds head xs) g in
      let t = total-set (count p) ds head (x ∷ xs) xs f in ground (arith, c, s, t)
