-- ===== src/Latency/Visits.antt =====
-- `collect` of include/async/LatencyQueue.h as a whole.
use dynalog.Base.{
  ℕ, zero, suc, ◌+◌, ◌<◌, ◌≡◌, refl, sym, ◌∙◌, subst, Bool, if◌then◌else◌, total-append, length-set,
  List, [], ◌∷◌, ◌++◌, some, arith, get_elem?, set, length, ltb, All, Each, Each-get, Each-set,
  length-Each, total, total-set, Returns, Returns-bind, Bool-cases, inl, inr,
}
use dynalog.Ring.Fifo.{count}
use dynalog.Ring.Holds.{Holds}
use dynalog.Latency.Parts.{QueueCache, Depo, LatencyQueue}
use dynalog.Latency.Reader.{collect_one, collect_indices, collect_loop, collect}
use dynalog.Latency.Collect.{moves, collect_one_lem}
use dynalog.Latency.Indices.{get_elem?-in}
use dynalog.Latency.Abstract.{Stock, stock, worth}
use dynalog.Latency.Books.{CacheHolds, StockHolds}

in_range : (fuel qty stride index : ℕ) → All (λ i. i < qty) (collect_indices fuel qty stride index)
unfolding collect_indices
in_range zero qty stride index = tt
in_range (suc fuel) qty stride index = elim (Bool-cases (ltb index qty)) [
  | inl e ↦ rw e (ground (arith, e), in_range fuel qty stride (index + stride))
  | inr e ↦ rw e tt
]

module _ {ℓ} {A : Type ℓ} where
  -- Caches and a depo that hold the same values as before, in other places.
  abbrev Rearranged : ℕ → ℕ → List (List A) → Stock A → List (QueueCache A) × Depo A → Type ℓ
  Rearranged capacity n cs y r =
      (xs : List (List A)) × (z : Stock A) × Each (CacheHolds capacity) r.0 xs
      × StockHolds capacity n r.1 z
      × ((p : A → Bool) → total (count p) xs + stock p z ≡ total (count p) cs + stock p y)
      × (length xs ≡ length cs)

  visit_stock :
      (p : A → Bool) (n : ℕ) (xs : List A) (y : Stock A)
      → count p xs + stock p y
        ≡ count p (if moves n xs y.0 then [] else xs)
          + stock p (if moves n xs y.0 then y.0 ++ xs ∷ [] else y.0, y.1)
  visit_stock p n xs y = elim (Bool-cases (moves n xs y.0)) [
    | inl e ↦ rw e (omega (arith, total-append (count p) y.0 (xs ∷ [])))
    | inr e ↦ rw e refl
  ]

  one_visit :
      (capacity n i : ℕ) (caches : List (QueueCache A)) (cs : List (List A)) (c : QueueCache A)
      (d : Depo A) (y : Stock A)
      → Each (CacheHolds capacity) caches cs
      → StockHolds capacity n d y
      → get_elem? caches i ≡ some c
      → Returns (collect_one c d) (λ r. Rearranged capacity n cs y (set caches i r.0, r.1))
  one_visit capacity n i caches cs c d y v w g =
      let (xs, gx, h) = Each-get _ caches cs i c v g in
      let (r, e, q) = collect_one_lem capacity n c d xs y.0 y.1 h.0 w in
      (
        r,
        e,
        (
          _,
          (_, y.1),
          Each-set _ caches cs i r.0 _ v (q.0, h.1, subst (λ b. Holds b h.1) (sym q.2) h.2),
          q.1,
          λ p. omega (arith, visit_stock p n xs y, total-set (count p) cs i xs _ gx),
          length-set cs i _,
        ),
      )

  collect_loop_lem :
      (capacity n : ℕ) (is : List ℕ) (caches : List (QueueCache A)) (cs : List (List A))
      (d : Depo A) (y : Stock A)
      → Each (CacheHolds capacity) caches cs
      → StockHolds capacity n d y
      → All (λ i. i < length cs) is
      → Returns (collect_loop is caches d) (Rearranged capacity n cs y)
  unfolding collect_loop
  collect_loop_lem capacity n [] caches cs d y v w h =
      ((caches, d), refl, (cs, y, v, w, λ p. refl, refl))
  collect_loop_lem capacity n (i ∷ is) caches cs d y v w h =
      let (c, g) = get_elem?-in caches i (omega (arith, length-Each _ caches cs v, h.0)) in
      rw g (
        Returns-bind (collect_one c d) _ (λ r. Rearranged capacity n cs y (set caches i r.0, r.1))
          (Rearranged capacity n cs y) (one_visit capacity n i caches cs c d y v w g)
          (λ r (xs, z, v', w', same, l).
            let (r', e, (xs', z', v'', w'', same', l')) =
              collect_loop_lem capacity n is (set caches i r.0) xs r.1 z v' w'
                (subst (λ k. All (λ i. i < k) is) (sym l) h.1) in
            (r', e, (xs', z', v'', w'', λ p. same' p ∙ same p, l' ∙ l))))

  -- `collect` of a depo that is there comes to an end without a fault, and only moves values: those of
  -- all caches and all depos stay the same, each as many times as before.
  pub collect_lem :
      (capacity n slot : ℕ) (q : LatencyQueue A) (cs : List (List A)) (ds : List (Stock A))
      → Each (CacheHolds capacity) q.caches cs
      → Each (StockHolds capacity n) q.depos ds
      → slot < length q.depos
      → Returns (collect slot q) (λ r.
        (xs : List (List A)) × (zs : List (Stock A)) × Each (CacheHolds capacity) r.caches xs
        × Each (StockHolds capacity n) r.depos zs
        × ((p : A → Bool) → worth p xs zs ≡ worth p cs ds))
  unfolding collect
  collect_lem capacity n slot q cs ds v w h =
      let (d, g) = get_elem?-in q.depos slot h in
      let (y, gy, hy) = Each-get _ q.depos ds slot d w g in
      let l = length-Each _ q.caches cs v in
      let is = collect_indices (length q.caches) (length q.caches) (length q.depos) slot in
      let inside : All (λ i. i < length cs) is =
        subst (λ k. All (λ i. i < k) is) l
          (in_range (length q.caches) (length q.caches) (length q.depos) slot) in
      let (r, e, (xs, z, v', w', same, l')) =
        collect_loop_lem capacity n is q.caches cs d y v hy inside in
      rw (g, e)
        (
          _,
          refl,
          (
            xs,
            set ds slot z,
            v',
            Each-set _ q.depos ds slot r.1 z w w',
            λ p. omega (arith, same p, total-set (stock p) ds slot y z gy),
          ),
        )
