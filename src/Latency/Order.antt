-- ===== src/Latency/Order.antt =====
-- The order in which a queue of include/async/LatencyQueue.h with one depo and one reader passes its
-- values on, as a dispatcher of include/async/Emitter.h makes it.
use dynalog.Base.{
  ap2, concat, concat-append, keep-append, only_one, at_set, ℕ, ◌≡◌, refl, sym, ◌∙◌, ap, subst,
  true, false, List, [], ◌∷◌, ◌++◌, some, append-nil, append_assoc, arith, get_elem?, All-last, set,
  keep, ◌==◌, All, inl, inr,
}
use dynalog.Latency.Abstract.{Stock, Contents, Move, accept, hand_on, take_up, hand_out}

module _ {ℓ} {A : Type ℓ} where
  -- The first one last: the values that a state records, in the order in which they came.
  abbrev pub oldest_first : List A → List A
  oldest_first [] = []
  oldest_first (x ∷ xs) = oldest_first xs ++ x ∷ []

module _ {ℓ} {A : Type ℓ} (from : A → ℕ) where
  -- The values of a cache.
  abbrev pub mine : ℕ → List A → List A
  mine i = keep (λ x. from x == i)

  mine-own : (i : ℕ) (xs : List A) → All (λ x. from x ≡ i) xs → mine i xs ≡ xs
  mine-own i [] h = refl
  mine-own i (x ∷ xs) h =
      let e : (from x == i) ≡ true = ground (arith, h.0) in
      rw e (ap (λ z. x ∷ z) (mine-own i xs h.1))

  mine-other :
      (i j : ℕ) (xs : List A) → All (λ x. from x ≡ i) xs → (i == j) ≡ false → mine j xs ≡ []
  mine-other i j [] h ne = refl
  mine-other i j (x ∷ xs) h ne =
      let e : (from x == j) ≡ false = ground (arith, h.0, ne) in rw e (mine-other i j xs h.1 ne)

  -- The values on their way, the oldest ones first.
  abbrev flow : List A → List A → List (List A) → List A
  flow delivered drain ready = oldest_first delivered ++ (drain ++ concat ready)

  -- One reader, whose values stand between those it passed on and those of the ready buffers, and
  -- caches that each have the last of their own values.
  pub record Ordered (a : Contents A) : Type ℓ where
    pub ready : List (List A)
    pub drain : List A
    pub alone : a.depos ≡ (ready, drain ∷ []) ∷ []
    pub own : (i : ℕ) (xs : List A) → get_elem? a.caches i ≡ some xs → All (λ x. from x ≡ i) xs
    pub order :
        (i : ℕ) (xs : List A)
        → get_elem? a.caches i ≡ some xs
        → mine i (oldest_first a.taken) ≡ mine i (flow a.delivered drain ready) ++ xs

  -- What stands for a value that comes to the end of a list.
  pub mine-last : (j : ℕ) (xs ys : List A) → mine j (xs ++ ys) ≡ mine j xs ++ mine j ys
  mine-last j xs ys = keep-append (λ x. from x == j) xs ys

  module _ (capacity n : ℕ) (a : Contents A) (w : Ordered a) where
    accepting :
        (i : ℕ) (xs : List A) (value : A)
        → get_elem? a.caches i ≡ some xs
        → from value ≡ i
        → Ordered (record a { caches = set a.caches i (xs ++ value ∷ []); taken = value ∷ a.taken })
    accepting i xs value g u = record {
      ready = w.ready;
      drain = w.drain;
      alone = w.alone;
      own = λ j ys e. elim (at_set a.caches i j xs (xs ++ value ∷ []) ys g e) [
        | inl f ↦
            subst (λ z. All (λ x. from x ≡ j) z) (sym f.1)
              (All-last _ xs value (subst (λ k. All (λ x. from x ≡ k) xs) (sym f.0) (w.own i xs g))
                (u ∙ sym f.0))
        | inr f ↦ w.own j ys f.1
      ];
      order = λ j ys e.
          mine-last j (oldest_first a.taken) (value ∷ [])
          ∙ elim (at_set a.caches i j xs (xs ++ value ∷ []) ys g e) [
            | inl f ↦
                let same : get_elem? a.caches j ≡ some xs = ap (get_elem? a.caches) f.0 ∙ g in
                ap2 ◌++◌ (w.order j xs same) (mine-own j (value ∷ []) (u ∙ sym f.0, tt))
                ∙ append_assoc (mine j (flow a.delivered w.drain w.ready)) xs (value ∷ [])
                ∙ ap (λ z. mine j (flow a.delivered w.drain w.ready) ++ z) (sym f.1)
            | inr f ↦
                ap (λ z. mine j (oldest_first a.taken) ++ z)
                  (mine-other i j (value ∷ []) (u, tt) f.0)
                ∙ append-nil (mine j (oldest_first a.taken))
                ∙ w.order j ys f.1
          ];
    }

    handing_on :
        (i k : ℕ) (xs : List A) (y : Stock A)
        → get_elem? a.caches i ≡ some xs
        → get_elem? a.depos k ≡ some y
        → Ordered
            (record a { caches = set a.caches i []; depos = set a.depos k (y.0 ++ xs ∷ [], y.1) })
    handing_on i k xs y g f =
        let (same, one) = only_one a.depos k y (w.ready, w.drain ∷ []) w.alone f in
        let longer : flow a.delivered w.drain (w.ready ++ xs ∷ [])
            ≡ flow a.delivered w.drain w.ready ++ xs =
          ap (λ z. oldest_first a.delivered ++ (w.drain ++ z)) (concat-append w.ready xs)
          ∙ ap (λ z. oldest_first a.delivered ++ z) (sym (append_assoc w.drain (concat w.ready) xs))
          ∙ sym (append_assoc (oldest_first a.delivered) (w.drain ++ concat w.ready) xs) in
        record {
          ready = w.ready ++ xs ∷ [];
          drain = w.drain;
          alone = one (y.0 ++ xs ∷ [], y.1) ∙ ap (λ (v : Stock A). (v.0 ++ xs ∷ [], v.1) ∷ []) same;
          own = λ j ys e. elim (at_set a.caches i j xs [] ys g e) [
            | inl h ↦ subst (λ z. All (λ x. from x ≡ j) z) (sym h.1) tt
            | inr h ↦ w.own j ys h.1
          ];
          order = λ j ys e.
              let split : mine j (flow a.delivered w.drain (w.ready ++ xs ∷ []))
                  ≡ mine j (flow a.delivered w.drain w.ready) ++ mine j xs =
                ap (mine j) longer ∙ mine-last j (flow a.delivered w.drain w.ready) xs in
              elim (at_set a.caches i j xs [] ys g e) [
                | inl h ↦
                    let here : get_elem? a.caches j ≡ some xs = ap (get_elem? a.caches) h.0 ∙ g in
                    w.order j xs here
                    ∙ ap (λ z. mine j (flow a.delivered w.drain w.ready) ++ z)
                        (sym (mine-own j xs (w.own j xs here)))
                    ∙ sym split
                    ∙ sym (append-nil (mine j (flow a.delivered w.drain (w.ready ++ xs ∷ []))))
                    ∙ ap (λ z. mine j (flow a.delivered w.drain (w.ready ++ xs ∷ [])) ++ z)
                        (sym h.1)
                | inr h ↦
                    w.order j ys h.1
                    ∙ ap (λ z. z ++ ys)
                        (sym (
                          split
                          ∙ ap (λ z. mine j (flow a.delivered w.drain w.ready) ++ z)
                              (mine-other i j xs (w.own i xs g) h.0)
                          ∙ append-nil (mine j (flow a.delivered w.drain w.ready))))
              ];
        }

    -- A move of the reader keeps the values on their way.
    reading :
        (depos : List (Stock A)) (delivered drain : List A) (ready : List (List A))
        → depos ≡ (ready, drain ∷ []) ∷ []
        → flow delivered drain ready ≡ flow a.delivered w.drain w.ready
        → Ordered (record a { depos = depos; delivered = delivered })
    reading depos delivered drain ready e f = record {
      ready = ready;
      drain = drain;
      alone = e;
      own = w.own;
      order = λ j ys g. w.order j ys g ∙ ap (λ z. mine j z ++ ys) (sym f);
    }

  pub Move-Ordered :
      (capacity n : ℕ) (a b : Contents A)
      → Ordered a
      → Move (λ i value. from value == i) capacity n a b
      → Ordered b
  Move-Ordered capacity n a b w (accept i xs value g l u) =
      accepting capacity n a w i xs value g (ground (arith, u))
  Move-Ordered capacity n a b w (hand_on i k xs y g f l) = handing_on capacity n a w i k xs y g f
  Move-Ordered capacity n a b w (take_up k head xs rs ds g f) =
      let (same, one) = only_one a.depos k (xs ∷ rs, ds) (w.ready, w.drain ∷ []) w.alone g in
      let (empty, reader) = only_one ds head [] w.drain (ap (λ z. z.1) same) f in
      reading capacity n a w _ a.delivered xs rs
        (one (rs, set ds head xs) ∙ ap (λ z. (rs, z) ∷ []) (reader xs))
        (ap2 (flow a.delivered) empty (ap (λ z. z.0) same))
  Move-Ordered capacity n a b w (hand_out k head x xs rs ds g f) =
      let (same, one) = only_one a.depos k (rs, ds) (w.ready, w.drain ∷ []) w.alone g in
      let (first_one, reader) = only_one ds head (x ∷ xs) w.drain (ap (λ z. z.1) same) f in
      reading capacity n a w _ (x ∷ a.delivered) xs rs
        (one (rs, set ds head xs) ∙ ap (λ z. (rs, z) ∷ []) (reader xs))
        (append_assoc (oldest_first a.delivered) (x ∷ []) (xs ++ concat rs)
          ∙ ap2 (flow a.delivered) first_one (ap (λ z. z.0) same))
