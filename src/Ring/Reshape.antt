-- ===== src/Ring/Reshape.antt =====
-- `is_empty`, `is_full` and `reshape` of include/async/RingBuffer.h.
use dynalog.Base.{
  ℕ, zero, suc, ◌+◌, ◌^◌, ◌<◌, ◌≡◌, refl, sym, ◌∙◌, ap, true, false, List, [], ◌∷◌, ◌++◌,
  append-nil, append_assoc, arith, length, length-append, take, drop, Returns, Returns-bind, subst,
}
use dynalog.Ring.{
  Slots, is_empty, is_full, emplace, drop_begin, release, move_assign, create, refill_loop, reshape,
}
use dynalog.Ring.Holds.{
  Holds, emplace-Holds, drop_begin-Holds, pop-eq, capacity-emplace, create-Holds,
}
use dynalog.Ring.Fifo.{release-Holds, move_assign-Holds, recount}

module _ {ℓ} {A : Type ℓ} where
  is_empty-cons : (s : Slots A) (x : A) (xs : List A) → Holds s (x ∷ xs) → is_empty s ≡ false
  unfolding is_empty
  is_empty-cons s x xs v = ground (arith, v.counted)

  is_full_of_eq : (s : Slots A) → s.size ≡ s.capacity → is_full s ≡ true
  unfolding is_full
  is_full_of_eq s h = ground arith

  is_full_of_lt : (s : Slots A) → s.size < s.capacity → is_full s ≡ false
  unfolding is_full
  is_full_of_lt s h = ground arith

  take-nil : (n : ℕ) → take {A = A} n [] ≡ []
  take-nil zero = refl
  take-nil (suc n) = refl

  drop-nil : (n : ℕ) → drop {A = A} n [] ≡ []
  drop-nil zero = refl
  drop-nil (suc n) = refl

  -- What the loop of `reshape` is to reach: `n` of the values `xs` behind the values `ys`.
  abbrev Refilled : ℕ → ℕ → List A → List A → Slots A × Slots A → Type ℓ
  Refilled c n xs ys r = Holds r.0 (drop n xs) × Holds r.1 (ys ++ take n xs) × (r.1.capacity ≡ c)

  refill_loop-Holds :
      (n : ℕ) (xs ys : List A) (s other : Slots A)
      → Holds s xs
      → Holds other ys
      → length ys + n ≡ other.capacity
      → Returns (refill_loop (length xs) s other) (Refilled other.capacity n xs ys)
  unfolding refill_loop
  refill_loop-Holds n [] ys s other v w e = (
    _,
    refl,
    (
      recount s (sym (drop-nil n)) v,
      recount other (sym (ap (λ t. ys ++ t) (take-nil n) ∙ append-nil ys)) w,
      refl,
    ),
  )
  refill_loop-Holds zero (x ∷ xs) ys s other v w e = (
    (s, other),
    ground (arith, is_empty-cons s x xs v, is_full_of_eq other),
    (v, recount other (sym (append-nil ys)) w, refl),
  )
  refill_loop-Holds (suc n) (x ∷ xs) ys s other v w e =
      rw (is_empty-cons s x xs v, is_full_of_lt other free, pop-eq s x xs v, refill_loop)
        (let (r, q, h) =
            refill_loop-Holds n xs (ys ++ x ∷ []) (drop_begin s) (emplace other x)
              (drop_begin-Holds s x xs v) (emplace-Holds other ys x w free)
              (omega (arith, length-append ys (x ∷ []), capacity-emplace other x)) in
          (
            r,
            q,
            (
              h.0,
              recount r.1 (append_assoc ys (x ∷ []) (take n xs)) h.1,
              h.2 ∙ capacity-emplace other x,
            ),
          ))
    where
      free : other.size < other.capacity
      free = omega (arith, w.counted)

  -- `reshape` keeps the oldest values that fit into the new capacity, in their order, and destroys
  -- each of the others once.
  pub reshape-Holds :
      (capacity : ℕ) (s : Slots A) (xs : List A)
      → Holds s xs
      → capacity < 2 ^ 64
      → Returns
          (reshape capacity s)
          (λ r. (r.0 ≡ drop capacity xs) × Holds r.1 (take capacity xs) × (r.1.capacity ≡ capacity))
  unfolding reshape create
  reshape-Holds capacity s xs v small =
      Returns-bind (refill_loop s.size s (create capacity)) _ (Refilled capacity capacity xs []) _
        (subst (λ n. Returns (refill_loop n s (create capacity)) (Refilled capacity capacity xs []))
          v.counted
          (refill_loop-Holds capacity xs [] s (create capacity) v (create-Holds capacity small)
            (omega arith)))
        (λ r h.
          Returns-bind (release r.0) _
            (λ g. (g.0 ≡ drop capacity xs) × Holds g.1 [] × (g.1.capacity ≡ 0)) _
            (release-Holds r.0 _ h.0)
            (λ g k.
              Returns-bind (move_assign g.1 r.1) _
                (λ m.
                  (m.0 ≡ [])
                  × Holds m.1 (take capacity xs)
                  × Holds m.2 []
                  × (m.1.capacity ≡ r.1.capacity)
                  × (m.2.capacity ≡ 0))
                _ (move_assign-Holds g.1 r.1 [] (take capacity xs) k.1 h.1)
                (λ m j.
                  (_, refl, (ap (λ t. g.0 ++ t) j.0 ∙ append-nil g.0 ∙ k.0, j.1, j.3 ∙ h.2)))))
