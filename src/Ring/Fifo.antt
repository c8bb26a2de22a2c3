-- ===== src/Ring/Fifo.antt =====
-- What the operations of include/async/RingBuffer.h do to the values of a ring.
use dynalog.Base.{
  ℕ, suc, ◌+◌, ◌<◌, ◌≡◌, refl, sym, ◌∙◌, Bool, not, List, [], ◌∷◌, ◌++◌, append-nil, append_assoc,
  arith, length, keep, if◌then◌else◌, Returns, Returns-bind, Bool-cases, subst, inl, inr,
}
use dynalog.Ring.{
  Slots, sub_size, emplace, pop, drop_begin, erase, erase_loop, clear, clear_loop, release,
  move_construct, move_assign, init,
}
use dynalog.Ring.Holds.{
  Holds, emplace-Holds, drop_begin-Holds, cell-begin, pop-eq, capacity-drop_begin, capacity-emplace,
}

module _ {ℓ} {A : Type ℓ} where
  -- A ring that holds the same values, seen through an equation.
  pub recount : (s : Slots A) {xs ys : List A} → xs ≡ ys → Holds s xs → Holds s ys
  recount s e v = subst (Holds s) e v

  -- `pop` returns the oldest value; the ring holds the others, in their order, and keeps its capacity.
  pub pop-Holds :
      (s : Slots A) (x : A) (xs : List A)
      → Holds s (x ∷ xs)
      → Returns (pop s) (λ r. (r.0 ≡ x) × Holds r.1 xs × (r.1.capacity ≡ s.capacity))
  pop-Holds s x xs v =
      ((x, drop_begin s), pop-eq s x xs v, (refl, drop_begin-Holds s x xs v, capacity-drop_begin s))

  -- Taking one value off leaves room for another.
  room_after_drop :
      (s : Slots A) (x : A) (xs : List A)
      → Holds s (x ∷ xs)
      → (drop_begin s).size < (drop_begin s).capacity
  room_after_drop s x xs v =
      omega
        (arith, (drop_begin-Holds s x xs v).counted, v.counted, v.bounded, capacity-drop_begin s)

  -- One round of `erase` that keeps the value: it goes from the old end to the young one.
  rotate-Holds :
      (s : Slots A) (x : A) (xs : List A)
      → Holds s (x ∷ xs)
      → Holds (emplace (drop_begin s) x) (xs ++ x ∷ [])
  rotate-Holds s x xs v =
      emplace-Holds (drop_begin s) xs x (drop_begin-Holds s x xs v) (room_after_drop s x xs v)

  -- How many values pass the test.
  abbrev pub count : (A → Bool) → List A → ℕ
  count p [] = 0
  count p (x ∷ xs) = if p x then suc (count p xs) else count p xs

  abbrev pub failing : (A → Bool) → List A → List A
  failing p = keep (λ x. not (p x))

  count-failing : (p : A → Bool) (xs : List A) → count p xs + length (failing p xs) ≡ length xs
  count-failing p [] = refl
  count-failing p (x ∷ xs) = ground (arith, count-failing p xs)

  erase_loop-Holds :
      (p : A → Bool) (ys zs : List A) (s : Slots A)
      → Holds s (ys ++ zs)
      → Returns
          (erase_loop p (length ys) s)
          (λ t. Holds t (zs ++ failing p ys) × (t.capacity ≡ s.capacity))
  unfolding erase_loop
  erase_loop-Holds p [] zs s v = (s, refl, (recount s (sym (append-nil zs)) v, refl))
  erase_loop-Holds p (y ∷ ys) zs s v = rw (pop-eq s y (ys ++ zs) v) (elim (Bool-cases (p y)) [
    | inl e ↦ rw e (
        let (t, r, h) =
          erase_loop-Holds p ys zs (drop_begin s) (drop_begin-Holds s y (ys ++ zs) v) in
        (t, r, (h.0, h.1 ∙ capacity-drop_begin s)))
    | inr e ↦ rw e (
        let (t, r, h) =
          erase_loop-Holds p ys (zs ++ y ∷ []) (emplace (drop_begin s) y)
            (recount _ (append_assoc ys zs (y ∷ [])) (rotate-Holds s y (ys ++ zs) v)) in
        (
          t,
          r,
          (
            recount t (append_assoc zs (y ∷ []) (failing p ys)) h.0,
            h.1 ∙ capacity-emplace (drop_begin s) y ∙ capacity-drop_begin s,
          ),
        ))
  ])

  -- `erase` returns how many values satisfied the predicate, leaves exactly the others, in their
  -- order, and keeps the capacity.
  pub erase-Holds :
      (p : A → Bool) (s : Slots A) (xs : List A)
      → Holds s xs
      → Returns
          (erase p s)
          (λ r. (r.0 ≡ count p xs) × Holds r.1 (failing p xs) × (r.1.capacity ≡ s.capacity))
  unfolding erase
  erase-Holds p s xs v =
      Returns-bind (erase_loop p s.size s) _
        (λ t. Holds t (failing p xs) × (t.capacity ≡ s.capacity)) _
        (subst
          (λ n.
            Returns (erase_loop p n s) (λ t. Holds t (failing p xs) × (t.capacity ≡ s.capacity)))
          v.counted (erase_loop-Holds p xs [] s (recount s (sym (append-nil xs)) v)))
        (λ t h. (_, refl, (erased t h.0, h.0, h.1)))
    where
      erased : (t : Slots A) → Holds t (failing p xs) → sub_size s.size t.size ≡ count p xs
      erased t h = omega (arith, count-failing p xs, h.counted, v.counted, v.bounded, v.small)

  clear_loop-Holds :
      (s : Slots A) (xs : List A)
      → Holds s xs
      → Returns
          (clear_loop (length xs) s)
          (λ r. (r.0 ≡ xs) × Holds r.1 [] × (r.1.capacity ≡ s.capacity))
  unfolding clear_loop
  clear_loop-Holds s [] v = (([], s), refl, (refl, v, refl))
  clear_loop-Holds s (x ∷ xs) v =
      let (r, e, h) = clear_loop-Holds (drop_begin s) xs (drop_begin-Holds s x xs v) in
      ((x ∷ xs, r.1), rw (cell-begin s x xs v, e, h.0), (refl, h.1, h.2 ∙ capacity-drop_begin s))

  -- `clear` destroys every value once, oldest first, leaves an empty ring, and keeps the capacity.
  pub clear-Holds :
      (s : Slots A) (xs : List A)
      → Holds s xs
      → Returns (clear s) (λ r. (r.0 ≡ xs) × Holds r.1 [] × (r.1.capacity ≡ s.capacity))
  unfolding clear
  clear-Holds s xs v =
      subst
        (λ n.
          Returns (clear_loop n s) (λ r. (r.0 ≡ xs) × Holds r.1 [] × (r.1.capacity ≡ s.capacity)))
        v.counted (clear_loop-Holds s xs v)

  -- A ring with no storage holds nothing, wherever its pointers point.
  released-Holds : (s : Slots A) → Holds (record s { storage = []; size = 0; capacity = 0 }) []
  released-Holds s = record {
    room = refl;
    small = omega arith;
    bounded = omega arith;
    counted = refl;
    start = λ h. absurd (omega arith);
    finish = λ h. absurd (omega arith);
    cells = λ i h. refl;
  }

  -- `release` destroys every value once, oldest first, and leaves an empty ring of no capacity.
  pub release-Holds :
      (s : Slots A) (xs : List A)
      → Holds s xs
      → Returns (release s) (λ r. (r.0 ≡ xs) × Holds r.1 [] × (r.1.capacity ≡ 0))
  unfolding release
  release-Holds s xs v =
      Returns-bind (clear s) _ (λ r. (r.0 ≡ xs) × Holds r.1 [] × (r.1.capacity ≡ s.capacity)) _
        (clear-Holds s xs v) (λ r h. (_, refl, (h.0, released-Holds r.1, refl)))

  -- Move construction hands the values over; the source is left an empty ring of no capacity.
  pub move_construct-Holds :
      (s : Slots A) (xs : List A)
      → Holds s xs
      → Holds (move_construct s).0 xs
        × Holds (move_construct s).1 []
        × ((move_construct s).1.capacity ≡ 0)
  unfolding move_construct init
  move_construct-Holds s xs v = (v, released-Holds (record s { begin = 0; end = 0 }), refl)

  -- Move assignment destroys what the target held, once each, and hands the source's values over;
  -- the source is left an empty ring of no capacity.
  pub move_assign-Holds :
      (s other : Slots A) (xs ys : List A)
      → Holds s xs
      → Holds other ys
      → Returns (move_assign s other) (λ r.
        (r.0 ≡ xs)
        × Holds r.1 ys
        × Holds r.2 []
        × (r.1.capacity ≡ other.capacity)
        × (r.2.capacity ≡ 0))
  unfolding move_assign init
  move_assign-Holds s other xs ys v w =
      Returns-bind (release s) _ (λ r. (r.0 ≡ xs) × Holds r.1 [] × (r.1.capacity ≡ 0)) _
        (release-Holds s xs v)
        (λ r h. (_, refl, (h.0, w, released-Holds (record s { begin = 0; end = 0 }), refl, refl)))
