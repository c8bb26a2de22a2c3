-- ===== src/Ring/Holds.antt =====
-- The representation invariant of include/async/RingBuffer.h: which values a ring holds, in order.
use dynalog.Base.{
  ℕ, zero, suc, ◌+◌, ◌^◌, ◌≤◌, ◌<◌, ◌≡◌, refl, sym, ◌∙◌, ap, ◌≢◌, List, [], ◌∷◌, ◌++◌, some, arith,
  length, get_or, set, length-append, length-set, length-replicate, get_or-replicate,
  get_or-set_self, get_or-set_ne,
}
use native.Mathlib.Decide.{ℕ_discrete, dec_lt}
use dynalog.Ring.Bounds.{wrap, wrap_lt, wrap_ne, wrap_shift, wrap_round}
use dynalog.Ring.{Slots, Cell, raw, live, cell, advance, create, init, emplace, pop, drop_begin}

module _ {ℓ} {A : Type ℓ} where
  -- The cell that the `i`-th of the values stands in; past the last one it is raw.
  abbrev held : List A → ℕ → Cell A
  held [] i = raw
  held (x ∷ xs) zero = live x
  held (x ∷ xs) (suc i) = held xs i

  held_past : (xs : List A) (i : ℕ) → length xs ≤ i → held xs i ≡ raw
  held_past [] i h = refl
  held_past (x ∷ xs) zero h = absurd (omega arith)
  held_past (x ∷ xs) (suc i) h = held_past xs i (omega arith)

  held-append_last : (xs : List A) (y : A) → held (xs ++ y ∷ []) (length xs) ≡ live y
  held-append_last [] y = refl
  held-append_last (x ∷ xs) y = held-append_last xs y

  held-append_ne : (xs : List A) (y : A) (i : ℕ) → i ≢ length xs → held (xs ++ y ∷ []) i ≡ held xs i
  held-append_ne [] y zero h = absurd (h refl)
  held-append_ne [] y (suc i) h = refl
  held-append_ne (x ∷ xs) y zero h = refl
  held-append_ne (x ∷ xs) y (suc i) h = held-append_ne xs y i (λ e. h (ap suc e))

  -- The ring `s` is well formed and holds exactly the values `xs`, oldest first: every other cell
  -- of its storage is raw.
  pub record Holds (s : Slots A) (xs : List A) : Type ℓ where
    pub room : length s.storage ≡ s.capacity
    pub small : s.capacity < 2 ^ 64
    pub bounded : s.size ≤ s.capacity
    pub counted : length xs ≡ s.size
    pub start : 0 < s.capacity → s.begin < s.capacity
    pub finish : 0 < s.capacity → s.end ≡ advance s s.begin s.size
    pub cells : (i : ℕ) → i < s.capacity → cell s (advance s s.begin i) ≡ held xs i

  -- `create` gives an empty ring of that capacity.
  pub create-Holds : (capacity : ℕ) → capacity < 2 ^ 64 → Holds (create capacity) []
  unfolding create init advance
  create-Holds capacity h = record {
    room = length-replicate capacity raw;
    small = h;
    bounded = omega arith;
    counted = refl;
    start = λ p. p;
    finish = λ p. ground arith;
    cells = λ i p. get_or-replicate capacity _ raw;
  }

  -- With room left, `emplace` adds the value at the young end.
  pub emplace-Holds :
      (s : Slots A) (xs : List A) (x : A)
      → Holds s xs
      → s.size < s.capacity
      → Holds (emplace s x) (xs ++ x ∷ [])
  unfolding emplace advance
  emplace-Holds s xs x v h = record {
    room = length-set s.storage s.end (live x) ∙ v.room;
    small = v.small;
    bounded = omega arith;
    counted = omega (arith, length-append xs (x ∷ []), v.counted, v.small);
    start = v.start;
    finish = λ p. ground (arith, v.finish p, v.start p);
    cells = λ i p. elim (ℕ_discrete i s.size) [
      | yes e ↦
          ap (λ k. get_or (set s.storage s.end (live x)) k raw) (at_end i e)
          ∙ get_or-set_self s.storage s.end (live x) raw in_storage
          ∙ sym (ap (held (xs ++ x ∷ [])) (e ∙ sym v.counted) ∙ held-append_last xs x)
      | no n ↦
          get_or-set_ne s.storage s.end _ (live x) raw (elsewhere i p n)
          ∙ v.cells i p
          ∙ sym (held-append_ne xs x i (λ e. n (e ∙ v.counted)))
    ];
  }
    where
      inside : 0 < s.capacity
      inside = omega arith

      at_end : (i : ℕ) → i ≡ s.size → wrap s.capacity (s.begin + i) ≡ s.end
      at_end i e = ap (λ k. wrap s.capacity (s.begin + k)) e ∙ sym (v.finish inside)

      in_storage : s.end < length s.storage
      in_storage =
          omega (arith, wrap_lt s.capacity s.begin s.size, v.finish inside, v.start inside, v.room)

      elsewhere : (i : ℕ) → i < s.capacity → i ≢ s.size → s.end ≢ wrap s.capacity (s.begin + i)
      elsewhere i p n e =
          wrap_ne s.capacity s.begin i s.size (v.start inside) p h n (sym e ∙ v.finish inside)

  -- Without its oldest value a ring holds the others.
  pub drop_begin-Holds :
      (s : Slots A) (x : A) (xs : List A) → Holds s (x ∷ xs) → Holds (drop_begin s) xs
  unfolding drop_begin advance
  drop_begin-Holds s x xs v = record {
    room = length-set s.storage s.begin raw ∙ v.room;
    small = v.small;
    bounded = omega (arith, v.counted);
    counted = omega (arith, v.counted, v.small);
    start = λ p. wrap_lt s.capacity s.begin 1 (v.start p) p;
    finish = λ p. ground (arith, v.finish p, v.start p, v.counted);
    cells = λ i p. elim (dec_lt (suc i) s.capacity) [
      | yes h ↦
          get_or-set_ne s.storage s.begin _ raw raw (elsewhere i h)
          ∙ ap (λ k. get_or s.storage k raw) (wrap_shift s.capacity s.begin i (v.start inside) h)
          ∙ v.cells (suc i) h
      | no h ↦
          ap (λ k. get_or (set s.storage s.begin raw) k raw)
            (wrap_round s.capacity s.begin i (v.start inside) (omega arith))
          ∙ get_or-set_self s.storage s.begin raw raw
              (let q = v.start inside in omega (arith, v.room))
          ∙ sym (held_past xs i (omega (arith, v.counted)))
    ];
  }
    where
      inside : 0 < s.capacity
      inside = omega (arith, v.counted)

      elsewhere :
          (i : ℕ)
          → suc i < s.capacity
          → s.begin ≢ wrap s.capacity (wrap s.capacity (s.begin + 1) + i)
      elsewhere i h = let q = v.start inside in ground arith

  -- The cell at `begin` holds the oldest value.
  pub cell-begin : (s : Slots A) (x : A) (xs : List A) → Holds s (x ∷ xs) → cell s s.begin ≡ live x
  unfolding advance
  cell-begin s x xs v =
      ap (λ k. get_or s.storage k raw) (let q = v.start inside in ground arith) ∙ v.cells 0 inside
    where
      inside : 0 < s.capacity
      inside = omega (arith, v.counted)

  -- `pop` returns the oldest value.
  pub pop-eq :
      (s : Slots A) (x : A) (xs : List A) → Holds s (x ∷ xs) → pop s ≡ some (x, drop_begin s)
  unfolding pop
  pop-eq s x xs v = rw (cell-begin s x xs v)

  pub capacity-drop_begin : (s : Slots A) → (drop_begin s).capacity ≡ s.capacity
  unfolding drop_begin
  capacity-drop_begin s = refl

  pub capacity-emplace : (s : Slots A) (x : A) → (emplace s x).capacity ≡ s.capacity
  unfolding emplace
  capacity-emplace s x = refl
