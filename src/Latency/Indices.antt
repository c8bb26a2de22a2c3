-- ===== src/Latency/Indices.antt =====
-- The indices of `LatencyQueue` of include/async/LatencyQueue.h: which reader a slot is, and which
-- caches `collect` visits.
use dynalog.Base.{
  ℕ, zero, suc, ◌+◌, ◌-◌, ◌*◌, ◌/◌, ◌%◌, ◌^◌, ◌≤◌, ◌<◌, ◌≡◌, refl, sym, ◌∙◌, ap, subst, Bool, true,
  false, not, ◌&&◌, List, [], ◌∷◌, none, some, arith, length, get_elem?, ltb, leb, ◌==◌,
  if◌then◌else◌, Returns, lt→ltb, Bool-cases, inl, inr, All, total,
}
use native.Mathlib.Nat.{
  mod-lt, mod-eq_of_lt, mod-eq-sub-mod, mod-add-mod, div-lt_iff_lt-mul, div-eq_of_eq-mul_left,
  mul_comm,
}
use dynalog.Latency.Parts.{Reader, Depo, LatencyQueue}
use dynalog.Latency.Reader.{slots, enter, collect_indices}

pub get_elem?-in {ℓ} :
    {B : Type ℓ} (xs : List B) (i : ℕ) → i < length xs → (x : B) × (get_elem? xs i ≡ some x)
get_elem?-in [] i h = absurd (omega arith)
get_elem?-in (x ∷ xs) zero h = (x, refl)
get_elem?-in (x ∷ xs) (suc i) h = get_elem?-in xs i (omega arith)

get_elem?-out {ℓ} : {B : Type ℓ} (xs : List B) (i : ℕ) → length xs ≤ i → get_elem? xs i ≡ none
get_elem?-out [] i h = refl
get_elem?-out (x ∷ xs) zero h = absurd (omega arith)
get_elem?-out (x ∷ xs) (suc i) h = get_elem?-out xs i (omega arith)

All-get {ℓ κ} :
    {B : Type ℓ} (P : B → Type κ) (xs : List B) (i : ℕ) (x : B)
    → All P xs
    → get_elem? xs i ≡ some x
    → P x
All-get P [] i x h e = absurd (cc e)
All-get P (y ∷ xs) zero x h e = subst P (ap (λ o. elim o [ none ↦ y | some z ↦ z ]) e) h.0
All-get P (y ∷ xs) (suc i) x h e = All-get P xs i x h.1 e

module _ {ℓ} {A : Type ℓ} where
  -- A call of `remove` beyond `slots` is turned away; below it finds its reader, and is let in exactly
  -- if that is free; but at `slots` itself, which the test lets pass, it reads behind the readers.
  pub enter_lem :
      (index : ℕ) (q : LatencyQueue A)
      → 0 < length q.depos
      → All (λ d. length d.readers ≡ q.readers_per_depo) q.depos
      → length q.depos * q.readers_per_depo < 2 ^ 64
      → (slots q < index → enter index q ≡ some (false, q))
        × (index < slots q
            → (d : Depo A) × (reader : Reader A) × (get_elem? q.depos (index % length q.depos)
                ≡ some d)
              × (get_elem? d.readers (index / length q.depos) ≡ some reader)
              × Returns (enter index q) (λ r. r.0 ≡ not reader.occupied))
        × (index ≡ slots q → enter index q ≡ none)
  unfolding enter slots
  enter_lem index q p each b = (
    λ h. rw (lt→ltb _ _ h) refl,
    λ h.
        let (d, gd) = get_elem?-in q.depos (index % length q.depos) (mod-lt index p) in
        let (r, gr) = get_elem?-in d.readers (index / length q.depos) (reader_there d gd h) in
        (
          d,
          r,
          gd,
          gr,
          let f = not_past (omega arith) in rw (f, some_depo, gd, gr) (chosen _ _ r.occupied),
        ),
    λ h.
        let (d, gd) = get_elem?-in q.depos (index % length q.depos) (mod-lt index p) in
        let f = not_past (omega arith) in
        let g = get_elem?-out d.readers (index / length q.depos) (reader_gone d gd h) in
        rw (f, some_depo, gd, g) refl,
  )
    where
      total_slots : slots q ≡ length q.depos * q.readers_per_depo
      total_slots = mod-eq_of_lt b

      some_depo : (length q.depos == 0) ≡ false
      some_depo = ground arith

      not_past : index ≤ slots q → ltb (slots q) index ≡ false
      not_past h = ground arith

      reader_there :
          (d : Depo A)
          → get_elem? q.depos (index % length q.depos) ≡ some d
          → index < slots q
          → index / length q.depos < length d.readers
      reader_there d g h =
          let l = All-get _ q.depos _ d each g in
          subst (λ n. index / length q.depos < n) (sym l)
            ((div-lt_iff_lt-mul p).1 (
              subst (λ n. index < n) (total_slots ∙ mul_comm (length q.depos) q.readers_per_depo)
                h))

      reader_gone :
          (d : Depo A)
          → get_elem? q.depos (index % length q.depos) ≡ some d
          → index ≡ slots q
          → length d.readers ≤ index / length q.depos
      reader_gone d g h =
          let l = All-get _ q.depos _ d each g in
          let e : index / length q.depos ≡ q.readers_per_depo =
            div-eq_of_eq-mul_left p
              (h ∙ total_slots ∙ mul_comm (length q.depos) q.readers_per_depo) in
          omega (arith, l, e)

      chosen :
          (x y : LatencyQueue A) (b : Bool)
          → Returns {A = Bool × LatencyQueue A}
              (some (if b then (false, x) else (true, y)))
              (λ r. r.0 ≡ not b)
      chosen x y true = (_, refl, refl)
      chosen x y false = (_, refl, refl)

-- How often a number stands in a list.
abbrev pub occurrences : ℕ → List ℕ → ℕ
occurrences k = total (λ x. if x == k then 1 else 0)

module _ (qty stride : ℕ) (p : 0 < stride) where
  -- Whether the loop that is at `index` will visit `k`.
  abbrev ahead : ℕ → ℕ → Bool
  ahead index k = ltb k qty && leb index k && ((k - index) % stride == 0)

  ahead-step :
      (index k : ℕ)
      → index < qty
      → (if index == k then 1 else 0) + (if ahead (index + stride) k then 1 else 0)
        ≡ (if ahead index k then 1 else 0)
  ahead-step index k h = elim (Bool-cases (leb (index + stride) k)) [
    | inl e ↦
        let far : stride ≤ k - index = ground (arith, e) in
        let m : (k - index) % stride ≡ (k - (index + stride)) % stride =
          mod-eq-sub-mod far ∙ ap (λ n. n % stride) (omega arith) in
        ground (arith, e, m)
    | inr e ↦ elim (Bool-cases (leb index k)) [
      | inl f ↦
          let near : k - index < stride = ground (arith, e, f) in
          let m : (k - index) % stride ≡ k - index = mod-eq_of_lt near in ground (arith, e, f, m)
      | inr f ↦ ground (arith, e, f)
    ]
  ]

  occurrences-from :
      (fuel index k : ℕ)
      → qty ≤ index + fuel
      → occurrences k (collect_indices fuel qty stride index) ≡ (if ahead index k then 1 else 0)
  unfolding collect_indices
  occurrences-from zero index k h = ground arith
  occurrences-from (suc fuel) index k h = elim (Bool-cases (ltb index qty)) [
    | inl e ↦ rw e (
        ap (λ n. (if index == k then 1 else 0) + n)
          (occurrences-from fuel (index + stride) k (omega arith))
        ∙ ahead-step index k (ground (arith, e)))
    | inr e ↦ rw e (ground (arith, e))
  ]

  ahead-mod : (slot k : ℕ) → slot < stride → ahead slot k ≡ (ltb k qty && (k % stride == slot))
  ahead-mod slot k h = elim (Bool-cases (leb slot k)) [
    | inl e ↦
        let m : ((k - slot) % stride + slot) % stride ≡ k % stride =
          mod-add-mod (k - slot) stride slot ∙ ap (λ n. n % stride) (ground (arith, e)) in
        let r = mod-lt (k - slot) p in
        elim (Bool-cases (ltb ((k - slot) % stride + slot) stride)) [
          | inl f ↦
              let u : ((k - slot) % stride + slot) % stride ≡ (k - slot) % stride + slot =
                mod-eq_of_lt (ground (arith, f)) in
              ground (arith, e, f, m, u)
          | inr f ↦
              let above : stride ≤ (k - slot) % stride + slot = ground (arith, f) in
              let u : ((k - slot) % stride + slot) % stride ≡ (k - slot) % stride + slot - stride =
                mod-eq-sub-mod above ∙ mod-eq_of_lt (omega arith) in
              ground (arith, e, f, m, u)
        ]
    | inr e ↦ let u : k % stride ≡ k = mod-eq_of_lt (ground (arith, e)) in ground (arith, e, u)
  ]

-- The loop of `collect( slot )` ends, after as many rounds as there are caches at most, and visits
-- once each cache whose index is `slot` modulo the number of depos, and no other; with more rounds it
-- visits the same caches.
pub collect_indices_lem :
    (qty stride slot fuel : ℕ)
    → 0 < stride
    → slot < stride
    → qty ≤ fuel
    → (k : ℕ)
    → (occurrences k (collect_indices fuel qty stride slot)
        ≡ (if ltb k qty && (k % stride == slot) then 1 else 0))
      × (occurrences k (collect_indices fuel qty stride slot)
          ≡ occurrences k (collect_indices qty qty stride slot))
collect_indices_lem qty stride slot fuel p h f k =
    let visits : (n : ℕ) → qty ≤ n → _ = λ n b.
      occurrences-from qty stride p n slot k (omega arith)
      ∙ ap (λ b. if b then 1 else 0) (ahead-mod qty stride p slot k h) in
    (visits fuel f, visits fuel f ∙ sym (visits qty (omega arith)))
