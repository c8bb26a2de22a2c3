-- ===== src/Latency/Collect.antt =====
-- `remove` and `collect` of `LatencyQueue` of include/async/LatencyQueue.h: what a reader does to the
-- values and to the waiting tickets.
use dynalog.Base.{
  ℕ, ◌≡◌, refl, sym, ◌∙◌, ap, subst, Bool, true, false, not, ◌||◌, List, [], ◌∷◌, ◌++◌, Option,
  none, some, arith, length, get_elem?, set, ◌==◌, if◌then◌else◌, Returns, Returns-bind, Bool-cases,
  inl, inr,
}
use dynalog.Ring.{is_empty, pop}
use dynalog.Ring.Holds.{Holds}
use dynalog.Ring.State.{is_empty-Holds}
use dynalog.Ring.Fifo.{pop-Holds}
use dynalog.Latency.Parts.{QueueCache, Reader, Depo}
use dynalog.Latency.Reader.{deliver, next_ticket, fetch, collect_one}
use dynalog.Latency.Refill.{refill_lem}
use dynalog.Latency.Holds.{
  Buffered, Vacant, Drains, DepoHolds, hand_over_lem, full-DepoHolds, empty-DepoHolds,
}
use dynalog.Latency.Tickets.{waiters_changed}
use dynalog.Latency.Insert.{ready_bound}

-- The first of a list, and the others.
abbrev pub first {ℓ} : {B : Type ℓ} → List B → Option B
first [] = none
first (x ∷ xs) = some x

abbrev pub others {ℓ} : {B : Type ℓ} → List B → List B
others [] = []
others (x ∷ xs) = xs

module _ {ℓ} {A : Type ℓ} where
  -- A reader passes on the oldest value of its drain, and keeps the others, in their order.
  pub deliver_lem :
      (capacity : ℕ) (reader : Reader A) (x : A) (xs : List A)
      → Drains capacity reader (x ∷ xs)
      → Returns
          (deliver reader)
          (λ r. (r.0 ≡ x) × Drains capacity r.1 xs × (r.1.occupied ≡ reader.occupied))
  unfolding deliver
  deliver_lem capacity reader x xs v =
      Returns-bind (pop reader.drain) _
        (λ r. (r.0 ≡ x) × Holds r.1 xs × (r.1.capacity ≡ reader.drain.capacity))
        (λ r. (r.0 ≡ x) × Drains capacity r.1 xs × (r.1.occupied ≡ reader.occupied))
        (pop-Holds reader.drain x xs v.0)
        (λ r h. ((r.0, record reader { drain = r.1 }), refl, (h.0, (h.1, h.2 ∙ v.1), refl)))

  next_ticket_lem :
      (capacity n : ℕ) (d : Depo A) (rs ds : List (List A)) (ws : List ℕ)
      → DepoHolds capacity n d rs ds
      → Holds d.waiting ws
      → Returns
          (next_ticket d)
          (λ r. (r.0 ≡ first ws) × DepoHolds capacity n r.1 rs ds × Holds r.1.waiting (others ws))
  unfolding next_ticket
  next_ticket_lem capacity n d rs ds [] w v =
      let e : is_empty d.waiting ≡ true = is_empty-Holds d.waiting [] v in
      rw e ((none, d), refl, (refl, w, v))
  next_ticket_lem capacity n d rs ds (t ∷ ws) w v =
      let e : is_empty d.waiting ≡ false = ground (arith, is_empty-Holds d.waiting (t ∷ ws) v) in
      let (p, q, h) = pop-Holds d.waiting t ws v in
      rw (e, q)
        (
          (some p.0, record d { waiting = p.1 }),
          refl,
          (
            ap some h.0,
            waiters_changed capacity n d rs ds p.1 ws w h.1 (omega (arith, h.2, w.waiting_room)),
            h.1,
          ),
        )

  -- What a fetch leaves, where `ready` and `drains` are the values of the depo.
  abbrev pub Fetched :
      ℕ → ℕ → ℕ → Depo A → List (List A) → List (List A) → List ℕ → Option ℕ × Depo A → Type ℓ
  Fetched capacity n head d [] ds ws r = r ≡ (none, d)
  Fetched capacity n head d (xs ∷ rs) ds ws r =
      (r.0 ≡ first ws)
      × DepoHolds capacity n r.1 rs (set ds head xs)
      × Holds r.1.waiting (others ws)

  -- A reader whose drain is used up takes the whole first ready buffer of the depo, and the ticket
  -- that has waited longest is woken up, if one waits. Where no buffer is ready nothing changes.
  pub fetch_lem :
      (capacity n head : ℕ) (reader : Reader A) (d : Depo A) (rs ds : List (List A)) (ws : List ℕ)
      → DepoHolds capacity n d rs ds
      → Holds d.waiting ws
      → get_elem? d.readers head ≡ some reader
      → Vacant capacity reader.drain
      → Returns (fetch head d) (Fetched capacity n head d rs ds ws)
  unfolding fetch
  fetch_lem capacity n head reader d [] ds ws w v g u =
      let e : is_empty d.ready ≡ true = empty-DepoHolds capacity n d [] ds w in
      rw e ((none, d), refl, refl)
  fetch_lem capacity n head reader d (xs ∷ rs) ds ws w v g u =
      let e : is_empty d.ready ≡ false =
        ground (arith, empty-DepoHolds capacity n d (xs ∷ rs) ds w) in
      let (d', q, h) = refill_lem capacity n head reader d xs rs ds w u in
      rw (e, g, q)
        (next_ticket_lem capacity n d' rs (set ds head xs) ws h.0
          (subst (λ s. Holds s ws) (sym h.1) v))

  -- What a visit by `collect` comes to: no value is lost, and where the cache has some and a buffer is
  -- left, they all become the last ready buffer.
  abbrev pub moves : ℕ → List A → List (List A) → Bool
  moves n xs rs = not (length xs == 0 || length rs == n)

  pub collect_one_lem :
      (capacity n : ℕ) (c : QueueCache A) (d : Depo A) (xs : List A) (rs ds : List (List A))
      → Buffered capacity c.cache xs
      → DepoHolds capacity n d rs ds
      → Returns (collect_one c d) (λ r.
        Buffered capacity r.0.cache (if moves n xs rs then [] else xs)
        × DepoHolds capacity n r.1 (if moves n xs rs then rs ++ xs ∷ [] else rs) ds
        × (r.0.tickets ≡ c.tickets)
        × (r.1.waiting ≡ d.waiting))
  unfolding collect_one
  collect_one_lem capacity n c d xs rs ds v w = elim (Bool-cases (length xs == 0)) [
    | inl e ↦
        let a = is_empty-Holds c.cache xs v.0 ∙ e in rw (a, e) ((c, d), refl, (v, w, refl, refl))
    | inr e ↦
        let a = is_empty-Holds c.cache xs v.0 ∙ e in
        elim (Bool-cases (length rs == n)) [
          | inl f ↦
              let b = full-DepoHolds capacity n d rs ds w ∙ f in
              rw (a, b, e, f) ((c, d), refl, (v, w, refl, refl))
          | inr f ↦
              let b = full-DepoHolds capacity n d rs ds w ∙ f in
              let bound = ready_bound capacity n d rs ds w in
              let (r, q, h) =
                hand_over_lem capacity n c.cache d xs rs ds w v (ground (arith, f, bound)) in
              rw (a, b, q, e, f) ((record c { cache = r.0 }, r.1), refl, (h.0, h.1, refl, h.2))
        ]
  ]
