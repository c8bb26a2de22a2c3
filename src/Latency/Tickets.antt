-- ===== src/Latency/Tickets.antt =====
-- `insert` of `LatencyQueue` of include/async/LatencyQueue.h: its deadline, and what it does to the
-- tickets.
use dynalog.Base.{
  ℕ, zero, suc, ◌+◌, ◌-◌, ◌^◌, ◌≤◌, ◌<◌, ◌≡◌, refl, ap, subst, true, false, List, [], ◌∷◌, ◌++◌,
  none, some, arith, length, ◌==◌, if◌then◌else◌, Returns, Returns-bind, Bool-cases, inl, inr, take,
  Each,
}
use dynalog.Ring.{Slots, is_full, is_empty, emplace, reshape, erase}
use dynalog.Ring.Holds.{Holds, emplace-Holds, capacity-emplace}
use dynalog.Ring.State.{is_full-Holds, is_empty-Holds}
use dynalog.Ring.Fifo.{erase-Holds, failing, pop-Holds}
use dynalog.Ring.Reshape.{reshape-Holds}
use dynalog.Latency.Parts.{QueueCache, Reader, Depo, mul_size}
use dynalog.Latency.Writer.{deadline_of, wait, unwait, take_ticket, keep_ticket}
use dynalog.Latency.Holds.{Drains, DepoHolds}

take_all : {B : Type 0} (n : ℕ) (xs : List B) → length xs ≤ n → take n xs ≡ xs
take_all zero [] h = refl
take_all zero (x ∷ xs) h = absurd (omega arith)
take_all (suc n) [] h = refl
take_all (suc n) (x ∷ xs) h = ap (λ ys. x ∷ ys) (take_all n xs (omega arith))

-- The ring of waiters, with room for one more.
abbrev Roomy : Slots ℕ → List ℕ → List ℕ × Slots ℕ → Type 0
Roomy s ws r = Holds r.1 ws × (r.1.size < r.1.capacity)

widened :
    (s : Slots ℕ) (ws : List ℕ)
    → Holds s ws
    → 0 < s.capacity
    → s.capacity < 2 ^ 63
    → Returns (if is_full s then reshape (mul_size s.capacity 2) s else some ([], s)) (Roomy s ws)
widened s ws v p b = elim (Bool-cases (is_full s)) [
  | inl e ↦
      let (r, q, h) = reshape-Holds (mul_size s.capacity 2) s ws v (omega arith) in
      let all = take_all (mul_size s.capacity 2) ws (omega (arith, v.counted, v.bounded)) in
      let holds = subst (Holds r.1) all h.1 in
      rw e (r, q, (holds, omega (arith, h.2, holds.counted, v.counted, v.bounded)))
  | inr e ↦ rw e (([], s), refl, (v, ground (arith, is_full-Holds s ws v, e, v.counted, v.bounded)))
]

module _ {ℓ} {A : Type ℓ} where
  -- A depo with other waiters, readers or sleepers.
  pub altered :
      (capacity n : ℕ) (d : Depo A) (rs ds es : List (List A)) (waiting : Slots ℕ) (ws : List ℕ)
      (readers : List (Reader A)) (sleeping : ℕ)
      → DepoHolds capacity n d rs ds
      → Holds waiting ws
      → 0 < waiting.capacity
      → Each (Drains capacity) readers es
      → DepoHolds capacity n
          (record d { waiting = waiting; readers = readers; sleeping = sleeping })
          rs
          es
  altered capacity n d rs ds es waiting ws readers sleeping w h p e = record {
    full_ones = w.full_ones;
    spare_ones = w.spare_ones;
    waiters = ws;
    ready_ring = w.ready_ring;
    spare_ring = w.spare_ring;
    waiting_ring = h;
    waiting_room = p;
    ready_room = w.ready_room;
    spare_room = w.spare_room;
    balance = w.balance;
    filled = w.filled;
    vacant = w.vacant;
    reading = e;
  }

  pub waiters_changed :
      (capacity n : ℕ) (d : Depo A) (rs ds : List (List A)) (waiting : Slots ℕ) (ws : List ℕ)
      → DepoHolds capacity n d rs ds
      → Holds waiting ws
      → 0 < waiting.capacity
      → DepoHolds capacity n (record d { waiting = waiting }) rs ds
  waiters_changed capacity n d rs ds waiting ws w h p =
      altered capacity n d rs ds ds waiting ws d.readers d.sleeping w h p w.reading

  pub sleepers_changed :
      (capacity n : ℕ) (d : Depo A) (rs ds : List (List A)) (sleeping : ℕ)
      → DepoHolds capacity n d rs ds
      → DepoHolds capacity n (record d { sleeping = sleeping }) rs ds
  sleepers_changed capacity n d rs ds sleeping w =
      altered capacity n d rs ds ds d.waiting w.waiters d.readers sleeping w w.waiting_ring
        w.waiting_room w.reading

  -- A ticket that waits is put behind the others, none of which is lost.
  pub wait_lem :
      (capacity n ticket : ℕ) (d : Depo A) (rs ds : List (List A)) (ws : List ℕ)
      → DepoHolds capacity n d rs ds
      → Holds d.waiting ws
      → d.waiting.capacity < 2 ^ 63
      → Returns
          (wait ticket d)
          (λ d'. DepoHolds capacity n d' rs ds × Holds d'.waiting (ws ++ ticket ∷ []))
  unfolding wait
  wait_lem capacity n ticket d rs ds ws w v b =
      Returns-bind _ _ (Roomy d.waiting ws)
        (λ d'. DepoHolds capacity n d' rs ds × Holds d'.waiting (ws ++ ticket ∷ []))
        (widened d.waiting ws v w.waiting_room b)
        (λ r h.
          let e = emplace-Holds r.1 ws ticket h.0 h.1 in
          (
            record d { waiting = emplace r.1 ticket },
            refl,
            (
              waiters_changed capacity n d rs ds (emplace r.1 ticket) _ w e
                  (omega (arith, capacity-emplace r.1 ticket, h.1)),
              e,
            ),
          ))

  -- A ticket that gives up is taken out, and no other one.
  pub unwait_lem :
      (capacity n ticket : ℕ) (d : Depo A) (rs ds : List (List A)) (ws : List ℕ)
      → DepoHolds capacity n d rs ds
      → Holds d.waiting ws
      → Returns (unwait ticket d) (λ d'.
        DepoHolds capacity n d' rs ds × Holds d'.waiting (failing (λ other. ticket == other) ws))
  unfolding unwait
  unwait_lem capacity n ticket d rs ds ws w v =
      Returns-bind (erase (λ other. ticket == other) d.waiting) _
        (λ r.
          Holds r.1 (failing (λ other. ticket == other) ws) × (r.1.capacity ≡ d.waiting.capacity))
        (λ d'.
          DepoHolds capacity n d' rs ds × Holds d'.waiting (failing (λ other. ticket == other) ws))
        (let (r, e, h) = erase-Holds (λ other. ticket == other) d.waiting ws v in
          (r, e, (h.1, h.2)))
        (λ r h. (
          record d { waiting = r.1 },
          refl,
          (
            waiters_changed capacity n d rs ds r.1 _ w h.0 (omega (arith, h.1, w.waiting_room)),
            h.0,
          ),
        ))

module _ {ℓ} {A : Type ℓ} where
  -- A call of `insert` takes a ticket without a fault, and puts it back where there is room; neither
  -- touches the values.
  pub take_ticket_lem :
      (fresh : ℕ) (c : QueueCache A) (ts : List ℕ)
      → Holds c.tickets ts
      → Returns
          (take_ticket fresh c)
          (λ r. (r.1.cache ≡ c.cache) × (us : List ℕ) × Holds r.1.tickets us)
  unfolding take_ticket
  take_ticket_lem fresh c [] h =
      let e : is_empty c.tickets ≡ true = is_empty-Holds c.tickets [] h in
      rw e ((fresh, c), refl, (refl, [], h))
  take_ticket_lem fresh c (t ∷ ts) h =
      let e : is_empty c.tickets ≡ false = ground (arith, is_empty-Holds c.tickets (t ∷ ts) h) in
      let (r, q, v) = pop-Holds c.tickets t ts h in
      rw (e, q) ((r.0, record c { tickets = r.1 }), refl, (refl, ts, v.1))

  pub keep_ticket_lem :
      (ticket : ℕ) (c : QueueCache A) (ts : List ℕ)
      → Holds c.tickets ts
      → ((keep_ticket ticket c).cache ≡ c.cache)
        × (us : List ℕ) × Holds (keep_ticket ticket c).tickets us
  unfolding keep_ticket
  keep_ticket_lem ticket c ts h = elim (Bool-cases (is_full c.tickets)) [
    | inl e ↦ rw e (refl, ts, h)
    | inr e ↦ rw e (
      refl,
      ts ++ ticket ∷ [],
      emplace-Holds c.tickets ts ticket h
          (ground (arith, is_full-Holds c.tickets ts h, e, h.counted, h.bounded)),
    )
  ]

-- A timeout above zero gives the deadline that far from now; a timeout of zero, which is the default,
-- gives the last time that there is; and where the sum leaves
-- the signed 64-bit range, which it does for the largest timeout at any time but zero, its overflow
-- is undefined.
pub deadline_of_lem :
    (now timeout : ℕ)
    → now < 2 ^ 63
    → (0 < timeout → now + timeout < 2 ^ 63 → deadline_of now timeout ≡ some (now + timeout))
      × (deadline_of now 0 ≡ some (2 ^ 63 - 1))
      × (2 ^ 63 ≤ now + timeout → deadline_of now timeout ≡ none)
      × (0 < now → deadline_of now (2 ^ 63 - 1) ≡ none)
unfolding deadline_of
deadline_of_lem now timeout h =
    (λ p q. ground arith, ground arith, λ q. ground arith, λ p. ground arith)
