-- ===== src/Latency/Loop.antt =====
-- The loop of `insert` of include/async/LatencyQueue.h: it ends, and what it comes to.
use dynalog.Base.{
  ℕ, zero, suc, ◌+◌, ◌^◌, ◌≤◌, ◌<◌, ◌≡◌, refl, sym, subst, Bool, true, false, List, [], ◌∷◌, ◌++◌,
  Option, none, some, arith, length, Returns, Returns-bind, ◌>>=◌, All, Never, Bool-cases, inl, inr,
}
use dynalog.Ring.{is_full}
use dynalog.Ring.Holds.{Holds}
use dynalog.Latency.Parts.{QueueCache, Depo}
use dynalog.Latency.Writer.{
  Attempt, accepted, handed_over, must_wait, attempt, unwait, take_ticket, keep_ticket, Wake,
  insert_loop, insert,
}
use dynalog.Latency.Holds.{Buffered, DepoHolds}
use dynalog.Latency.Tickets.{unwait_lem, take_ticket_lem}
use dynalog.Latency.Insert.{Came, attempt_lem, then_accepted}

-- Of these waits, one times out, if none before it lets the call end.
abbrev pub TimesOut {ℓ} : {A : Type ℓ} → List (Wake A) → Type ℓ
TimesOut [] = Never
TimesOut (w ∷ waits) = w.woken ≡ true → TimesOut waits

module _ {ℓ} {A : Type ℓ} where
  -- A cache and a depo with some values.
  abbrev pub Sound : ℕ → ℕ → QueueCache A → Depo A → Type ℓ
  Sound capacity n c d =
      (xs : List A) × (rs : List (List A)) × (ds : List (List A)) × Buffered capacity c.cache xs
      × DepoHolds capacity n d rs ds
      × (d.waiting.capacity < 2 ^ 63)

  abbrev pub AllSound : ℕ → ℕ → List (Wake A) → Type ℓ
  AllSound capacity n = All (λ w. Sound capacity n w.cache w.depo)

  -- Where the call succeeded, its value is the last one of the cache.
  abbrev pub Inserted : ℕ → A → Bool × QueueCache A × Depo A → Type ℓ
  Inserted capacity value r =
      r.0 ≡ true → (xs : List A) × Buffered capacity r.1.cache (xs ++ value ∷ [])

  -- What a round does after its attempt.
  abbrev continue :
      ℕ
      → A
      → ℕ
      → List (Wake A)
      → Attempt
      → QueueCache A
      → Depo A
      → Option (Bool × QueueCache A × Depo A)
  continue rounds value ticket waits outcome c' depo' = elim outcome [
    | accepted ↦ some (true, c', depo')
    | handed_over ↦ insert_loop rounds value ticket waits c' depo'
    | must_wait ↦ elim waits [
      | [] ↦ none
      | w ∷ rest ↦ elim w.woken [
        | true ↦ insert_loop rounds value ticket rest w.cache w.depo
        | false ↦ do depo'' ← unwait ticket w.depo; some (false, w.cache, depo'')
      ]
    ]
  ]

  -- The second of two rounds adds the value.
  last_round :
      (capacity n rounds : ℕ) (value : A) (ticket : ℕ) (waits : List (Wake A)) (c : QueueCache A)
      (d : Depo A) (xs : List A) (rs ds : List (List A)) (ws : List ℕ) (c' : QueueCache A)
      (d' : Depo A)
      → 0 < capacity
      → Came capacity n value ticket c d xs rs ds ws handed_over c' d'
      → Returns (insert_loop (suc rounds) value ticket waits c' d') (Inserted capacity value)
  unfolding insert_loop
  last_round capacity n rounds value ticket waits c d xs rs ds ws c' d' p h =
      Returns-bind (attempt value ticket c' d') _
        (λ s.
          (s.0 ≡ accepted)
          × Buffered capacity s.1.cache (value ∷ [])
          × DepoHolds capacity n s.2 (rs ++ xs ∷ []) ds)
        (Inserted capacity value) (then_accepted capacity n value ticket c d xs rs ds ws c' d' p h)
        (λ s k. accept s.0 s.1 s.2 k.0 k.1)
    where
      accept :
          (a : Attempt) (c' : QueueCache A) (d' : Depo A)
          → a ≡ accepted
          → Buffered capacity c'.cache (value ∷ [])
          → Returns (continue rounds value ticket waits a c' d') (Inserted capacity value)
      accept a c' d' e k = rw e ((true, c', d'), refl, λ t. ([], k))

  waited :
      (capacity n rounds : ℕ) (value : A) (ticket : ℕ) (waits : List (Wake A)) (c' : QueueCache A)
      (d' : Depo A)
      → AllSound capacity n waits
      → TimesOut waits
      → ((w : Wake A) (rest : List (Wake A))
          → Sound capacity n w.cache w.depo
          → AllSound capacity n rest
          → TimesOut rest
          → suc (length rest) ≤ length waits
          → Returns (insert_loop rounds value ticket rest w.cache w.depo) (Inserted capacity value))
      → Returns (continue rounds value ticket waits must_wait c' d') (Inserted capacity value)
  waited capacity n rounds value ticket [] c' d' a t f = absurd (elim t [ ])
  waited capacity n rounds value ticket (w ∷ rest) c' d' a t f = go w.woken t
    where
      go :
          (b : Bool)
          → (b ≡ true → TimesOut rest)
          → Returns
              (elim b [
                | true ↦ insert_loop rounds value ticket rest w.cache w.depo
                | false ↦ do depo'' ← unwait ticket w.depo; some (false, w.cache, depo'')
              ])
              (Inserted capacity value)
      go true t = f w rest a.0 a.1 (t refl) (omega arith)
      go false t =
          let (xs, rs, ds, v, u, b) = a.0 in
          let (d'', e, h) = unwait_lem capacity n ticket w.depo rs ds u.waiters u u.waiting_ring in
          rw e ((false, w.cache, d''), refl, λ x. absurd (cc x))

  settle :
      (capacity n rounds : ℕ) (value : A) (ticket : ℕ) (waits : List (Wake A)) (c : QueueCache A)
      (d : Depo A) (xs : List A) (rs ds : List (List A)) (ws : List ℕ) (a : Attempt)
      (c' : QueueCache A) (d' : Depo A)
      → 0 < capacity
      → Came capacity n value ticket c d xs rs ds ws a c' d'
      → AllSound capacity n waits
      → TimesOut waits
      → ((w : Wake A) (rest : List (Wake A))
          → Sound capacity n w.cache w.depo
          → AllSound capacity n rest
          → TimesOut rest
          → suc (length rest) ≤ length waits
          → Returns
              (insert_loop (suc rounds) value ticket rest w.cache w.depo)
              (Inserted capacity value))
      → Returns (continue (suc rounds) value ticket waits a c' d') (Inserted capacity value)
  settle capacity n rounds value ticket waits c d xs rs ds ws accepted c' d' p h a t f =
      ((true, c', d'), refl, λ e. (xs, h.1))
  settle capacity n rounds value ticket waits c d xs rs ds ws handed_over c' d' p h a t f =
      last_round capacity n rounds value ticket waits c d xs rs ds ws c' d' p h
  settle capacity n rounds value ticket waits c d xs rs ds ws must_wait c' d' p h a t f =
      waited capacity n (suc rounds) value ticket waits c' d' a t f

  insert_loop_lem :
      (capacity n rounds : ℕ) (value : A) (ticket : ℕ) (waits : List (Wake A)) (c : QueueCache A)
      (d : Depo A)
      → 0 < capacity
      → Sound capacity n c d
      → AllSound capacity n waits
      → TimesOut waits
      → 2 + length waits ≤ rounds
      → Returns (insert_loop rounds value ticket waits c d) (Inserted capacity value)
  unfolding insert_loop
  insert_loop_lem capacity n zero value ticket waits c d p s a t h = absurd (omega arith)
  insert_loop_lem capacity n (suc zero) value ticket waits c d p s a t h = absurd (omega arith)
  insert_loop_lem capacity n (suc (suc rounds)) value ticket waits c d p (xs, rs, ds, v, w, b) a t
        h =
      Returns-bind (attempt value ticket c d) _
        (λ r.
          Came capacity n value ticket c d xs rs ds w.waiters r.0 r.1 r.2
          × (r.1.tickets ≡ c.tickets))
        (Inserted capacity value)
        (attempt_lem capacity n value ticket c d xs rs ds w.waiters v w w.waiting_ring b)
        (λ r k.
          settle capacity n rounds value ticket waits c d xs rs ds w.waiters r.0 r.1 r.2 p k.0 a t
            (λ x rest s' a' t' l.
              insert_loop_lem capacity n (suc rounds) value ticket rest x.cache x.depo p s' a' t'
                (omega (arith, l, h))))

  kept_cache : (ticket : ℕ) (c : QueueCache A) → (keep_ticket ticket c).cache ≡ c.cache
  unfolding keep_ticket
  kept_cache ticket c = elim (Bool-cases (is_full c.tickets)) [
    | inl e ↦ rw e refl
    | inr e ↦ rw e refl
  ]

  -- `insert` ends without a fault, after as many rounds as it waits and two more at most, where one of
  -- its waits times out unless it succeeds before, and whatever other threads do to its cache and depo
  -- while it waits, as long as these keep their invariants. Where it says that it succeeded, its
  -- value is the last one of the cache.
  pub insert_lem :
      (capacity n rounds fresh : ℕ) (value : A) (waits : List (Wake A)) (c : QueueCache A)
      (d : Depo A) (ts : List ℕ)
      → 0 < capacity
      → Sound capacity n c d
      → Holds c.tickets ts
      → AllSound capacity n waits
      → TimesOut waits
      → 2 + length waits ≤ rounds
      → Returns (insert rounds fresh value waits c d) (Inserted capacity value)
  unfolding insert
  insert_lem capacity n rounds fresh value waits c d ts p (xs, rs, ds, v, w, b) k a t h =
      Returns-bind (take_ticket fresh c) _
        (λ r. (r.1.cache ≡ c.cache) × (us : List ℕ) × Holds r.1.tickets us)
        (Inserted capacity value) (take_ticket_lem fresh c ts k)
        (λ r l.
          Returns-bind (insert_loop rounds value r.0 waits r.1 d) _ (Inserted capacity value)
            (Inserted capacity value)
            (insert_loop_lem capacity n rounds value r.0 waits r.1 d p
              (xs, rs, ds, subst (λ s. Buffered capacity s xs) (sym l.0) v, w, b) a t h)
            (λ s m. (
              (s.0, keep_ticket r.0 s.1, s.2),
              refl,
              λ e.
                  let (ys, y) = m e in
                  (
                    ys,
                    subst (λ z. Buffered capacity z (ys ++ value ∷ [])) (sym (kept_cache r.0 s.1))
                        y,
                  ),
            )))
