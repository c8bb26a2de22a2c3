-- ===== src/Latency/Insert.antt =====
-- `insert` of `LatencyQueue` of include/async/LatencyQueue.h: what a round of its loop does to the
-- values.
use dynalog.Base.{
  ℕ, ◌^◌, ◌≤◌, ◌<◌, ◌≡◌, refl, ◌∙◌, subst, false, List, [], ◌∷◌, ◌++◌, arith, length, ◌==◌, Returns,
  Bool-cases, inl, inr, length-Each,
}
use dynalog.Ring.{is_full, emplace}
use dynalog.Ring.Holds.{Holds, emplace-Holds, capacity-emplace}
use dynalog.Ring.State.{is_full-Holds}
use dynalog.Latency.Parts.{QueueCache, Depo}
use dynalog.Latency.Writer.{Attempt, accepted, handed_over, must_wait, offer, attempt}
use dynalog.Latency.Tickets.{wait_lem}
use dynalog.Latency.Holds.{Buffered, Vacant, DepoHolds, hand_over_lem, full-DepoHolds}

module _ {ℓ} {A : Type ℓ} where
  -- What a round of the loop leaves of a cache with the values `xs`, and of the depo.
  abbrev pub Came :
      ℕ
      → ℕ
      → A
      → ℕ
      → QueueCache A
      → Depo A
      → List A
      → List (List A)
      → List (List A)
      → List ℕ
      → Attempt
      → QueueCache A
      → Depo A
      → Type ℓ
  Came capacity n value ticket c d xs rs ds ws accepted c' d' =
      (length xs < capacity) × Buffered capacity c'.cache (xs ++ value ∷ []) × (d' ≡ d)
  Came capacity n value ticket c d xs rs ds ws handed_over c' d' =
      (length xs ≡ capacity)
      × (length rs < n)
      × Vacant capacity c'.cache
      × DepoHolds capacity n d' (rs ++ xs ∷ []) ds
      × (d'.waiting ≡ d.waiting)
  Came capacity n value ticket c d xs rs ds ws must_wait c' d' =
      (length xs ≡ capacity)
      × (length rs ≡ n)
      × Buffered capacity c'.cache xs
      × DepoHolds capacity n d' rs ds
      × Holds d'.waiting (ws ++ ticket ∷ [])

  pub ready_bound :
      (capacity n : ℕ) (d : Depo A) (rs ds : List (List A))
      → DepoHolds capacity n d rs ds
      → length rs ≤ n
  ready_bound capacity n d rs ds w = omega (arith, length-Each _ w.full_ones rs w.filled, w.balance)

  -- A round of `insert` on a cache with the values `xs` does one of three things. With room in the
  -- cache, the value is put behind the others. With a full cache and fewer than `n` ready buffers in
  -- the depo, the cache becomes the last of those, whole, and a vacant one takes its place. Else the
  -- ticket is put behind the others that wait, and no value is touched.
  pub attempt_lem :
      (capacity n : ℕ) (value : A) (ticket : ℕ) (c : QueueCache A) (d : Depo A) (xs : List A)
      (rs ds : List (List A)) (ws : List ℕ)
      → Buffered capacity c.cache xs
      → DepoHolds capacity n d rs ds
      → Holds d.waiting ws
      → d.waiting.capacity < 2 ^ 63
      → Returns (attempt value ticket c d) (λ r.
        Came capacity n value ticket c d xs rs ds ws r.0 r.1 r.2 × (r.1.tickets ≡ c.tickets))
  unfolding attempt offer
  attempt_lem capacity n value ticket c d xs rs ds ws v w u b =
      elim (Bool-cases (is_full c.cache)) [
        | inr e ↦
            let room : length xs < capacity =
              ground (arith, is_full-Holds c.cache xs v.0, e, v.0.counted, v.0.bounded, v.1) in
            rw e (
              (accepted, record c { cache = emplace c.cache value }, d),
              refl,
              (
                (
                  room,
                  (
                    emplace-Holds c.cache xs value v.0 (omega (arith, v.0.counted, v.1)),
                    capacity-emplace c.cache value ∙ v.1,
                  ),
                  refl,
                ),
                refl,
              ),
            )
        | inl e ↦
            let no_room : length xs ≡ capacity =
              ground (arith, is_full-Holds c.cache xs v.0, e, v.1) in
            elim (Bool-cases (length rs == n)) [
              | inl f ↦
                  let full = full-DepoHolds capacity n d rs ds w ∙ f in
                  let (d', q, h) = wait_lem capacity n ticket d rs ds ws w u b in
                  rw (e, full, q)
                    ((must_wait, c, d'), refl, ((no_room, ground (arith, f), v, h.0, h.1), refl))
              | inr f ↦
                  let full = full-DepoHolds capacity n d rs ds w ∙ f in
                  let some_room = ready_bound capacity n d rs ds w in
                  let less : length rs < n = ground (arith, f, some_room) in
                  let (r, q, h) = hand_over_lem capacity n c.cache d xs rs ds w v less in
                  rw (e, full, q)
                    (
                      (handed_over, record c { cache = r.0 }, r.1),
                      refl,
                      ((no_room, less, h.0, h.1, h.2), refl),
                    )
            ]
      ]

  pub then_accepted :
      (capacity n : ℕ) (value : A) (ticket : ℕ) (c : QueueCache A) (d : Depo A) (xs : List A)
      (rs ds : List (List A)) (ws : List ℕ) (c' : QueueCache A) (d' : Depo A)
      → 0 < capacity
      → Came capacity n value ticket c d xs rs ds ws handed_over c' d'
      → Returns (attempt value ticket c' d') (λ s.
        (s.0 ≡ accepted)
        × Buffered capacity s.1.cache (value ∷ [])
        × DepoHolds capacity n s.2 (rs ++ xs ∷ []) ds)
  unfolding attempt
  then_accepted capacity n value ticket c d xs rs ds ws c' d' p h =
      let v = h.2 in
      let open_cache : is_full c'.cache ≡ false =
        ground (arith, is_full-Holds c'.cache [] v.0, v.1) in
      rw open_cache (
        (accepted, record c' { cache = emplace c'.cache value }, d'),
        refl,
        (
          refl,
          (
            emplace-Holds c'.cache [] value v.0 (omega (arith, v.0.counted, v.1)),
            capacity-emplace c'.cache value ∙ v.1,
          ),
          h.3,
        ),
      )

  -- After a round that hands the cache over, the next one accepts: between two waits the loop of
  -- `insert` makes two rounds at most.
  attempt_again :
      (capacity n : ℕ) (value : A) (ticket : ℕ) (c : QueueCache A) (d : Depo A) (xs : List A)
      (rs ds : List (List A)) (ws : List ℕ)
      → Buffered capacity c.cache xs
      → DepoHolds capacity n d rs ds
      → Holds d.waiting ws
      → d.waiting.capacity < 2 ^ 63
      → 0 < capacity
      → Returns (attempt value ticket c d) (λ r.
        r.0 ≡ handed_over
        → Returns (attempt value ticket r.1 r.2) (λ s.
          (s.0 ≡ accepted)
          × Buffered capacity s.1.cache (value ∷ [])
          × DepoHolds capacity n s.2 (rs ++ xs ∷ []) ds))
  attempt_again capacity n value ticket c d xs rs ds ws v w u b p =
      let (r, e, h) = attempt_lem capacity n value ticket c d xs rs ds ws v w u b in
      (
        r,
        e,
        λ o.
            then_accepted capacity n value ticket c d xs rs ds ws r.1 r.2 p
              (subst (λ a. Came capacity n value ticket c d xs rs ds ws a r.1 r.2) o h.0),
      )
