-- ===== src/Latency/Wakes.antt =====
-- A call of `insert` of include/async/LatencyQueue.h that waits is not forgotten.
use dynalog.Base.{
  ℕ, ◌≡◌, refl, sym, ◌∙◌, ap, subst, Bool, true, false, not, ◌&&◌, ◌||◌, List, [], ◌∷◌, ◌++◌,
  Option, none, some, arith, get_elem?, set, get_elem?-set, get_elem?-length, mem, mem-append, ◌==◌,
  ==_refl, if◌then◌else◌, Bool-cases, ◌⊎◌, inl, inr,
}
use dynalog.Ring.Holds.{Holds}
use dynalog.Ring.Fifo.{failing}
use dynalog.Latency.Parts.{QueueCache, Depo}
use dynalog.Latency.Writer.{Attempt, accepted, handed_over, must_wait}
use dynalog.Latency.Insert.{Came}
use dynalog.Latency.Collect.{first, others, Fetched}
use dynalog.Latency.Signals.{
  Signals, without, remove_one, wake_ticket, reset_ticket, after_round, after_fetch,
}

pub mem-without :
    (x ticket : ℕ) (xs : List ℕ) → mem x (without ticket xs) ≡ (not (ticket == x) && mem x xs)
mem-without x ticket [] = ground arith
mem-without x ticket (y ∷ xs) = ground (arith, mem-without x ticket xs)

mem-remove_one :
    (x ticket : ℕ) (xs : List ℕ) → (ticket == x) ≡ false → mem x (remove_one ticket xs) ≡ mem x xs
mem-remove_one x ticket [] h = refl
mem-remove_one x ticket (y ∷ xs) h = ground (arith, mem-remove_one x ticket xs h)

mem-last : (x ticket : ℕ) (ws : List ℕ) → mem x (ws ++ ticket ∷ []) ≡ (mem x ws || x == ticket)
mem-last x ticket ws = ground (arith, mem-append x ws (ticket ∷ []))

after_fetch-keeps :
    (x : ℕ) (o : Option ℕ) (g : Signals)
    → mem x (after_fetch o g).blocked ≡ true
    → (mem x g.blocked ≡ true)
      × ((g.ready x || mem x g.owed) ≡ true
          → ((after_fetch o g).ready x || mem x (after_fetch o g).owed) ≡ true)
after_fetch-keeps x none g b = (b, λ t. t)
after_fetch-keeps x (some ticket) g b = (b, λ t. ground (arith, t))

module _ {ℓ} {A : Type ℓ} where
  -- A ticket stands among those that wait at a depo.
  abbrev pub Stands : ℕ → Depo A → Type 0
  Stands ticket d = (ws : List ℕ) × Holds d.waiting ws × (mem ticket ws ≡ true)

  abbrev pub Waits : ℕ → List (Depo A) → Type ℓ
  Waits ticket depos = (k : ℕ) × (d : Depo A) × (get_elem? depos k ≡ some d) × Stands ticket d

  -- Each call that waits is ready, or a reader is about to wake it up, or its ticket stands at a depo.
  abbrev pub AllHeard : List (Depo A) → Signals → Type ℓ
  AllHeard depos g =
      (ticket : ℕ)
      → mem ticket g.blocked ≡ true
      → ((g.ready ticket || mem ticket g.owed) ≡ true) ⊎ Waits ticket depos

  moved :
      (depos : List (Depo A)) (k : ℕ) (d d' : Depo A) (ticket : ℕ) (b : Bool)
      → get_elem? depos k ≡ some d
      → (Stands ticket d → (b ≡ true) ⊎ Stands ticket d')
      → Waits ticket depos
      → (b ≡ true) ⊎ Waits ticket (set depos k d')
  moved depos k d d' ticket b g f (j, e, q, st) =
      let there = get_elem?-set depos k j d' (get_elem?-length depos k d g) in
      elim (Bool-cases (j == k)) [
        | inl h ↦
            let same : get_elem? depos j ≡ some d =
              let jk : j ≡ k = ground (arith, h) in ap (get_elem? depos) jk ∙ g in
            let ed : e ≡ d = let z = sym q ∙ same in cc z in
            elim (f (subst (Stands ticket) ed st)) [
              | inl t ↦ inl t
              | inr st' ↦
                  inr (j, d', there ∙ ap (λ c. if c then some d' else get_elem? depos j) h, st')
            ]
        | inr h ↦ inr (j, e, there ∙ ap (λ c. if c then some d' else get_elem? depos j) h ∙ q, st)
      ]

  -- The depo at `k` and the signals change, and each call that waits then was heard before, or stands
  -- at the new depo.
  pub changed :
      (depos : List (Depo A)) (k : ℕ) (d d' : Depo A) (g g' : Signals)
      → get_elem? depos k ≡ some d
      → AllHeard depos g
      → ((x : ℕ)
          → mem x g'.blocked ≡ true
          → ((mem x g.blocked ≡ true)
              × ((g.ready x || mem x g.owed) ≡ true → (g'.ready x || mem x g'.owed) ≡ true)
              × (Stands x d → ((g'.ready x || mem x g'.owed) ≡ true) ⊎ Stands x d'))
            ⊎ Stands x d')
      → AllHeard (set depos k d') g'
  changed depos k d d' g g' e w f x b = elim (f x b) [
    | inl (m, kept, st) ↦ elim (w x m) [
      | inl t ↦ inl (kept t)
      | inr waiting ↦ moved depos k d d' x (g'.ready x || mem x g'.owed) e st waiting
    ]
    | inr st ↦ inr (
      k,
      d',
      get_elem?-set depos k k d' (get_elem?-length depos k d e)
          ∙ ap (λ c. if c then some d' else get_elem? depos k) (==_refl k),
      st,
    )
  ]

  pub depo_only :
      (depos : List (Depo A)) (k : ℕ) (d d' : Depo A) (g : Signals)
      → get_elem? depos k ≡ some d
      → AllHeard depos g
      → d'.waiting ≡ d.waiting
      → AllHeard (set depos k d') g
  depo_only depos k d d' g e w same =
      changed depos k d d' g g e w
        (λ x b. inl (b, λ t. t, λ (ws, v, m). inr (ws, subst (λ s. Holds s ws) (sym same) v, m)))

  pub signals_only :
      (depos : List (Depo A)) (g g' : Signals)
      → AllHeard depos g
      → ((x : ℕ)
          → mem x g'.blocked ≡ true
          → (mem x g.blocked ≡ true)
            × ((g.ready x || mem x g.owed) ≡ true → (g'.ready x || mem x g'.owed) ≡ true))
      → AllHeard depos g'
  signals_only depos g g' w f x b = elim (w x (f x b).0) [
    | inl t ↦ inl ((f x b).1 t)
    | inr waiting ↦ inr waiting
  ]

  pub reset_unused :
      (depos : List (Depo A)) (ticket : ℕ) (g : Signals)
      → AllHeard depos g
      → mem ticket g.blocked ≡ false
      → AllHeard depos (reset_ticket ticket g)
  reset_unused depos ticket g w u = signals_only depos g (reset_ticket ticket g) w (λ x b.
      let other : (x == ticket) ≡ false = elim (Bool-cases (x == ticket)) [
        | inl e ↦ absurd (
            let same : x ≡ ticket = ground (arith, e) in
            cc (sym b ∙ ap (λ t. mem t g.blocked) same ∙ u))
        | inr e ↦ e
      ] in
      (b, λ t. rw other t))

  pub round_heard :
      (capacity n : ℕ) (value : A) (ticket k : ℕ) (c : QueueCache A) (d : Depo A) (xs : List A)
      (rs ds : List (List A)) (ws : List ℕ) (depos : List (Depo A)) (g : Signals) (a : Attempt)
      (c' : QueueCache A) (d' : Depo A)
      → get_elem? depos k ≡ some d
      → AllHeard depos g
      → Holds d.waiting ws
      → ((ws : List ℕ) → Holds d.waiting ws → Came capacity n value ticket c d xs rs ds ws a c' d')
      → AllHeard (set depos k d') (after_round ticket a g)
  round_heard capacity n value ticket k c d xs rs ds ws depos g accepted c' d' e w v came =
      depo_only depos k d d' g e w (ap (λ z. z.waiting) (came ws v).2)
  round_heard capacity n value ticket k c d xs rs ds ws depos g handed_over c' d' e w v came =
      depo_only depos k d d' g e w (came ws v).4
  round_heard capacity n value ticket k c d xs rs ds ws depos g must_wait c' d' e w v came =
      changed depos k d d' g (record g { blocked = ticket ∷ g.blocked }) e w
        (λ x b. elim (Bool-cases (x == ticket)) [
          | inl f ↦ inr (ws ++ ticket ∷ [], (came ws v).4, ground (arith, mem-last x ticket ws, f))
          | inr f ↦ inl (
            ground (arith, b, f),
            λ t. t,
            λ (us, u, m).
                inr (us ++ ticket ∷ [], (came us u).4, ground (arith, mem-last x ticket us, m)),
          )
        ])

  -- A ticket that stood at the depo was taken out as the first one, or still stands there.
  popped :
      (x : ℕ) (o : Option ℕ) (d' : Depo A) (g : Signals) (us : List ℕ)
      → o ≡ first us
      → Holds d'.waiting (others us)
      → mem x us ≡ true
      → (((after_fetch o g).ready x || mem x (after_fetch o g).owed) ≡ true) ⊎ Stands x d'
  popped x o d' g [] e v m = absurd (cc m)
  popped x o d' g (u ∷ us) e v m = elim (Bool-cases (mem x us)) [
    | inl f ↦ inr (us, v, f)
    | inr f ↦ inl (
        subst (λ z. ((after_fetch z g).ready x || mem x (after_fetch z g).owed) ≡ true) (sym e)
          (ground (arith, m, f)))
  ]

  pub fetch_heard :
      (capacity n head k : ℕ) (d : Depo A) (rs ds : List (List A)) (ws : List ℕ)
      (depos : List (Depo A)) (g : Signals) (r : Option ℕ × Depo A)
      → get_elem? depos k ≡ some d
      → AllHeard depos g
      → Holds d.waiting ws
      → ((ws : List ℕ) → Holds d.waiting ws → Fetched capacity n head d rs ds ws r)
      → AllHeard (set depos k r.1) (after_fetch r.0 g)
  fetch_heard capacity n head k d [] ds ws depos g r e w v got =
      subst (λ z. AllHeard (set depos k z.1) (after_fetch z.0 g)) (sym (got ws v))
        (depo_only depos k d d g e w refl)
  fetch_heard capacity n head k d (xs ∷ rs) ds ws depos g r e w v got =
      changed depos k d r.1 g (after_fetch r.0 g) e w (λ x b.
        let (m, kept) = after_fetch-keeps x r.0 g b in
        inl (m, kept, λ (us, u, t). let h = got us u in popped x r.0 r.1 g us h.0 h.2 t))

  -- A call that gives up is not one that waits any more.
  pub unwait_heard :
      (ticket k : ℕ) (d d' : Depo A) (depos : List (Depo A)) (g : Signals)
      → get_elem? depos k ≡ some d
      → AllHeard depos g
      → ((ws : List ℕ)
          → Holds d.waiting ws
          → Holds d'.waiting (failing (λ other. ticket == other) ws))
      → AllHeard (set depos k d') (record g { blocked = without ticket g.blocked })
  unwait_heard ticket k d d' depos g e w got =
      changed depos k d d' g (record g { blocked = without ticket g.blocked }) e w
        (λ x b.
          let q = mem-without x ticket g.blocked in
          let others_only : (ticket == x) ≡ false = ground (arith, b, q) in
          inl (
            ground (arith, b, q),
            λ t. t,
            λ (us, u, m). inr (
              without ticket us,
              got us u,
              ground (arith, mem-without x ticket us, others_only, m),
            ),
          ))

  pub woken :
      (ticket : ℕ) (depos : List (Depo A)) (g : Signals)
      → AllHeard depos g
      → AllHeard depos (wake_ticket ticket (record g { owed = remove_one ticket g.owed }))
  woken ticket depos g w =
      signals_only depos g (wake_ticket ticket (record g { owed = remove_one ticket g.owed })) w
        (λ x b. (
          b,
          λ t. elim (Bool-cases (ticket == x)) [
            | inl e ↦ ground (arith, e)
            | inr e ↦ ground (arith, t, e, mem-remove_one x ticket g.owed e)
          ],
        ))

  pub resumed :
      (ticket : ℕ) (depos : List (Depo A)) (g : Signals)
      → AllHeard depos g
      → AllHeard depos (reset_ticket ticket (record g { blocked = without ticket g.blocked }))
  resumed ticket depos g w =
      signals_only depos g (reset_ticket ticket (record g { blocked = without ticket g.blocked })) w
        (λ x b.
          let q = mem-without x ticket g.blocked in
          (ground (arith, b, q), λ t. ground (arith, b, q, t)))
