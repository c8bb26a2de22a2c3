-- ===== src/Bootstrap/Handover.antt =====
-- The first message of an embedded logger, through `BootstrapEmitter` of source/Log.cpp.
use dynalog.Base.{
  ℕ, zero, suc, ◌≡◌, ◌≢◌, refl, ap, sym, ◌∙◌, subst, Bool, true, false, List, [], ◌∷◌, ◌++◌,
  append_assoc, Option, none, some, ◌==◌, if◌then◌else◌, get_elem?, length, length-append, ◌>>=◌,
  arith, Returns, Bool-cases, inl, inr, ◌↔◌, ==_refl,
}
use dynalog.Levels.{Bits, Logger, get, route}
use dynalog.Config.Policy.{Policy, Heap}
use dynalog.Config.Store.{Entry, Configuration, insert_logger}
use dynalog.Config.Arbitration.{managed, manages, selected, Configured, IsValid, IsConfigured}
use dynalog.Config.InsertLogger.{insert_logger_lem, insert_logger_unmatched}
use dynalog.Message.Body.{is_type}
use dynalog.Message.Body.Elements.{reflect_lem, get_elem?-append}
use dynalog.Bootstrap.{recheck, emit}

module _ {ℓ} {V : Type ℓ} (type_of : V → ℕ) (level_type : ℕ) (level_of : V → ℕ) where
  -- The level of a message: that of its first element that is a level.
  abbrev pub level_in : List V → Option ℕ
  level_in [] = none
  level_in (v ∷ vs) = if type_of v == level_type then some (level_of v) else level_in vs

  abbrev allowed : Bits → Option ℕ → Option Bool
  allowed levels none = some true
  allowed levels (some level) = get levels level

  -- A reflection answers to `Level` exactly if its element is one.
  answer :
      (y : V) (o : Option V) (b : Bool)
      → o ≡ some y
      → (b ≡ true) ↔ ((v : V) × (o ≡ some v) × (type_of v ≡ level_type))
      → b ≡ (type_of y == level_type)
  answer y o true e iff =
      let p = iff.0 refl in
      let same : y ≡ p.0 = ap (λ x. elim x [ none ↦ y | some w ↦ w ]) (sym e ∙ p.1) in
      let t : type_of y ≡ level_type = ap type_of same ∙ p.2 in ground (arith, t)
  answer y o false e iff = elim (Bool-cases (type_of y == level_type)) [
    | inl t ↦ absurd (let u = iff.1 (y, e, ground arith) in cc u)
    | inr f ↦ sym f
  ]

  recheck_from :
      (levels : Bits) (xs ys : List V)
      → recheck type_of level_type level_of (length ys) (length xs) levels (xs ++ ys)
        ≡ allowed levels (level_in ys)
  unfolding recheck
  recheck_from levels xs [] = refl
  recheck_from levels xs (y ∷ ys) =
      let (r, e, q) = reflect_lem type_of (xs ++ y ∷ ys) (length xs) in
      let there = get_elem?-append xs ys y in
      let a =
        answer y (get_elem? (xs ++ y ∷ ys) (length xs)) (is_type type_of level_type r) there
          (q.1 level_type) in
      elim (Bool-cases (is_type type_of level_type r)) [
        | inl i ↦
            let t : (type_of y == level_type) ≡ true = sym a ∙ i in
            rw (e, ◌>>=◌, i, q.2 level_type i ∙ there, t) refl
        | inr i ↦
            let t : (type_of y == level_type) ≡ false = sym a ∙ i in
            rw (e, ◌>>=◌, i, t) (next (recheck_from levels (xs ++ y ∷ []) ys))
      ]
    where
      next :
          recheck type_of level_type level_of
              (length ys)
              (length (xs ++ y ∷ []))
              levels
              ((xs ++ y ∷ []) ++ ys)
            ≡ allowed levels (level_in ys)
          → recheck type_of level_type level_of (length ys) (suc (length xs)) levels (xs ++ y ∷ ys)
            ≡ allowed levels (level_in ys)
      next h =
          subst
            (λ n.
              recheck type_of level_type level_of (length ys) n levels (xs ++ y ∷ ys)
              ≡ allowed levels (level_in ys))
            (length-append xs (y ∷ []) ∙ omega arith)
            (subst
              (λ vs.
                recheck type_of level_type level_of (length ys) (length (xs ++ y ∷ [])) levels vs
                ≡ allowed levels (level_in ys))
              (append_assoc xs (y ∷ []) ys) h)

  recheck_lem :
      (levels : Bits) (elements : List V)
      → recheck type_of level_type level_of (length elements) 0 levels elements
        ≡ allowed levels (level_in elements)
  recheck_lem levels elements = recheck_from levels [] elements

-- A managed logger has the settings of some policy.
settings_of :
    (store : ℕ → Policy) (l : ℕ) (es : List Entry) (v : Logger)
    → managed l es ≡ true
    → Configured store l es v
    → (p : ℕ) × ((store p).settings v ≡ v)
settings_of store l [] v m c = absurd (cc m)
settings_of store l (e ∷ es) v m c = elim (Bool-cases (manages l e.node)) [
  | inl t ↦ (e.node.policy, c.0 t)
  | inr f ↦ settings_of store l es v (ground (arith, f, m)) c.1
]

module _ {ℓ} {V : Type ℓ} (type_of : V → ℕ) (level_type : ℕ) (level_of : V → ℕ) (store : ℕ → Policy)
    (bootstrapper : ℕ) where
  -- What the first call of `emit` is to do, where `r` is the result of the insertion.
  abbrev HandedOver : ℕ → ℕ → Bool × Configuration × Heap → Option ℕ × Configuration × Heap → Type 0
  HandedOver l level r d = (route (r.2 l) level ≡ some d.0) × (d.1 ≡ r.1) × (d.2 ≡ r.2)

  -- One call of `emit`, where the emitter that the logger is given is not the bootstrapper.
  emit_once :
      (l level : ℕ) (elements : List V) (c : Configuration) (h : Heap) (enabled : Bool)
      (emitter : Option ℕ)
      → level_in type_of level_type level_of elements ≡ some level
      → get ((insert_logger store l c h).2 l).levels level ≡ some enabled
      → ((insert_logger store l c h).2 l).emitter ≡ emitter
      → emitter ≢ some bootstrapper
      → Returns
          (emit type_of level_type level_of store bootstrapper 1 l elements c h)
          (HandedOver l level (insert_logger store l c h))
  unfolding emit route
  emit_once l level elements c h enabled emitter e g q n = at enabled emitter g q n
    where
      r : Bool × Configuration × Heap
      r = insert_logger store l c h

      passes :
          (b : Bool)
          → get (r.2 l).levels level ≡ some b
          → recheck type_of level_type level_of (length elements) 0 (r.2 l).levels elements ≡ some b
      passes b g =
          recheck_lem type_of level_type level_of (r.2 l).levels elements
          ∙ ap (allowed type_of level_type level_of (r.2 l).levels) e
          ∙ g

      at :
          (b : Bool) (x : Option ℕ)
          → get (r.2 l).levels level ≡ some b
          → (r.2 l).emitter ≡ x
          → x ≢ some bootstrapper
          → Returns
              (emit type_of level_type level_of store bootstrapper 1 l elements c h)
              (HandedOver l level r)
      at false none g q n =
          ((none, r.1, r.2), rw (passes false g, ◌>>=◌) refl, (rw (route, q) refl, refl, refl))
      at false (some x) g q n =
          ((none, r.1, r.2), rw (passes false g, ◌>>=◌) refl, (rw (route, q, g) refl, refl, refl))
      at true none g q n =
          ((none, r.1, r.2), rw (passes true g, ◌>>=◌, q) refl, (rw (route, q) refl, refl, refl))
      at true (some x) g q n = (
        (some x, r.1, r.2),
        rw (passes true g, ◌>>=◌, q, other) refl,
        (rw (route, q, g) refl, refl, refl),
      )
        where
          other : (x == bootstrapper) ≡ false
          other = elim (Bool-cases (x == bootstrapper)) [
            | inl t ↦ absurd (n (ap some (ground arith)))
            | inr f ↦ f
          ]

  -- Where some policy selects the logger, and every policy sets an emitter other than the
  -- bootstrapper and levels that have the message's level, one call of `emit` ends. The logger is
  -- managed then, in a configuration that is valid and whose settings are written; and the message
  -- went exactly where the logger's fast path sends messages of that level from now on.
  pub emit_lem :
      (l level : ℕ) (elements : List V) (c : Configuration) (h : Heap)
      → IsValid store c
      → IsConfigured store c h
      → selected store l c.policies ≡ true
      → level_in type_of level_type level_of elements ≡ some level
      → ((p : ℕ) (v : Logger) → ((store p).settings v).emitter ≢ some bootstrapper)
      → ((p : ℕ) (v : Logger) → (b : Bool) × (get ((store p).settings v).levels level ≡ some b))
      → Returns (emit type_of level_type level_of store bootstrapper 1 l elements c h) (λ d.
        IsValid store d.1
        × IsConfigured store d.1 d.2
        × (managed l d.1.policies ≡ true)
        × (route (d.2 l) level ≡ some d.0))
  emit_lem l level elements c h v w s e away known =
      let i = insert_logger_lem store l c h v w in
      let m : managed l (insert_logger store l c h).1.policies ≡ true = i.3 l ∙ ground (arith, s) in
      let (p, set) = settings_of store l (insert_logger store l c h).1.policies _ m (i.2 l) in
      let (b, g) = known p ((insert_logger store l c h).2 l) in
      let (d, q, k) =
        emit_once l level elements c h b (((insert_logger store l c h).2 l).emitter) e
          (ap (λ x. get x.levels level) (sym set) ∙ g) refl
          (λ t. away p ((insert_logger store l c h).2 l) (ap (λ x. x.emitter) set ∙ t)) in
      (d, q, ended l level elements c h d k i.1 i.2 m)
    where
      ended :
          (l level : ℕ) (elements : List V) (c : Configuration) (h : Heap)
          (d : Option ℕ × Configuration × Heap)
          → HandedOver l level (insert_logger store l c h) d
          → IsValid store (insert_logger store l c h).1
          → IsConfigured store (insert_logger store l c h).1 (insert_logger store l c h).2
          → managed l (insert_logger store l c h).1.policies ≡ true
          → IsValid store d.1
            × IsConfigured store d.1 d.2
            × (managed l d.1.policies ≡ true)
            × (route (d.2 l) level ≡ some d.0)
      ended l level elements c h d k v w m = rw (k.1, k.2) (v, w, m, k.0)

  -- Where no policy selects the logger, which still has the bootstrapper and has the message's level
  -- enabled, `emit` calls itself without end: no fuel is enough.
  pub emit_unmatched :
      (fuel l level : ℕ) (elements : List V) (c : Configuration) (h : Heap)
      → c.scratch ≡ []
      → selected store l c.policies ≡ false
      → (h l).emitter ≡ some bootstrapper
      → level_in type_of level_type level_of elements ≡ some level
      → get (h l).levels level ≡ some true
      → emit type_of level_type level_of store bootstrapper fuel l elements c h ≡ none
  unfolding emit
  emit_unmatched zero l level elements c h z s b e g = refl
  emit_unmatched (suc fuel) l level elements c h z s b e g =
      rw (same, passes, ◌>>=◌, same, b, ==_refl bootstrapper, same)
        (emit_unmatched fuel l level elements c h z s b e g)
    where
      same : insert_logger store l c h ≡ (false, c, h)
      same = insert_logger_unmatched store l c h z s

      passes :
          recheck type_of level_type level_of (length elements) 0 (h l).levels elements ≡ some true
      passes =
          recheck_lem type_of level_type level_of (h l).levels elements
          ∙ ap (allowed type_of level_type level_of (h l).levels) e
          ∙ g
