-- ===== src/Config/Settle.antt =====
-- One logger through `Configuration::rescan( priority )` of source/Configuration.cpp: the entries
-- above, the node and the entries below, before and after.
use dynalog.Base.{
  ℕ, ◌≡◌, refl, sym, ◌∙◌, ap, true, false, not, ◌&&◌, ◌||◌, List, [], ◌∷◌, ◌++◌, mem, if◌then◌else◌,
  arith, Bool-cases, inl, inr, subst,
}
use dynalog.Base.Int.{ℤ}
use dynalog.Levels.{Logger}
use dynalog.Config.Policy.{Policy, Heap}
use dynalog.Config.Node.{Node}
use dynalog.Config.Store.{Entry, Place}
use dynalog.Config.Arbitration.{
  manages, managed, inserting, selects, selected, AllQuiet, Arbitrated, ArbitratedBut, Configured,
  ConfiguredBut, keys,
}
use dynalog.Config.NodeLaws.{Rescanned}
use dynalog.Config.NodeUses.{selects_alike, Configured-vacuous, selected_of_managed}
use dynalog.Config.UpdateLoop.{UpdatedAll}
use dynalog.Config.Scan.{Scanned}
use dynalog.Config.Keys.{has_key}
use dynalog.Config.Parts.{
  keys-append, managed-append, AllQuiet-append, selected-append, Configured-append,
  Arbitrated-append,
}

module _ (store : ℕ → Policy) where
  -- The entries above, the node, and the entries below, of one logger.
  abbrev pub Parts : ℕ → Place → Type 0
  Parts k p =
      Arbitrated store k p.above
      × (manages k p.node || managed k p.below ≡ true → selected store k p.above ≡ false)
      × (managed k p.below ≡ true → manages k p.node ≡ false)
      × Arbitrated store k p.below

  Arbitrated-but :
      (priority : ℤ) (k : ℕ) (es : List Entry)
      → has_key priority (keys es) ≡ false
      → ArbitratedBut store priority k es
      → Arbitrated store k es
  Arbitrated-but priority k [] f p = tt
  Arbitrated-but priority k (e ∷ es) f p =
      (p.0 (ground arith), p.1 (ground arith), Arbitrated-but priority k es (ground arith) p.3)

  Configured-but :
      (priority : ℤ) (k : ℕ) (es : List Entry) (v : Logger)
      → has_key priority (keys es) ≡ false
      → ConfiguredBut store priority k es v
      → Configured store k es v
  Configured-but priority k [] v f p = tt
  Configured-but priority k (e ∷ es) v f p =
      (p.0 (ground arith), Configured-but priority k es v (ground arith) p.1)

  pub Parts-but :
      (priority : ℤ) (k : ℕ) (above : List Entry) (n : Node) (below : List Entry)
      → has_key priority (keys above) ≡ false
      → has_key priority (keys below) ≡ false
      → ArbitratedBut store priority k (above ++ record { priority = priority; node = n } ∷ below)
      → Parts k (record { above = above; node = n; below = below })
  Parts-but priority k [] n below f g p =
      (tt, λ m. refl, λ m. ground (arith, p.2), Arbitrated-but priority k below g p.3)
  Parts-but priority k (e ∷ above) n below f g p =
      let (a, b, c, d) = Parts-but priority k above n below (ground arith) g p.3 in
      let split = managed-append k above (record { priority = priority; node = n } ∷ below) in
      (
        (p.0 (ground arith), λ m. p.1 (ground arith) (ground (arith, split)), a),
        λ m. ground (arith, b, p.1, split),
        c,
        d,
      )

  pub Configured-parts :
      (priority : ℤ) (k : ℕ) (v : Logger) (above : List Entry) (n : Node) (below : List Entry)
      → has_key priority (keys above) ≡ false
      → has_key priority (keys below) ≡ false
      → ConfiguredBut store priority k (above ++ record { priority = priority; node = n } ∷ below) v
      → Configured store k above v × Configured store k below v
  Configured-parts priority k v [] n below f g p = (tt, Configured-but priority k below v g p.1)
  Configured-parts priority k v (e ∷ above) n below f g p =
      let (a, b) = Configured-parts priority k v above n below (ground arith) g p.1 in
      ((p.0 (ground arith), a), b)

  -- The map after the rescan of the node at one priority.
  pub record Settled (priority : ℤ) (p : Place) (r : List Entry × Heap) : Type 0 where
    pub quiet : AllQuiet r.0
    pub sorted : keys r.0 ≡ keys p.above ++ priority ∷ keys p.below
    pub managing :
        (k : ℕ)
        → managed k r.0
          ≡ ((managed k p.above || manages k p.node || managed k p.below) && selected store k r.0)
    pub arbitrated : (k : ℕ) → Arbitrated store k r.0
    pub configured : (k : ℕ) → Configured store k r.0 (r.1 k)

  module _ (priority : ℤ) (p : Place) (h : Heap) (q : AllQuiet p.above × AllQuiet p.below)
      (no_insert : p.node.changes.inserted ≡ []) (arb : (k : ℕ) → Parts k p)
      (conf : (k : ℕ) → Configured store k p.above (h k) × Configured store k p.below (h k))
      (a : Node × List ℕ) (x : Rescanned store p.node a) (s : Node × List Entry × List ℕ)
      (o : Scanned store a.0 p.below a.0.changes.removed s) (n1 : Node) (h1 : Heap)
      (n1_policy : n1.policy ≡ s.0.policy) (n1_manage : (k : ℕ) → manages k n1 ≡ manages k s.0)
      (first : (k : ℕ) → manages k s.0 ≡ false → h1 k ≡ h k) (u : List Entry × Heap)
      (y : UpdatedAll store s.1 h1 u) (n2 : Node) (h3 : Heap) (n2_policy : n2.policy ≡ n1.policy)
      (n2_quiet : AllQuiet (record { priority = priority; node = n2 } ∷ []))
      (n2_manage : (k : ℕ) → manages k n2 ≡ (mem k s.0.changes.inserted || manages k n1))
      (last : (k : ℕ)
        → h3 k ≡ (
            if mem k s.0.changes.inserted || manages k n1
            then (store n1.policy).settings (u.1 k)
            else u.1 k)) where
    same_policy : n2.policy ≡ p.node.policy
    same_policy = n2_policy ∙ n1_policy ∙ o.policy ∙ x.policy

    alike : (k : ℕ) → selects store k n2 ≡ selects store k p.node
    alike k = selects_alike store n2 p.node k same_policy

    a_alike : (k : ℕ) → selects store k a.0 ≡ selects store k p.node
    a_alike k = selects_alike store a.0 p.node k x.policy

    old : (k : ℕ) → manages k s.0 ≡ (manages k p.node && selects store k p.node)
    old k = ap (mem k) o.manage ∙ x.manage k

    now :
        (k : ℕ) → manages k n2 ≡ ((managed k p.below || manages k p.node) && selects store k p.node)
    now k = ground (
      arith,
      n2_manage k,
      n1_manage k,
      old k,
      o.inserted k,
      a_alike k,
      ap (mem k) x.inserted,
      ap (mem k) no_insert,
    )

    orphan :
        (k : ℕ) → mem k a.0.changes.removed ≡ (manages k p.node && not (selects store k p.node))
    orphan k = x.removed k

    below :
        (k : ℕ)
        → managed k u.0 ≡ (
            (manages k p.node && not (selects store k p.node) && selected store k p.below)
            || (not (selects store k p.node) && managed k p.below))
    below k = ground (arith, y.managing k, o.taking k, orphan k, a_alike k)

    below-Arbitrated : (k : ℕ) → Arbitrated store k u.0
    below-Arbitrated k = y.arbitrated k (o.arbitrated k (arb k).3)

    selecting : (k : ℕ) → selected store k u.0 ≡ selected store k p.below
    selecting k = y.selecting k ∙ o.selecting k

    abbrev final : List Entry
    final = p.above ++ record { priority = priority; node = n2 } ∷ u.0

    managing :
        (k : ℕ)
        → managed k final
          ≡ ((managed k p.above || manages k p.node || managed k p.below) && selected store k final)
    managing k =
        managed-append k p.above (record { priority = priority; node = n2 } ∷ u.0)
        ∙ ground (
          arith,
          now k,
          below k,
          alike k,
          selected-append store k p.above (record { priority = priority; node = n2 } ∷ u.0),
          selecting k,
          selected_of_managed store k p.above (arb k).0,
          selected_of_managed store k p.below (arb k).3,
          (arb k).1,
        )

    arbitrated : (k : ℕ) → Arbitrated store k final
    arbitrated k = (Arbitrated-append store k p.above _).1 (
      (arb k).0,
      λ m. (arb k).1 (ground (arith, now k, below k)),
      (
        λ m. alike k ∙ ground (arith, now k),
        λ m. alike k ∙ ground (arith, below k),
        below-Arbitrated k,
      ),
    )

    -- A logger that neither stays nor comes keeps its settings in the last step.
    kept : (k : ℕ) → manages k n2 ≡ false → h3 k ≡ u.1 k
    kept k f = last k ∙ ground (arith, n2_manage k)

    before : (k : ℕ) → manages k n2 ≡ false → Configured store k s.1 (h1 k)
    before k f =
        subst (Configured store k s.1) (sym (first k (ground (arith, now k, old k))))
          (o.configured k (h k) (conf k).1)

    not_above : (k : ℕ) → (manages k p.node || managed k p.below) ≡ true → managed k p.above ≡ false
    not_above k m = ground (arith, (arb k).1 m, selected_of_managed store k p.above (arb k).0)

    Configured-owned : (k : ℕ) → manages k n2 ≡ true → Configured store k final (h3 k)
    Configured-owned k m = (Configured-append store k p.above _ (h3 k)).1 (
      Configured-vacuous store k p.above _ (not_above k (ground (arith, now k))),
      (
        λ t. rw (n2_policy, last k, ← n2_manage k, m) ((store n1.policy).settings-settings (u.1 k)),
        Configured-vacuous store k u.0 _ (ground (arith, now k, below k)),
      ),
    )

    Configured-above : (k : ℕ) → manages k n2 ≡ false → Configured store k p.above (h3 k)
    Configured-above k f = elim (Bool-cases (inserting k s.1)) [
      | inl t ↦
          Configured-vacuous store k p.above _
            (not_above k (ground (arith, o.inserting_eq k, orphan k)))
      | inr i ↦
          subst (Configured store k p.above)
            (sym (kept k f ∙ y.idle k (before k f) i ∙ first k (ground (arith, now k, old k))))
            (conf k).0
    ]

    Configured-other : (k : ℕ) → manages k n2 ≡ false → Configured store k final (h3 k)
    Configured-other k f = (Configured-append store k p.above _ (h3 k)).1 (
      Configured-above k f,
      (
        λ t. cc,
        subst (Configured store k u.0) (sym (kept k f))
            (y.written k (below-Arbitrated k) (before k f)),
      ),
    )

    pub settled : Settled priority p (final, h3)
    settled = record {
      quiet = (AllQuiet-append p.above _).1 (q.0, (n2_quiet.0, y.quiet));
      sorted =
          keys-append p.above _ ∙ ap (λ ks. keys p.above ++ priority ∷ ks) (y.sorted ∙ o.sorted);
      managing = managing;
      arbitrated = arbitrated;
      configured = λ k. elim (Bool-cases (manages k n2)) [
        | inl m ↦ Configured-owned k m
        | inr f ↦ Configured-other k f
      ];
    }
