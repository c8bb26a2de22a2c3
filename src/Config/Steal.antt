-- ===== src/Config/Steal.antt =====
-- What a new node takes from the entries below it, in `Configuration::insert( priority, policy )` of
-- source/Configuration.cpp.
use dynalog.Base.{
  ℕ, ◌≡◌, refl, sym, ◌∙◌, ap, true, false, not, ◌&&◌, ◌||◌, List, [], ◌∷◌, ◌++◌, mem, ◌==◌, arith,
  Bool-cases, inl, inr, subst,
}
use dynalog.Base.Int.{ℤ}
use dynalog.Levels.{Logger}
use dynalog.Config.Policy.{Policy, Heap}
use dynalog.Config.Node.{Node, assume}
use dynalog.Config.Store.{Entry, Place, with_node, steal_loop}
use dynalog.Config.Arbitration.{
  manages, managed, inserting, taken, selects, selected, AllQuiet, Arbitrated, WillBeArbitrated,
  Configured, keys,
}
use dynalog.Config.NodeLaws.{Assumed, assume_lem, Updated}
use dynalog.Config.NodeUses.{
  Updated-configured, selects_alike, Configured-vacuous, selected_of_managed,
}
use dynalog.Config.UpdateLoop.{UpdatedAll}
use dynalog.Config.Keys.{has_key}
use dynalog.Config.Parts.{
  keys-append, managed-append, AllQuiet-append, Configured-append, Arbitrated-append,
}
use dynalog.Config.Places.{installed, installed_at}

module _ (store : ℕ → Policy) where
  -- What the entries below lose to the new node.
  pub record Stolen (n : Node) (es : List Entry) (r : Node × List Entry × List ℕ) : Type 0 where
    pub policy : r.0.policy ≡ n.policy
    pub manage : r.0.changes.manage ≡ n.changes.manage
    pub inserted :
        (k : ℕ)
        → mem k r.0.changes.inserted
          ≡ ((managed k es && selects store k n) || mem k n.changes.inserted)
    pub sorted : keys r.1 ≡ keys es
    pub selecting : (k : ℕ) → selected store k r.1 ≡ selected store k es
    pub calm : (k : ℕ) → inserting k r.1 ≡ false
    pub left : (k : ℕ) → taken k r.1 ≡ (not (selects store k n) && managed k es)
    pub arbitrated : (k : ℕ) → Arbitrated store k es → WillBeArbitrated store k r.1
    pub configured : (k : ℕ) (v : Logger) → Configured store k es v → Configured store k r.1 v
    pub clean : r.2 ≡ []

  steal_loop_cons :
      (n : Node) (e : Entry) (es : List Entry) (s : Node × Node × List ℕ)
      (r : Node × List Entry × List ℕ)
      → AllQuiet (e ∷ es)
      → Assumed store n e.node s
      → Stolen s.0 es r
      → Stolen n (e ∷ es) (r.0, with_node e s.1 ∷ r.1, r.2)
  steal_loop_cons n e es s r q a o = record {
    policy = o.policy ∙ a.policy;
    manage = o.manage ∙ a.manage;
    inserted = λ k. ground (arith, o.inserted k, alike k, a.inserted k);
    sorted = ap (λ ks. e.priority ∷ ks) o.sorted;
    selecting = λ k. ground (arith, other_alike k, o.selecting k);
    calm = λ k. ground (arith, calm k, o.calm k);
    left = λ k. ground (arith, calm k, o.left k, a.other_manage k, alike k);
    arbitrated = λ k p. (
      λ m. other_alike k ∙ ground (arith, calm k, a.other_manage k, p.0),
      λ m. other_alike k ∙ ground (arith, o.left k, p.1),
      o.arbitrated k p.2,
    );
    configured = λ k v c.
        (λ m. rw a.other_policy (ground (arith, a.other_manage k, c.0)), o.configured k v c.1);
    clean = o.clean;
  }
    where
      alike : (k : ℕ) → selects store k s.0 ≡ selects store k n
      alike k = selects_alike store s.0 n k a.policy

      other_alike : (k : ℕ) → selects store k s.1 ≡ selects store k e.node
      other_alike k = selects_alike store s.1 e.node k a.other_policy

      calm : (k : ℕ) → mem k s.1.changes.inserted ≡ false
      calm k = ap (mem k) (a.other_inserted ∙ q.0.no_insert)

  pub steal_loop_lem :
      (n : Node) (es : List Entry) → AllQuiet es → Stolen n es (steal_loop store n es [])
  unfolding steal_loop
  steal_loop_lem n [] q = record {
    policy = refl;
    manage = refl;
    inserted = λ k. refl;
    sorted = refl;
    selecting = λ k. refl;
    calm = λ k. refl;
    left = λ k. ground arith;
    arbitrated = λ k p. p;
    configured = λ k v c. c;
    clean = refl;
  }
  steal_loop_lem n (e ∷ es) q =
      let s = assume store n e.node [] in
      let a = assume_lem store n e.node in
      rw a.clean
        (steal_loop_cons n e es s (steal_loop store s.0 es []) q a (steal_loop_lem s.0 es q.1))

  -- The map with the new node at its place, after the updates.
  pub record Placed (priority : ℤ) (n : Node) (p : Place) (h : Heap) (r : List Entry × Heap)
      : Type 0 where
    pub quiet : AllQuiet r.0
    pub sorted : keys r.0 ≡ keys p.above ++ priority ∷ keys p.below
    pub managing : (k : ℕ) → managed k r.0 ≡ managed k (p.above ++ p.below)
    pub arbitrated : (k : ℕ) → Arbitrated store k r.0
    pub configured : (k : ℕ) → Configured store k r.0 (r.1 k)
    pub untouched : (k : ℕ) → selects store k n ≡ false → r.1 k ≡ h k
    pub found :
        (policy : ℕ)
        → has_key priority (keys p.above) ≡ false
        → installed priority policy r.0 ≡ (n.policy == policy)

  module _ (priority : ℤ) (n : Node) (p : Place) (h : Heap) (fresh_insert : n.changes.inserted ≡ [])
      (fresh_manage : n.changes.manage ≡ []) (q : AllQuiet (p.above ++ p.below))
      (arb : (k : ℕ) → Arbitrated store k (p.above ++ p.below))
      (conf : (k : ℕ) → Configured store k (p.above ++ p.below) (h k))
      (s : Node × List Entry × List ℕ) (o : Stolen n p.below s) (u : List Entry × Heap)
      (y : UpdatedAll store s.1 h u) (w : Node × Heap) (x : Updated store s.0 u.1 w) where
    both :
        (k : ℕ)
        → Arbitrated store k p.above
          × (managed k p.below ≡ true → selected store k p.above ≡ false)
          × Arbitrated store k p.below
    both k = (Arbitrated-append store k p.above p.below).0 (arb k)

    conf_both : (k : ℕ) → Configured store k p.above (h k) × Configured store k p.below (h k)
    conf_both k = (Configured-append store k p.above p.below (h k)).0 (conf k)

    alike : (k : ℕ) → selects store k w.0 ≡ selects store k n
    alike k = selects_alike store w.0 n k (x.policy ∙ o.policy)

    stolen : (k : ℕ) → mem k s.0.changes.inserted ≡ (managed k p.below && selects store k n)
    stolen k = ground (arith, o.inserted k, fresh_insert)

    none_managed : (k : ℕ) → manages k s.0 ≡ false
    none_managed k = ap (mem k) (o.manage ∙ fresh_manage)

    taking : (k : ℕ) → manages k w.0 ≡ (managed k p.below && selects store k n)
    taking k = ground (arith, x.manage k, stolen k, none_managed k)

    keeping : (k : ℕ) → managed k u.0 ≡ (not (selects store k n) && managed k p.below)
    keeping k = y.managing k ∙ o.left k

    before : (k : ℕ) → u.1 k ≡ h k
    before k = y.idle k (o.configured k (h k) (conf_both k).1) (o.calm k)

    same : (k : ℕ) → managed k p.below && selects store k n ≡ false → w.1 k ≡ h k
    same k f = x.written k (λ m. cc (none_managed k, m)) ∙ rw (stolen k, f) (before k)

    not_above : (k : ℕ) → managed k p.below ≡ true → managed k p.above ≡ false
    not_above k m = ground (arith, (both k).1 m, selected_of_managed store k p.above (both k).0)

    placed-Arbitrated :
        (k : ℕ) → Arbitrated store k (p.above ++ record { priority = priority; node = w.0 } ∷ u.0)
    placed-Arbitrated k = (Arbitrated-append store k p.above _).1 (
      (both k).0,
      λ m. (both k).1 (ground (arith, taking k, keeping k)),
      (
        λ m. alike k ∙ ground (arith, taking k),
        λ m. alike k ∙ ground (arith, keeping k),
        y.arbitrated k (o.arbitrated k (both k).2),
      ),
    )

    placed-Configured :
        (k : ℕ)
        → Configured store k (p.above ++ record { priority = priority; node = w.0 } ∷ u.0) (w.1 k)
    placed-Configured k = (Configured-append store k p.above _ (w.1 k)).1 (
      elim (Bool-cases (managed k p.below && selects store k n)) [
        | inl t ↦ Configured-vacuous store k p.above _ (not_above k (ground arith))
        | inr f ↦ subst (Configured store k p.above) (sym (same k f)) (conf_both k).0
      ],
      (
        λ m. Updated-configured store x k (λ t. cc (none_managed k, t)) m,
        elim (Bool-cases (managed k p.below && selects store k n)) [
          | inl t ↦ Configured-vacuous store k u.0 _ (ground (arith, keeping k))
          | inr f ↦ subst (Configured store k u.0) (before k ∙ sym (same k f)) (
              y.written k (y.arbitrated k (o.arbitrated k (both k).2))
                (o.configured k (h k) (conf_both k).1))
        ],
      ),
    )

    pub placed :
        Placed priority n p h (p.above ++ record { priority = priority; node = w.0 } ∷ u.0, w.1)
    placed = record {
      quiet =
          (AllQuiet-append p.above _).1
            (((AllQuiet-append p.above p.below).0 q).0, (x.quiet, y.quiet));
      sorted =
          keys-append p.above _ ∙ ap (λ ks. keys p.above ++ priority ∷ ks) (y.sorted ∙ o.sorted);
      managing = λ k.
          managed-append k p.above _
          ∙ ground (arith, managed-append k p.above p.below, taking k, keeping k);
      arbitrated = placed-Arbitrated;
      configured = placed-Configured;
      untouched = λ k f. same k (ground arith);
      found = λ policy f.
          installed_at p.above priority w.0 u.0 policy f
          ∙ ap (λ i. i == policy) (x.policy ∙ o.policy);
    }
