-- ===== src/Config/Yield.antt =====
-- What the entries below a removed node take over, in `Configuration::remove( priority, policy )` of
-- source/Configuration.cpp.
use dynalog.Base.{
  ℕ, ◌≡◌, refl, sym, ◌∙◌, ap, true, false, not, ◌&&◌, ◌||◌, List, [], ◌∷◌, ◌++◌, mem, arith,
  Bool-cases, inl, inr, subst,
}
use dynalog.Base.Int.{ℤ}
use dynalog.Levels.{Logger}
use dynalog.Config.Policy.{Policy, Heap}
use dynalog.Config.Node.{Node, assume}
use dynalog.Config.Store.{Entry, Place, with_node, yield_loop}
use dynalog.Config.Arbitration.{
  manages, managed, inserting, taken, selects, selected, AllQuiet, Arbitrated, WillBeArbitrated,
  Configured, keys,
}
use dynalog.Config.NodeLaws.{Assumed, assume_lem}
use dynalog.Config.NodeUses.{selects_alike, Configured-vacuous, selected_of_managed}
use dynalog.Config.Places.{installed, installed-append}
use dynalog.Config.UpdateLoop.{UpdatedAll}
use dynalog.Config.Parts.{
  keys-append, managed-append, AllQuiet-append, selected-append, Configured-append,
  Arbitrated-append,
}

module _ (store : ℕ → Policy) where
  -- What the entries below take over from the node.
  pub record Yielded (n : Node) (es : List Entry) (r : Node × List Entry × List ℕ) : Type 0 where
    pub policy : r.0.policy ≡ n.policy
    pub inserted : r.0.changes.inserted ≡ n.changes.inserted
    pub left : (k : ℕ) → manages k r.0 ≡ (not (selected store k es) && manages k n)
    pub sorted : keys r.1 ≡ keys es
    pub placing : (priority : ℤ) (id : ℕ) → installed priority id r.1 ≡ installed priority id es
    pub selecting : (k : ℕ) → selected store k r.1 ≡ selected store k es
    pub inserting_eq : (k : ℕ) → inserting k r.1 ≡ (manages k n && selected store k es)
    pub taking : (k : ℕ) → taken k r.1 ≡ (managed k es || (manages k n && selected store k es))
    pub arbitrated :
        (k : ℕ)
        → Arbitrated store k es
        → (managed k es ≡ true → manages k n ≡ false)
        → WillBeArbitrated store k r.1
    pub configured : (k : ℕ) (v : Logger) → Configured store k es v → Configured store k r.1 v
    pub clean : r.2 ≡ []

  yield_loop_cons :
      (n : Node) (e : Entry) (es : List Entry) (s : Node × Node × List ℕ)
      (r : Node × List Entry × List ℕ)
      → AllQuiet (e ∷ es)
      → Assumed store e.node n s
      → Yielded s.1 es r
      → Yielded n (e ∷ es) (r.0, with_node e s.0 ∷ r.1, r.2)
  yield_loop_cons n e es s r q a o = record {
    policy = o.policy ∙ a.other_policy;
    inserted = o.inserted ∙ a.other_inserted;
    left = λ k. ground (arith, o.left k, a.other_manage k);
    sorted = ap (λ ks. e.priority ∷ ks) o.sorted;
    placing = λ priority id. ground (arith, a.policy, o.placing priority id);
    selecting = λ k. ground (arith, alike k, o.selecting k);
    inserting_eq = λ k. ground (arith, taking k, o.inserting_eq k, a.other_manage k);
    taking = λ k. ground (arith, taking k, same k, o.taking k, a.other_manage k);
    arbitrated = λ k p d. (
      λ m. alike k ∙ ground (arith, taking k, same k, p.0),
      λ m. alike k ∙ ground (arith, o.taking k, a.other_manage k, p.1),
      o.arbitrated k p.2 (λ m. ground (arith, a.other_manage k, d)),
    );
    configured = λ k v c. (λ m. rw a.policy (ground (arith, same k, c.0)), o.configured k v c.1);
    clean = o.clean;
  }
    where
      alike : (k : ℕ) → selects store k s.0 ≡ selects store k e.node
      alike k = selects_alike store s.0 e.node k a.policy

      same : (k : ℕ) → manages k s.0 ≡ manages k e.node
      same k = ap (mem k) a.manage

      taking : (k : ℕ) → mem k s.0.changes.inserted ≡ (manages k n && selects store k e.node)
      taking k = ground (arith, a.inserted k, q.0.no_insert)

  pub yield_loop_lem :
      (n : Node) (es : List Entry) → AllQuiet es → Yielded n es (yield_loop store n es [])
  unfolding yield_loop
  yield_loop_lem n [] q = record {
    policy = refl;
    inserted = refl;
    left = λ k. refl;
    sorted = refl;
    placing = λ priority id. refl;
    selecting = λ k. refl;
    inserting_eq = λ k. ground arith;
    taking = λ k. ground arith;
    arbitrated = λ k p d. p;
    configured = λ k v c. c;
    clean = refl;
  }
  yield_loop_lem n (e ∷ es) q =
      let s = assume store e.node n [] in
      let a = assume_lem store e.node n in
      rw a.clean
        (yield_loop_cons n e es s (yield_loop store s.1 es []) q a (yield_loop_lem s.1 es q.1))

  -- The map without the node, after the updates.
  pub record Removed (p : Place) (h : Heap) (r : List Entry × Heap) : Type 0 where
    pub quiet : AllQuiet r.0
    pub sorted : keys r.0 ≡ keys p.above ++ keys p.below
    pub placing :
        (priority : ℤ) (id : ℕ)
        → installed priority id r.0 ≡ installed priority id (p.above ++ p.below)
    pub managing :
        (k : ℕ)
        → managed k r.0
          ≡ ((managed k p.above || manages k p.node || managed k p.below) && selected store k r.0)
    pub arbitrated : (k : ℕ) → Arbitrated store k r.0
    pub configured : (k : ℕ) → Configured store k r.0 (r.1 k)
    pub untouched : (k : ℕ) → manages k p.node ≡ false → r.1 k ≡ h k

  module _ (p : Place) (h h1 : Heap) (q : AllQuiet p.above)
      (arb : (k : ℕ)
        → Arbitrated store k p.above
          × (manages k p.node || managed k p.below ≡ true → selected store k p.above ≡ false)
          × (managed k p.below ≡ true → manages k p.node ≡ false)
          × Arbitrated store k p.below)
      (conf : (k : ℕ) → Configured store k p.above (h k) × Configured store k p.below (h k))
      (s : Node × List Entry × List ℕ) (o : Yielded p.node p.below s) (first : (k : ℕ) → h1 k ≡ h k)
      (u : List Entry × Heap) (y : UpdatedAll store s.1 h1 u) where
    before_below : (k : ℕ) → Configured store k s.1 (h1 k)
    before_below k =
        subst (Configured store k s.1) (sym (first k)) (o.configured k (h k) (conf k).1)

    same : (k : ℕ) → (manages k p.node && selected store k p.below) ≡ false → u.1 k ≡ h k
    same k f = y.idle k (before_below k) (o.inserting_eq k ∙ f) ∙ first k

    taking :
        (k : ℕ)
        → managed k u.0 ≡ (managed k p.below || (manages k p.node && selected store k p.below))
    taking k = y.managing k ∙ o.taking k

    below-Arbitrated : (k : ℕ) → Arbitrated store k u.0
    below-Arbitrated k = y.arbitrated k (o.arbitrated k (arb k).3 (arb k).2)

    selecting : (k : ℕ) → selected store k u.0 ≡ selected store k p.below
    selecting k = y.selecting k ∙ o.selecting k

    pub removed : Removed p h (p.above ++ u.0, u.1)
    removed = record {
      quiet = (AllQuiet-append p.above u.0).1 (q, y.quiet);
      sorted = keys-append p.above u.0 ∙ ap (λ ks. keys p.above ++ ks) (y.sorted ∙ o.sorted);
      placing = λ priority id.
          installed-append priority id p.above u.0 p.below
            (y.placing priority id ∙ o.placing priority id);
      managing = λ k.
          managed-append k p.above u.0
          ∙ ground (
            arith,
            taking k,
            selected-append store k p.above u.0,
            selecting k,
            selected_of_managed store k p.above (arb k).0,
            selected_of_managed store k p.below (arb k).3,
            (arb k).1,
          );
      arbitrated = λ k.
          (Arbitrated-append store k p.above u.0).1
            ((arb k).0, λ m. (arb k).1 (ground (arith, taking k)), below-Arbitrated k);
      configured = λ k. (Configured-append store k p.above u.0 (u.1 k)).1 (
        elim (Bool-cases (manages k p.node && selected store k p.below)) [
          | inl t ↦
              Configured-vacuous store k p.above _
                (ground (arith, (arb k).1, selected_of_managed store k p.above (arb k).0))
          | inr f ↦ subst (Configured store k p.above) (sym (same k f)) (conf k).0
        ],
        y.written k (below-Arbitrated k) (before_below k),
      );
      untouched = λ k f. same k (ground arith);
    }
