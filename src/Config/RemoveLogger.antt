-- ===== src/Config/RemoveLogger.antt =====
-- `Configuration::remove( logger )` of source/Configuration.cpp.
use dynalog.Base.{
  ℕ, ◌≡◌, refl, sym, ◌∙◌, ap, Bool, true, false, not, ◌&&◌, ◌||◌, List, [], ◌∷◌, mem, ◌==◌, arith,
  Bool-cases, inl, inr, subst,
}
use dynalog.Config.Sets.{insert, erase, mem-erase}
use dynalog.Config.Policy.{Policy, Heap}
use dynalog.Config.Node.{Node}
use dynalog.Config.Store.{Entry, Configuration, with_node, withdraw_loop, remove_logger}
use dynalog.Config.Arbitration.{
  manages, managed, selects, selected, AllQuiet, Arbitrated, Configured, IsValid, IsConfigured,
  keys, IsSorted,
}
use dynalog.Config.NodeLaws.{Updated, update_lem}
use dynalog.Config.NodeUses.{selects_alike}

module _ (store : ℕ → Policy) (l : ℕ) where
  record Withdrawn (es : List Entry) (h : Heap) (r : Bool × List Entry × Heap) : Type 0 where
    result : r.0 ≡ managed l es
    quiet : AllQuiet r.1
    sorted : keys r.1 ≡ keys es
    selecting : (k : ℕ) → selected store k r.1 ≡ selected store k es
    managing : (k : ℕ) → Arbitrated store k es → managed k r.1 ≡ (not (k == l) && managed k es)
    arbitrated : (k : ℕ) → Arbitrated store k es → Arbitrated store k r.1
    untouched : (k : ℕ) → Configured store k es (h k) → r.2 k ≡ h k
    configured : (k : ℕ) → Configured store k es (h k) → Configured store k r.1 (h k)

  -- The entry that gives the logger up.
  abbrev without : Node → Node
  without n = record n {
    changes = record (n.changes) {
      removed = insert l n.changes.removed;
      manage = erase l n.changes.manage;
    };
  }

  hit :
      (e : Entry) (es : List Entry) (h : Heap) (r : Node × Heap)
      → manages l e.node ≡ true
      → AllQuiet (e ∷ es)
      → Updated store (without e.node) h r
      → Withdrawn (e ∷ es) h (true, with_node e r.0 ∷ es, r.1)
  hit e es h r m q u = record {
    result = ground arith;
    quiet = (u.quiet, q.1);
    sorted = refl;
    selecting = λ k. ground (arith, alike k);
    managing = λ k p. ground (arith, taking k, only k p);
    arbitrated = λ k p. (λ t. alike k ∙ ground (arith, taking k, p.0), λ t. alike k ∙ p.1 t, p.2);
    untouched = λ k c. same k c;
    configured = λ k c. (λ t. rw u.policy (ground (arith, taking k, c.0)), c.1);
  }
    where
      alike : (k : ℕ) → selects store k r.0 ≡ selects store k e.node
      alike k = selects_alike store r.0 e.node k u.policy

      taking : (k : ℕ) → manages k r.0 ≡ (not (k == l) && manages k e.node)
      taking k =
          ground (arith, u.manage k, ap (mem k) q.0.no_insert, mem-erase k l e.node.changes.manage)

      here : (k : ℕ) → k ≡ l → manages k e.node ≡ true
      here k e1 = ap (λ j. manages j e.node) e1 ∙ m

      only : (k : ℕ) → Arbitrated store k (e ∷ es) → k ≡ l → managed k es ≡ false
      only k p e1 = let t = here k e1 in ground (arith, p.0, p.1)

      same : (k : ℕ) → Configured store k (e ∷ es) (h k) → r.1 k ≡ h k
      same k c =
          u.written k (λ t. c.0 (ground (arith, mem-erase k l e.node.changes.manage)))
          ∙ rw q.0.no_insert

  miss :
      (e : Entry) (es : List Entry) (h : Heap) (r : Bool × List Entry × Heap)
      → manages l e.node ≡ false
      → AllQuiet (e ∷ es)
      → Withdrawn es h r
      → Withdrawn (e ∷ es) h (r.0, e ∷ r.1, r.2)
  miss e es h r m q o = record {
    result = o.result ∙ ground arith;
    quiet = (q.0, o.quiet);
    sorted = ap (λ ks. e.priority ∷ ks) o.sorted;
    selecting = λ k. ap (λ b. selects store k e.node || b) (o.selecting k);
    managing = λ k p. ground (arith, o.managing k p.2, elsewhere k);
    arbitrated = λ k p. (p.0, λ t. p.1 (ground (arith, o.managing k p.2)), o.arbitrated k p.2);
    untouched = λ k c. o.untouched k c.1;
    configured = λ k c. (c.0, o.configured k c.1);
  }
    where
      elsewhere : (k : ℕ) → k ≡ l → manages k e.node ≡ false
      elsewhere k e1 = ap (λ j. manages j e.node) e1 ∙ m

  withdraw_loop_lem :
      (es : List Entry) (h : Heap) → AllQuiet es → Withdrawn es h (withdraw_loop store l es h)
  unfolding withdraw_loop
  withdraw_loop_lem [] h q = record {
    result = refl;
    quiet = tt;
    sorted = refl;
    selecting = λ k. refl;
    managing = λ k p. ground arith;
    arbitrated = λ k p. p;
    untouched = λ k c. refl;
    configured = λ k c. c;
  }
  withdraw_loop_lem (e ∷ es) h q = elim (Bool-cases (manages l e.node)) [
    | inl m ↦ rw m (hit e es h _ m q (update_lem store false (without e.node) h))
    | inr m ↦ rw m (miss e es h _ m q (withdraw_loop_lem es h q.1))
  ]

-- Removing a logger returns whether it was managed. The configuration stays valid, it manages every
-- other logger as before and that one no longer, and every logger keeps its settings.
pub remove_logger_lem :
    (store : ℕ → Policy) (l : ℕ) (c : Configuration) (h : Heap)
    → IsValid store c
    → IsConfigured store c h
    → let (result, c', h') = remove_logger store l c h in
      (result ≡ managed l c.policies)
      × IsValid store c'
      × IsConfigured store c' h'
      × ((k : ℕ) → managed k c'.policies ≡ (not (k == l) && managed k c.policies))
      × ((k : ℕ) → h' k ≡ h k)
unfolding remove_logger
remove_logger_lem store l c h v w = (
  o.result,
  record {
    clean = v.clean;
    sorted = subst IsSorted (sym o.sorted) v.sorted;
    quiet = o.quiet;
    arbitrated = λ k. o.arbitrated k (v.arbitrated k);
  },
  λ k. subst (Configured store k _) (sym (o.untouched k (w k))) (o.configured k (w k)),
  λ k. o.managing k (v.arbitrated k),
  λ k. o.untouched k (w k),
)
  where
    o : Withdrawn store l c.policies h (withdraw_loop store l c.policies h)
    o = withdraw_loop_lem store l c.policies h v.quiet
