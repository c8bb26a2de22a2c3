-- ===== src/Config/Scan.antt =====
-- The scan of `Configuration::rescan` over the lower entries, of source/Configuration.cpp.
use dynalog.Base.{ℕ, ◌≡◌, refl, ◌∙◌, ap, not, ◌&&◌, ◌||◌, List, [], ◌∷◌, mem, arith}
use dynalog.Levels.{Logger}
use dynalog.Config.Sets.{LoggerSet}
use dynalog.Config.Policy.{Policy}
use dynalog.Config.Node.{Node, adopt, assume}
use dynalog.Config.Store.{Entry, with_node, scan_loop}
use dynalog.Config.Arbitration.{
  manages, managed, inserting, taken, selects, selected, AllQuiet, Arbitrated, WillBeArbitrated,
  Configured, keys,
}
use dynalog.Config.NodeLaws.{Adopted, adopt_lem, Assumed, assume_lem}
use dynalog.Config.NodeUses.{selects_alike}

module _ (store : ℕ → Policy) where
  -- The lower entries adopt orphans, and the node takes over what it selects.
  pub record Scanned (n : Node) (es : List Entry) (orphans : LoggerSet)
      (r : Node × List Entry × List ℕ) : Type 0 where
    pub policy : r.0.policy ≡ n.policy
    pub manage : r.0.changes.manage ≡ n.changes.manage
    pub inserted :
        (k : ℕ)
        → mem k r.0.changes.inserted
          ≡ ((managed k es && selects store k n) || mem k n.changes.inserted)
    pub sorted : keys r.1 ≡ keys es
    pub selecting : (k : ℕ) → selected store k r.1 ≡ selected store k es
    pub inserting_eq : (k : ℕ) → inserting k r.1 ≡ (mem k orphans && selected store k es)
    pub taking :
        (k : ℕ)
        → taken k r.1
          ≡ ((mem k orphans && selected store k es) || (not (selects store k n) && managed k es))
    pub arbitrated : (k : ℕ) → Arbitrated store k es → WillBeArbitrated store k r.1
    pub configured : (k : ℕ) (v : Logger) → Configured store k es v → Configured store k r.1 v
    pub clean : r.2 ≡ []

  scan_loop_cons :
      (n : Node) (e : Entry) (es : List Entry) (orphans : LoggerSet) (a : Node × LoggerSet × List ℕ)
      (s : Node × Node × List ℕ) (r : Node × List Entry × List ℕ)
      → AllQuiet (e ∷ es)
      → Adopted store e.node orphans a
      → Assumed store n a.0 s
      → Scanned s.0 es a.1 r
      → Scanned n (e ∷ es) orphans (r.0, with_node e s.1 ∷ r.1, r.2)
  scan_loop_cons n e es orphans a s r q x y o = record {
    policy = o.policy ∙ y.policy;
    manage = o.manage ∙ y.manage;
    inserted = λ k. ground (arith, o.inserted k, alike k, y.inserted k, same k);
    sorted = ap (λ ks. e.priority ∷ ks) o.sorted;
    selecting = λ k. ground (arith, other_alike k, o.selecting k);
    inserting_eq = λ k. ground (arith, adopting k, o.inserting_eq k, x.left k);
    taking =
        λ k. ground (arith, adopting k, y.other_manage k, same k, o.taking k, x.left k, alike k);
    arbitrated = λ k p. (
      λ m. other_alike k ∙ ground (arith, adopting k, y.other_manage k, same k, p.0),
      λ m. other_alike k ∙ ground (arith, o.taking k, x.left k, p.1),
      o.arbitrated k p.2,
    );
    configured = λ k v c. (
      λ m. rw (y.other_policy, x.policy) (ground (arith, y.other_manage k, same k, c.0)),
      o.configured k v c.1,
    );
    clean = o.clean;
  }
    where
      alike : (k : ℕ) → selects store k s.0 ≡ selects store k n
      alike k = selects_alike store s.0 n k y.policy

      other_alike : (k : ℕ) → selects store k s.1 ≡ selects store k e.node
      other_alike k = selects_alike store s.1 e.node k (y.other_policy ∙ x.policy)

      same : (k : ℕ) → manages k a.0 ≡ manages k e.node
      same k = ap (mem k) x.manage

      adopting : (k : ℕ) → mem k s.1.changes.inserted ≡ (mem k orphans && selects store k e.node)
      adopting k = ap (mem k) y.other_inserted ∙ ground (arith, x.inserted k, q.0.no_insert)

  pub scan_loop_lem :
      (n : Node) (es : List Entry) (orphans : LoggerSet)
      → AllQuiet es
      → Scanned n es orphans (scan_loop store n es orphans [])
  unfolding scan_loop
  scan_loop_lem n [] orphans q = record {
    policy = refl;
    manage = refl;
    inserted = λ k. refl;
    sorted = refl;
    selecting = λ k. refl;
    inserting_eq = λ k. ground arith;
    taking = λ k. ground arith;
    arbitrated = λ k p. p;
    configured = λ k v c. c;
    clean = refl;
  }
  scan_loop_lem n (e ∷ es) orphans q =
      let a = adopt store e.node orphans [] in
      let x = adopt_lem store e.node orphans in
      let s = assume store n a.0 [] in
      let y = assume_lem store n a.0 in
      rw (x.clean, y.clean)
        (scan_loop_cons n e es orphans a s (scan_loop store s.0 es a.1 []) q x y
          (scan_loop_lem s.0 es a.1 q.1))
