-- ===== src/Config/NodeUses.antt =====
-- The loggers that a `Configuration::Node` of include/Configuration.h manages: their settings, and
-- one logger more.
use dynalog.Base.{
  ℕ, ◌≡◌, sym, ◌∙◌, ap, true, false, ◌&&◌, ◌||◌, List, [], ◌∷◌, mem, ◌==◌, arith, ◌≢◌,
}
use dynalog.Config.Policy.{Policy, Heap}
use dynalog.Config.Node.{Node, adopt, update}
use dynalog.Config.Arbitration.{
  manages, managed, selects, IsQuiet, Configured, Arbitrated, selected,
}
use dynalog.Config.Store.{Entry}
use dynalog.Levels.{Logger}
use dynalog.Config.NodeLaws.{Adopted, adopt_lem, Updated, update_lem}

module _ (store : ℕ → Policy) where
  -- Nodes of one policy select alike.
  pub selects_alike :
      (n m : Node) (k : ℕ) → n.policy ≡ m.policy → selects store k n ≡ selects store k m
  selects_alike n m k e = ap (λ p. (store p).selects k) e

  -- After `update` the loggers of the node have the policy's settings, if the managed ones had them.
  pub Updated-configured :
      {n : Node} {h : Heap} {r : Node × Heap} (u : Updated store n h r) (k : ℕ)
      → (manages k n ≡ true → (store n.policy).settings (h k) ≡ h k)
      → manages k r.0 ≡ true
      → (store r.0.policy).settings (r.1 k) ≡ r.1 k
  Updated-configured {n} {h} {r} u k s m =
      let same : (store r.0.policy).settings (r.1 k) ≡ (store n.policy).settings (r.1 k) =
        ap (λ p. (store p).settings (r.1 k)) u.policy in
      ground (arith, same, u.written k s, u.manage k, (store n.policy).settings-settings (h k), s)

  -- Who manages nothing of a logger asks nothing of its settings.
  pub Configured-vacuous :
      (k : ℕ) (es : List Entry) (v : Logger) → managed k es ≡ false → Configured store k es v
  Configured-vacuous k [] v h = tt
  Configured-vacuous k (e ∷ es) v h = (λ m. ground arith, Configured-vacuous k es v (ground arith))

  -- Only selected loggers are managed.
  pub selected_of_managed :
      (k : ℕ) (es : List Entry)
      → Arbitrated store k es
      → managed k es ≡ true
      → selected store k es ≡ true
  selected_of_managed k [] p m = m
  selected_of_managed k (e ∷ es) p m = ground (arith, selected_of_managed k es p.2, p.0, p.1)

  -- A node that adopts one logger and is updated.
  pub record Took (n : Node) (l : ℕ) (h : Heap) (r : Node × Heap) : Type 0 where
    pub policy : r.0.policy ≡ n.policy
    pub quiet : IsQuiet r.0
    pub manage : (k : ℕ) → manages k r.0 ≡ ((k == l && selects store k n) || manages k n)
    pub configured :
        (k : ℕ)
        → (manages k n ≡ true → (store n.policy).settings (h k) ≡ h k)
        → manages k r.0 ≡ true
        → (store r.0.policy).settings (r.1 k) ≡ r.1 k
    pub untouched :
        (k : ℕ) → k ≢ l → (manages k n ≡ true → (store n.policy).settings (h k) ≡ h k) → r.1 k ≡ h k

  pub take_lem :
      (n : Node) (l : ℕ) (h : Heap)
      → IsQuiet n
      → Took n l h (update store false (adopt store n (l ∷ []) []).0 h)
  take_lem n l h q = record {
    policy = u.policy ∙ a.policy;
    quiet = u.quiet;
    manage = λ k. u.manage k ∙ ground (arith, a.inserted k, a.manage, q.no_insert);
    configured = λ k s. Updated-configured u k (before k s);
    untouched = λ k ne s. u.written k (before k s) ∙ rw (a.inserted k, q.no_insert) (ground arith);
  }
    where
      a : Adopted store n (l ∷ []) (adopt store n (l ∷ []) [])
      a = adopt_lem store n (l ∷ [])

      u :
          Updated store
            (adopt store n (l ∷ []) []).0
            h
            (update store false (adopt store n (l ∷ []) []).0 h)
      u = update_lem store false (adopt store n (l ∷ []) []).0 h

      before :
          (k : ℕ)
          → (manages k n ≡ true → (store n.policy).settings (h k) ≡ h k)
          → manages k (adopt store n (l ∷ []) []).0 ≡ true
          → (store (adopt store n (l ∷ []) []).0.policy).settings (h k) ≡ h k
      before k s m = rw a.policy (s (ap (mem k) (sym a.manage) ∙ m))
