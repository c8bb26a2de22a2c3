-- ===== src/Config/UpdateLoop.antt =====
-- The loop of `Node::update` over the entries of a map, of source/Configuration.cpp.
use dynalog.Base.{
  ℕ, ◌≡◌, refl, sym, ◌∙◌, ap, true, false, List, [], ◌∷◌, mem, arith, Bool-cases, inl, inr, subst,
}
use dynalog.Base.Int.{ℤ}
use dynalog.Config.Policy.{Policy, Heap}
use dynalog.Config.Node.{Node, update}
use dynalog.Config.Store.{Entry, with_node, update_loop}
use dynalog.Config.Arbitration.{
  manages, managed, taken, inserting, selects, selected, AllQuiet, Arbitrated, WillBeArbitrated,
  Configured, keys,
}
use dynalog.Config.NodeLaws.{Updated, update_lem}
use dynalog.Config.NodeUses.{Updated-configured, selects_alike, Configured-vacuous}
use dynalog.Config.Places.{installed}

module _ (store : ℕ → Policy) where
  pub record UpdatedAll (es : List Entry) (h : Heap) (r : List Entry × Heap) : Type 0 where
    pub quiet : AllQuiet r.0
    pub sorted : keys r.0 ≡ keys es
    pub placing : (priority : ℤ) (id : ℕ) → installed priority id r.0 ≡ installed priority id es
    pub selecting : (k : ℕ) → selected store k r.0 ≡ selected store k es
    pub managing : (k : ℕ) → managed k r.0 ≡ taken k es
    pub arbitrated : (k : ℕ) → WillBeArbitrated store k es → Arbitrated store k r.0
    pub idle : (k : ℕ) → Configured store k es (h k) → inserting k es ≡ false → r.1 k ≡ h k
    pub written :
        (k : ℕ)
        → Arbitrated store k r.0
        → Configured store k es (h k)
        → Configured store k r.0 (r.1 k)

  managed_of_taken : (k : ℕ) (es : List Entry) → taken k es ≡ false → managed k es ≡ false
  managed_of_taken k [] h = refl
  managed_of_taken k (e ∷ es) h = ground (arith, managed_of_taken k es)

  inserting_of_taken : (k : ℕ) (es : List Entry) → taken k es ≡ false → inserting k es ≡ false
  inserting_of_taken k [] h = refl
  inserting_of_taken k (e ∷ es) h = ground (arith, inserting_of_taken k es)

  update_loop_cons :
      (e : Entry) (es : List Entry) (h : Heap) (u : Node × Heap) (r : List Entry × Heap)
      → Updated store e.node h u
      → UpdatedAll es u.1 r
      → UpdatedAll (e ∷ es) h (with_node e u.0 ∷ r.0, r.1)
  update_loop_cons e es h u r x o = record {
    quiet = (x.quiet, o.quiet);
    sorted = ap (λ ks. e.priority ∷ ks) o.sorted;
    placing = λ priority id. ground (arith, x.policy, o.placing priority id);
    selecting = λ k. ground (arith, alike k, o.selecting k);
    managing = λ k. ground (arith, x.manage k, o.managing k);
    arbitrated = λ k p. (
      λ m. alike k ∙ p.0 (sym (x.manage k) ∙ m),
      λ m. alike k ∙ p.1 (sym (o.managing k) ∙ m),
      o.arbitrated k p.2,
    );
    idle = λ k c i. idle k c i;
    written = λ k p c. (λ m. head k p c m, rest k p c);
  }
    where
      alike : (k : ℕ) → selects store k u.0 ≡ selects store k e.node
      alike k = selects_alike store u.0 e.node k x.policy

      idle :
          (k : ℕ) → Configured store k (e ∷ es) (h k) → inserting k (e ∷ es) ≡ false → r.1 k ≡ h k
      idle k c i =
          let first : u.1 k ≡ h k = x.written k c.0 ∙ ground arith in
          o.idle k (subst (Configured store k es) (sym first) c.1) (ground arith) ∙ first

      -- A logger that this entry manages is left alone by the entries below.
      alone :
          (k : ℕ)
          → Arbitrated store k (with_node e u.0 ∷ r.0)
          → manages k u.0 ≡ true
          → managed k r.0 ≡ false
      alone k p m = elim (Bool-cases (managed k r.0)) [ inl t ↦ cc (p.0 m, p.1 t) | inr f ↦ f ]

      head :
          (k : ℕ)
          → Arbitrated store k (with_node e u.0 ∷ r.0)
          → Configured store k (e ∷ es) (h k)
          → manages k u.0 ≡ true
          → (store u.0.policy).settings (r.1 k) ≡ r.1 k
      head k p c m =
          let f : taken k es ≡ false = sym (o.managing k) ∙ alone k p m in
          rw
            (o.idle k (Configured-vacuous store k es (u.1 k) (managed_of_taken k es f))
              (inserting_of_taken k es f))
            (Updated-configured store x k c.0 m)

      rest :
          (k : ℕ)
          → Arbitrated store k (with_node e u.0 ∷ r.0)
          → Configured store k (e ∷ es) (h k)
          → Configured store k r.0 (r.1 k)
      rest k p c = elim (Bool-cases (manages k u.0)) [
        | inl m ↦ Configured-vacuous store k r.0 (r.1 k) (alone k p m)
        | inr f ↦
            (let i : mem k e.node.changes.inserted ≡ false = ground (arith, x.manage k, f) in
              o.written k p.2 (subst (Configured store k es) (sym (x.written k c.0 ∙ rw i)) c.1))
      ]

  pub update_loop_lem : (es : List Entry) (h : Heap) → UpdatedAll es h (update_loop store es h)
  unfolding update_loop
  update_loop_lem [] h = record {
    quiet = tt;
    sorted = refl;
    placing = λ priority id. refl;
    selecting = λ k. refl;
    managing = λ k. refl;
    arbitrated = λ k p. p;
    idle = λ k c i. refl;
    written = λ k p c. c;
  }
  update_loop_lem (e ∷ es) h =
      let u = update store false e.node h in
      update_loop_cons e es h u (update_loop store es u.1) (update_lem store false e.node h)
        (update_loop_lem es u.1)
