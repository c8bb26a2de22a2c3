-- ===== src/Config/InsertLogger.antt =====
-- `Configuration::insert( logger )` of source/Configuration.cpp.
use dynalog.Base.{
  ℕ, ◌≡◌, refl, sym, ◌∙◌, ap, true, false, ◌&&◌, ◌||◌, List, [], ◌∷◌, if◌then◌else◌, ◌==◌, arith,
  Bool-cases, inl, inr, ◌≢◌, subst,
}
use dynalog.Config.Sets.{LoggerSet, is_empty, insert}
use dynalog.Config.Policy.{Policy, Heap}
use dynalog.Config.Node.{adopt, update}
use dynalog.Config.Store.{Entry, Configuration, with_node, offer_loop, insert_logger}
use dynalog.Config.Arbitration.{
  manages, managed, selects, selected, AllQuiet, Arbitrated, Configured, IsValid, IsConfigured,
  keys, IsSorted,
}
use dynalog.Config.NodeLaws.{adopt-miss, Adopted, adopt_lem, adopt-hit}
use dynalog.Config.NodeUses.{Took, take_lem, Configured-vacuous, selected_of_managed, selects_alike}
use native.Mathlib.Decide.{ℕ_discrete}

module _ (store : ℕ → Policy) (l : ℕ) where
  record Offered (es : List Entry) (h : Heap) (r : List Entry × LoggerSet × List ℕ × Heap)
      : Type 0 where
    result : is_empty r.1 ≡ selected store l es
    clean : r.2 ≡ []
    quiet : AllQuiet r.0
    sorted : keys r.0 ≡ keys es
    selecting : (k : ℕ) → selected store k r.0 ≡ selected store k es
    managing : (k : ℕ) → managed k r.0 ≡ ((k == l && selected store l es) || managed k es)
    arbitrated : (k : ℕ) → Arbitrated store k es → Arbitrated store k r.0
    written :
        (k : ℕ)
        → Arbitrated store k es
        → Configured store k es (h k)
        → Configured store k r.0 (r.3 k)
    untouched : (k : ℕ) → k ≢ l → Configured store k es (h k) → r.3 k ≡ h k

  -- The entry that takes the logger.
  hit :
      (e : Entry) (es : List Entry) (h : Heap)
      → selects store l e.node ≡ true
      → AllQuiet (e ∷ es)
      → Offered (e ∷ es) h (
          let (n, left, scratch) = adopt store e.node (l ∷ []) [] in
          let (n', h') = update store false n h in (with_node e n' ∷ es, left, scratch, h'))
  hit e es h s q = record {
    result = adopt-hit store e.node l s ∙ ground arith;
    clean = a.clean;
    quiet = (t.quiet, q.1);
    sorted = refl;
    selecting = λ k. ap (λ b. b || selected store k es) (same k);
    managing = λ k. ground (arith, t.manage k);
    arbitrated = λ k p. (λ m. same k ∙ ground (arith, t.manage k), λ m. same k ∙ p.1 m, p.2);
    written = λ k p c. (
      t.configured k c.0,
      elim (ℕ_discrete k l) [
        | yes here ↦ Configured-vacuous store k es _ (ground (arith, p.1))
        | no away ↦ subst (Configured store k es) (sym (t.untouched k away c.0)) c.1
      ],
    );
    untouched = λ k ne c. t.untouched k ne c.0;
  }
    where
      a : Adopted store e.node (l ∷ []) (adopt store e.node (l ∷ []) [])
      a = adopt_lem store e.node (l ∷ [])

      t : Took store e.node l h (update store false (adopt store e.node (l ∷ []) []).0 h)
      t = take_lem store e.node l h q.0

      same :
          (k : ℕ)
          → selects store k (update store false (adopt store e.node (l ∷ []) []).0 h).0
            ≡ selects store k e.node
      same k =
          selects_alike store (update store false (adopt store e.node (l ∷ []) []).0 h).0 e.node k
            t.policy

  -- An entry that the logger passes by.
  miss :
      (e : Entry) (es : List Entry) (h : Heap) (r : List Entry × LoggerSet × List ℕ × Heap)
      → selects store l e.node ≡ false
      → AllQuiet (e ∷ es)
      → Offered es h r
      → Offered (e ∷ es) h (e ∷ r.0, r.1, r.2, r.3)
  miss e es h r s q o = record {
    result = o.result ∙ ground arith;
    clean = o.clean;
    quiet = (q.0, o.quiet);
    sorted = ap (λ ks. e.priority ∷ ks) o.sorted;
    selecting = λ k. ap (λ b. selects store k e.node || b) (o.selecting k);
    managing = λ k. ground (arith, o.managing k);
    arbitrated = λ k p. (p.0, λ m. passed k p (o.managing k) m, o.arbitrated k p.2);
    written = λ k p c. (λ m. stays k c (p.0 m) m, o.written k p.2 c.1);
    untouched = λ k ne c. o.untouched k ne c.1;
  }
    where
      stays :
          (k : ℕ)
          → Configured store k (e ∷ es) (h k)
          → selects store k e.node ≡ true
          → manages k e.node ≡ true
          → (store e.node.policy).settings (r.3 k) ≡ r.3 k
      stays k c t m =
          rw (o.untouched k (λ here. cc (t, s, ap (λ j. selects store j e.node) here)) c.1) (c.0 m)

      passed :
          (k : ℕ)
          → Arbitrated store k (e ∷ es)
          → managed k r.0 ≡ ((k == l && selected store l es) || managed k es)
          → managed k r.0 ≡ true
          → selects store k e.node ≡ false
      passed k p mg m = elim (ℕ_discrete k l) [
        | yes here ↦ ap (λ j. selects store j e.node) here ∙ s
        | no away ↦ p.1 (ground arith)
      ]

  offer_loop_lem :
      (es : List Entry) (h : Heap) → AllQuiet es → Offered es h (offer_loop store es (l ∷ []) [] h)
  unfolding offer_loop is_empty
  offer_loop_lem [] h q = record {
    result = refl;
    clean = refl;
    quiet = tt;
    sorted = refl;
    selecting = λ k. refl;
    managing = λ k. ground arith;
    arbitrated = λ k p. p;
    written = λ k p c. c;
    untouched = λ k ne c. refl;
  }
  offer_loop_lem (e ∷ es) h q = elim (Bool-cases (selects store l e.node)) [
    | inl s ↦ rw (adopt-hit store e.node l s) (hit e es h s q)
    | inr s ↦ rw (adopt-miss store e.node l s) (miss e es h _ s q (offer_loop_lem es h q.1))
  ]

offer_loop-unmatched :
    (store : ℕ → Policy) (l : ℕ) (es : List Entry) (h : Heap)
    → selected store l es ≡ false
    → offer_loop store es (l ∷ []) [] h ≡ (es, l ∷ [], [], h)
unfolding offer_loop is_empty
offer_loop-unmatched store l [] h s = refl
offer_loop-unmatched store l (e ∷ es) h s =
    rw (adopt-miss store e.node l (ground arith), offer_loop-unmatched store l es h (ground arith))
      refl

-- A logger that no policy selects is not inserted, and nothing changes.
pub insert_logger_unmatched :
    (store : ℕ → Policy) (l : ℕ) (c : Configuration) (h : Heap)
    → c.scratch ≡ []
    → selected store l c.policies ≡ false
    → insert_logger store l c h ≡ (false, c, h)
unfolding insert_logger insert is_empty
insert_logger_unmatched store l c h e s = rw (e, offer_loop-unmatched store l c.policies h s) refl

-- Inserting a logger into a valid configuration succeeds exactly if some policy selects it; then it
-- is managed, and it has the settings of its manager. The configuration stays valid, every other
-- logger stays where it was, and keeps its settings.
pub insert_logger_lem :
    (store : ℕ → Policy) (l : ℕ) (c : Configuration) (h : Heap)
    → IsValid store c
    → IsConfigured store c h
    → let (result, c', h') = insert_logger store l c h in
      (result ≡ selected store l c.policies)
      × IsValid store c'
      × IsConfigured store c' h'
      × ((k : ℕ)
          → managed k c'.policies
            ≡ (if k == l then selected store l c.policies else managed k c.policies))
      × ((k : ℕ) → k ≢ l → h' k ≡ h k)
unfolding insert_logger insert
insert_logger_lem store l c h v w = rw v.clean (
  o.result,
  record {
    clean = o.clean;
    sorted = subst IsSorted (sym o.sorted) v.sorted;
    quiet = o.quiet;
    arbitrated = λ k. o.arbitrated k (v.arbitrated k);
  },
  λ k. o.written k (v.arbitrated k) (w k),
  λ k.
      o.managing k
      ∙ ground (arith, selected_of_managed store k c.policies (v.arbitrated k), same k),
  λ k ne. o.untouched k ne (w k),
)
  where
    o : Offered store l c.policies h (offer_loop store c.policies (l ∷ []) [] h)
    o = offer_loop_lem store l c.policies h v.quiet

    same : (k : ℕ) → k ≡ l → selected store k c.policies ≡ selected store l c.policies
    same k e = ap (λ j. selected store j c.policies) e
