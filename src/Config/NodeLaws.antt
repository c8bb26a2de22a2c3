-- ===== src/Config/NodeLaws.antt =====
-- What the member functions of `Configuration::Node` do to the membership of one logger.
use dynalog.Base.{
  ℕ, ◌≡◌, refl, ◌∙◌, ap, Bool, true, false, not, ◌&&◌, ◌||◌, List, [], ◌∷◌, mem, if◌then◌else◌,
  arith, Bool-cases, inl, inr,
}
use dynalog.Config.Sets.{LoggerSet, insert_all, erase_all, is_empty, mem-insert_all, mem-erase_all}
use dynalog.Config.Changes.{apply, pending, update_insert, update_remove}
use dynalog.Config.Policy.{Policy, Heap}
use dynalog.Config.Node.{Node, adopt, rescan, update, assume}
use dynalog.Config.Arbitration.{manages, takes, selects, IsQuiet}

-- A collection with no member is empty.
nil_of_mem : (xs : List ℕ) → ((k : ℕ) → mem k xs ≡ false) → xs ≡ []
nil_of_mem [] h = refl
nil_of_mem (x ∷ xs) h = ground (arith, h x)

nil_of_is_empty : (s : LoggerSet) → is_empty s ≡ true → s ≡ []
unfolding is_empty
nil_of_is_empty [] h = refl
nil_of_is_empty (x ∷ s) h = cc

is_empty_of_mem : (s : LoggerSet) → ((k : ℕ) → mem k s ≡ false) → is_empty s ≡ true
unfolding is_empty
is_empty_of_mem [] h = refl
is_empty_of_mem (x ∷ s) h = ground (arith, h x)

not_pending : (n : Node) → pending n.changes ≡ false → IsQuiet n
unfolding pending
not_pending n h =
    let c = n.changes in
    record {
      no_insert = nil_of_is_empty c.inserted (ground arith);
      no_remove = nil_of_is_empty c.removed (ground arith);
    }

module _ (store : ℕ → Policy) where
  mem-matches_nil :
      (n : Node) (set : LoggerSet) (k : ℕ)
      → mem k ((store n.policy).matches set []) ≡ (mem k set && selects store k n)
  mem-matches_nil n set k = (store n.policy).mem-matches set [] k

  -- A logger that the policy does not select leaves the node and the offer as they are.
  pub adopt-miss :
      (n : Node) (l : ℕ) → selects store l n ≡ false → adopt store n (l ∷ []) [] ≡ (n, l ∷ [], [])
  unfolding adopt update_insert insert_all erase_all
  adopt-miss n l e = rw (nil_of_mem _ nothing)
    where
      nothing : (k : ℕ) → mem k ((store n.policy).matches (l ∷ []) []) ≡ false
      nothing k = ground (arith, mem-matches_nil n (l ∷ []) k)

  -- What adoption does to one logger.
  pub record Adopted (n : Node) (set : LoggerSet) (r : Node × LoggerSet × List ℕ) : Type 0 where
    pub policy : r.0.policy ≡ n.policy
    pub removed : r.0.changes.removed ≡ n.changes.removed
    pub manage : r.0.changes.manage ≡ n.changes.manage
    pub inserted :
        (k : ℕ)
        → mem k r.0.changes.inserted
          ≡ ((mem k set && selects store k n) || mem k n.changes.inserted)
    pub left : (k : ℕ) → mem k r.1 ≡ (not (selects store k n) && mem k set)
    pub clean : r.2 ≡ []

  pub adopt_lem : (n : Node) (set : LoggerSet) → Adopted n set (adopt store n set [])
  unfolding adopt update_insert
  adopt_lem n set = record {
    policy = refl;
    removed = refl;
    manage = refl;
    inserted = λ k.
        mem-insert_all k _ _ ∙ ap (λ b. b || mem k n.changes.inserted) (mem-matches_nil n set k);
    left = λ k.
        ground
          (arith, mem-erase_all k ((store n.policy).matches set []) set, mem-matches_nil n set k);
    clean = refl;
  }

  pub adopt-hit :
      (n : Node) (l : ℕ) → selects store l n ≡ true → is_empty (adopt store n (l ∷ []) []).1 ≡ true
  adopt-hit n l e = is_empty_of_mem _ (λ k. ground (arith, (adopt_lem n (l ∷ [])).left k, e))

  -- What stealing does to one logger: `r.0` takes it over from `r.1`.
  pub record Assumed (n other : Node) (r : Node × Node × List ℕ) : Type 0 where
    pub policy : r.0.policy ≡ n.policy
    pub removed : r.0.changes.removed ≡ n.changes.removed
    pub manage : r.0.changes.manage ≡ n.changes.manage
    pub inserted :
        (k : ℕ)
        → mem k r.0.changes.inserted
          ≡ ((manages k other && selects store k n) || mem k n.changes.inserted)
    pub other_policy : r.1.policy ≡ other.policy
    pub other_inserted : r.1.changes.inserted ≡ other.changes.inserted
    pub other_manage : (k : ℕ) → manages k r.1 ≡ (not (selects store k n) && manages k other)
    pub clean : r.2 ≡ []

  pub assume_lem : (n other : Node) → Assumed n other (assume store n other [])
  unfolding assume update_insert update_remove
  assume_lem n other = record {
    policy = refl;
    removed = refl;
    manage = refl;
    inserted = λ k.
        mem-insert_all k _ _
        ∙ ap (λ b. b || mem k n.changes.inserted) (mem-matches_nil n other.changes.manage k);
    other_policy = refl;
    other_inserted = refl;
    other_manage = λ k. ground (
      arith,
      mem-erase_all k ((store n.policy).matches other.changes.manage []) other.changes.manage,
      mem-matches_nil n other.changes.manage k,
    );
    clean = refl;
  }

  -- What `update` does: pending changes are applied, and the loggers of the node are written. A
  -- managed logger that has the policy's settings keeps them.
  pub record Updated (n : Node) (h : Heap) (r : Node × Heap) : Type 0 where
    pub policy : r.0.policy ≡ n.policy
    pub quiet : IsQuiet r.0
    pub manage : (k : ℕ) → manages k r.0 ≡ (mem k n.changes.inserted || manages k n)
    pub written :
        (k : ℕ)
        → (manages k n ≡ true → (store n.policy).settings (h k) ≡ h k)
        → r.1 k ≡ (if mem k n.changes.inserted then (store n.policy).settings (h k) else h k)

  pub update_lem : (force : Bool) (n : Node) (h : Heap) → Updated n h (update store force n h)
  unfolding update apply
  update_lem force n h = elim (Bool-cases (pending n.changes || force)) [
    | inl e ↦ rw e (record {
      policy = refl;
      quiet = record { no_insert = refl; no_remove = refl };
      manage = λ k. mem-insert_all k n.changes.inserted n.changes.manage;
      written = λ k s. ground (arith, (store n.policy).update_lem n.changes h k, s);
    })
    | inr e ↦ rw e (
        let q = not_pending n (ground arith) in
        record {
          policy = refl;
          quiet = q;
          manage = λ k. rw q.no_insert;
          written = λ k s. rw q.no_insert;
        })
  ]

  -- A logger that the node does not manage or insert is not written.
  pub update_untouched :
      (force : Bool) (n : Node) (h : Heap) (k : ℕ)
      → takes k n ≡ false
      → (update store force n h).1 k ≡ h k
  unfolding update
  update_untouched force n h k f = ground (arith, (store n.policy).update_lem n.changes h k)

  -- A forced update writes every logger of the node.
  pub update_forced :
      (n : Node) (h : Heap) (k : ℕ)
      → (update store true n h).1 k ≡ (if takes k n then (store n.policy).settings (h k) else h k)
  unfolding update
  update_forced n h k = ground (arith, (store n.policy).update_lem n.changes h k)

  -- What a rescan of a node does to one logger.
  pub record Rescanned (n : Node) (r : Node × List ℕ) : Type 0 where
    pub policy : r.0.policy ≡ n.policy
    pub inserted : r.0.changes.inserted ≡ n.changes.inserted
    pub removed : (k : ℕ) → mem k r.0.changes.removed ≡ (manages k n && not (selects store k n))
    pub manage : (k : ℕ) → manages k r.0 ≡ (manages k n && selects store k n)
    pub clean : r.1 ≡ []

  pub rescan_lem : (n : Node) → IsQuiet n → Rescanned n (rescan store n [])
  unfolding rescan
  rescan_lem n q = record {
    policy = refl;
    inserted = refl;
    removed = λ k. ground (
      arith,
      mem-erase_all k ((store n.policy).matches n.changes.manage []) n.changes.manage,
      mem-matches_nil n n.changes.manage k,
    );
    manage = λ k.
        mem-insert_all k ((store n.policy).matches n.changes.manage []) n.changes.removed
        ∙ rw q.no_remove (ground (arith, mem-matches_nil n n.changes.manage k));
    clean = refl;
  }
