-- ===== src/Config/RemovePolicy.antt =====
-- `Configuration::remove( priority, policy )` of source/Configuration.cpp.
use dynalog.Base.{
  ℕ, ◌≡◌, refl, sym, ◌∙◌, ap, Bool, true, false, ◌&&◌, ◌||◌, List, [], ◌∷◌, ◌++◌, Option, none,
  some, if◌then◌else◌, ◌==◌, arith, Bool-cases, inl, inr, subst,
}
use dynalog.Base.Int.{ℤ, eqb_ℤ}
use dynalog.Config.Sets.{insert_all}
use dynalog.Config.Policy.{Policy, Heap}
use dynalog.Config.Node.{Node, update}
use dynalog.Config.Store.{
  Entry, Place, Configuration, find, rebuild, yield_loop, update_loop, remove_at, remove_policy,
}
use dynalog.Config.Arbitration.{
  manages, managed, selected, AllQuiet, Arbitrated, Configured, IsValid, IsConfigured, keys,
  IsSorted,
}
use dynalog.Config.NodeLaws.{update_lem}
use dynalog.Config.NodeUses.{selected_of_managed}
use dynalog.Config.UpdateLoop.{update_loop_lem}
use dynalog.Config.Keys.{has_key, has_key-drop, Below-drop}
use dynalog.Config.Parts.{
  keys-rebuild, managed-rebuild, AllQuiet-append, Configured-append, Arbitrated-append,
}
use dynalog.Config.Places.{installed, find-eq, find-installed, find-none-installed, installed_past}
use dynalog.Config.Yield.{Yielded, Removed, yield_loop_lem, removed}

module _ (store : ℕ → Policy) where
  -- `remove_at` where the map is valid. A policy manages only loggers that it selects.
  remove_at_lem :
      (priority : ℤ) (p : Place) (c : Configuration) (h : Heap)
      → IsValid store c
      → IsConfigured store c h
      → c.policies ≡ rebuild priority p
      → let (c', h') = remove_at store p c.scratch h in
        Removed store p h (c'.policies, h') × (c'.scratch ≡ [])
  unfolding remove_at rebuild
  remove_at_lem priority p c h v w split = rw v.clean (
    removed store p h h1 quiet.0 arb (λ k. ((conf k).0, (conf k).1.1)) s o first
        (update_loop store s.1 h1) (update_loop_lem store s.1 h1),
    o.clean,
  )
    where
      e : Entry
      e = record { priority = priority; node = p.node }

      quiet : AllQuiet p.above × AllQuiet (e ∷ p.below)
      quiet = (AllQuiet-append p.above (e ∷ p.below)).0 (subst AllQuiet split v.quiet)

      parts :
          (k : ℕ)
          → Arbitrated store k p.above
            × (managed k (e ∷ p.below) ≡ true → selected store k p.above ≡ false)
            × Arbitrated store k (e ∷ p.below)
      parts k =
          (Arbitrated-append store k p.above (e ∷ p.below)).0
            (subst (Arbitrated store k) split (v.arbitrated k))

      arb :
          (k : ℕ)
          → Arbitrated store k p.above
            × (manages k p.node || managed k p.below ≡ true → selected store k p.above ≡ false)
            × (managed k p.below ≡ true → manages k p.node ≡ false)
            × Arbitrated store k p.below
      arb k = let (a, b, t) = parts k in (a, b, λ m. ground (arith, t.0, t.1), t.2)

      conf : (k : ℕ) → Configured store k p.above (h k) × Configured store k (e ∷ p.below) (h k)
      conf k =
          (Configured-append store k p.above (e ∷ p.below) (h k)).0
            (subst (λ es. Configured store k es (h k)) split (w k))

      s : Node × List Entry × List ℕ
      s = yield_loop store p.node p.below []

      o : Yielded store p.node p.below s
      o = yield_loop_lem store p.node p.below quiet.1.1

      n' : Node
      n' = record (s.0) {
        changes = record (s.0.changes) {
          removed = insert_all s.0.changes.manage s.0.changes.removed;
          manage = [];
        };
      }

      h1 : Heap
      h1 = (update store false n' h).1

      first : (k : ℕ) → h1 k ≡ h k
      first k =
          (update_lem store false n' h).written k (λ m. cc) ∙ rw (o.inserted, quiet.1.0.no_insert)

  -- What `remove_policy` is to do, of its result.
  abbrev Post : ℤ → ℕ → Configuration → Heap → Bool × Configuration × Heap → Type 0
  Post priority policy c h r =
      (r.0 ≡ installed priority policy c.policies)
      × (r.0 ≡ false → (r.1 ≡ c) × (r.2 ≡ h))
      × (r.0 ≡ true → has_key priority (keys r.1.policies) ≡ false)
      × ((other : ℤ) (id : ℕ)
          → eqb_ℤ priority other ≡ false
          → installed other id r.1.policies ≡ installed other id c.policies)
      × IsValid store r.1
      × IsConfigured store r.1 r.2
      × ((k : ℕ) → managed k r.1.policies ≡ (managed k c.policies && selected store k r.1.policies))

  unchanged_Post :
      (priority : ℤ) (policy : ℕ) (c : Configuration) (h : Heap)
      → IsValid store c
      → IsConfigured store c h
      → installed priority policy c.policies ≡ false
      → Post priority policy c h (false, c, h)
  unchanged_Post priority policy c h v w e = (
    sym e,
    λ t. (refl, refl),
    λ t. cc,
    λ other id f. refl,
    v,
    w,
    λ k. ground (arith, selected_of_managed store k c.policies (v.arbitrated k)),
  )

  removed_Post :
      (priority : ℤ) (policy : ℕ) (c : Configuration) (h : Heap) (p : Place)
      → IsValid store c
      → IsConfigured store c h
      → find priority c.policies ≡ some p
      → installed priority policy c.policies ≡ true
      → Post priority policy c h (let (c', h') = remove_at store p c.scratch h in (true, c', h'))
  unfolding rebuild
  removed_Post priority policy c h p v w f e =
      let split = find-eq priority c.policies p f in
      let (y, clean) = remove_at_lem priority p c h v w split in
      (
        sym e,
        λ t. cc,
        λ t.
            ap (has_key priority) y.sorted
            ∙ has_key-drop none (keys p.above) priority (keys p.below) (sorted split),
        λ other id g.
            y.placing other id
            ∙ sym (
                ap (installed other id) split
                ∙ installed_past priority other id p.above p.node p.below g),
        record {
          clean = clean;
          sorted =
              subst IsSorted (sym y.sorted)
                (Below-drop none (keys p.above) priority (keys p.below) (sorted split));
          quiet = y.quiet;
          arbitrated = y.arbitrated;
        },
        y.configured,
        λ k. ground (arith, y.managing k, whole split k),
      )
    where
      sorted : c.policies ≡ rebuild priority p → IsSorted (keys p.above ++ priority ∷ keys p.below)
      sorted split = subst IsSorted (ap keys split ∙ keys-rebuild priority p) v.sorted

      whole :
          c.policies ≡ rebuild priority p
          → (k : ℕ)
          → managed k c.policies ≡ (managed k p.above || manages k p.node || managed k p.below)
      whole split k = ap (managed k) split ∙ managed-rebuild k priority p

  remove-Post :
      (priority : ℤ) (policy : ℕ) (c : Configuration) (h : Heap) (r : Option Place)
      → IsValid store c
      → IsConfigured store c h
      → find priority c.policies ≡ r
      → Post priority policy c h (elim r [
        | none ↦ (false, c, h)
        | some p ↦
            if p.node.policy == policy
            then (let (c', h') = remove_at store p c.scratch h in (true, c', h'))
            else (false, c, h)
      ])
  remove-Post priority policy c h none v w f =
      unchanged_Post priority policy c h v w (find-none-installed priority policy c.policies f)
  remove-Post priority policy c h (some p) v w f =
      let i = find-installed priority policy c.policies p f in
      elim (Bool-cases (p.node.policy == policy)) [
        | inl e ↦ rw e (removed_Post priority policy c h p v w f (i ∙ e))
        | inr e ↦ rw e (unchanged_Post priority policy c h v w (i ∙ e))
      ]

-- Removing a policy succeeds exactly if that policy stands at that priority, and otherwise changes
-- nothing. Then the priority is free, and at every other priority the same policy stands as before,
-- or none as before. The configuration stays valid; a logger stays managed exactly
-- if one of the policies that are left selects it, and it has the settings of its manager.
pub remove_policy_lem :
    (store : ℕ → Policy) (priority : ℤ) (policy : ℕ) (c : Configuration) (h : Heap)
    → IsValid store c
    → IsConfigured store c h
    → let (result, c', h') = remove_policy store priority policy c h in
      (result ≡ installed priority policy c.policies)
      × (result ≡ false → (c' ≡ c) × (h' ≡ h))
      × (result ≡ true → has_key priority (keys c'.policies) ≡ false)
      × ((other : ℤ) (id : ℕ)
          → eqb_ℤ priority other ≡ false
          → installed other id c'.policies ≡ installed other id c.policies)
      × IsValid store c'
      × IsConfigured store c' h'
      × ((k : ℕ) → managed k c'.policies ≡ (managed k c.policies && selected store k c'.policies))
unfolding remove_policy
remove_policy_lem store priority policy c h v w =
    remove-Post store priority policy c h (find priority c.policies) v w refl
