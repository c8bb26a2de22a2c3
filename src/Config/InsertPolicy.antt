-- ===== src/Config/InsertPolicy.antt =====
-- `Configuration::insert( priority, policy )` of source/Configuration.cpp.
use dynalog.Base.{
  ℕ, ◌≡◌, refl, sym, ◌∙◌, ap, Bool, true, false, not, List, [], ◌++◌, Option, none, some, arith,
  subst,
}
use dynalog.Base.Int.{ℤ}
use dynalog.Config.Changes.{no_changes}
use dynalog.Config.Policy.{Policy, Heap}
use dynalog.Config.Node.{Node}
use dynalog.Config.Store.{
  Entry, Place, Configuration, emplace, rebuild, steal_loop, update_loop, insert_at, insert_policy,
}
use dynalog.Config.Arbitration.{
  managed, selects, AllQuiet, Arbitrated, Configured, IsValid, IsConfigured, keys, IsSorted,
}
use dynalog.Config.NodeLaws.{update_lem}
use dynalog.Config.UpdateLoop.{update_loop_lem}
use dynalog.Config.Keys.{has_key-append, has_key}
use dynalog.Config.Parts.{keys-append, AllQuiet-append}
use dynalog.Config.Places.{installed, EmplaceResult, emplace_lem}
use dynalog.Config.Steal.{Stolen, Placed, steal_loop_lem, placed}

module _ (store : ℕ → Policy) where
  -- `insert_at` in a valid configuration.
  insert_at_lem :
      (priority : ℤ) (p : Place) (c : Configuration) (h : Heap)
      → IsValid store c
      → IsConfigured store c h
      → p.node.changes ≡ no_changes
      → c.policies ≡ p.above ++ p.below
      → let (c', h') = insert_at store priority p c.scratch h in
        Placed store priority p.node p h (c'.policies, h') × (c'.scratch ≡ [])
  unfolding insert_at rebuild
  insert_at_lem priority p c h v w fresh split = rw v.clean (
    placed store priority p.node p h (ap (λ x. x.inserted) fresh) (ap (λ x. x.manage) fresh)
        (subst AllQuiet split v.quiet) (λ k. subst (Arbitrated store k) split (v.arbitrated k))
        (λ k. subst (λ es. Configured store k es (h k)) split (w k)) s o u
        (update_loop_lem store s.1 h) _ (update_lem store false s.0 u.1),
    o.clean,
  )
    where
      s : Node × List Entry × List ℕ
      s = steal_loop store p.node p.below []

      o : Stolen store p.node p.below s
      o =
          steal_loop_lem store p.node p.below
            ((AllQuiet-append p.above p.below).0 (subst AllQuiet split v.quiet)).1

      u : List Entry × Heap
      u = update_loop store s.1 h

  -- What `insert_policy` is to do, of its result.
  abbrev Post : ℤ → ℕ → Configuration → Heap → Bool × Configuration × Heap → Type 0
  Post priority policy c h r =
      (r.0 ≡ not (has_key priority (keys c.policies)))
      × (r.0 ≡ false → (r.1 ≡ c) × (r.2 ≡ h))
      × (r.0 ≡ true → installed priority policy r.1.policies ≡ true)
      × IsValid store r.1
      × IsConfigured store r.1 r.2
      × ((k : ℕ) → managed k r.1.policies ≡ managed k c.policies)
      × ((k : ℕ) → (store policy).selects k ≡ false → r.2 k ≡ h k)

  insert-Post :
      (priority : ℤ) (policy : ℕ) (c : Configuration) (h : Heap) (r : Option Place)
      → IsValid store c
      → IsConfigured store c h
      → EmplaceResult none priority (record { policy = policy; changes = no_changes }) c.policies r
      → Post priority policy c h (elim r [
        | none ↦ (false, c, h)
        | some p ↦ let (c', h') = insert_at store priority p c.scratch h in (true, c', h')
      ])
  insert-Post priority policy c h none v w x =
      (ground arith, λ e. (refl, refl), λ e. cc, v, w, λ k. refl, λ k e. refl)
  insert-Post priority policy c h (some p) v w x =
      let (y, clean) = insert_at_lem priority p c h v w (ap (λ n. n.changes) x.node) x.split in
      (
        ground (arith, x.fresh),
        λ e. cc,
        λ e. y.found policy (free x.split x.fresh) ∙ ground (arith, ap (λ n. n.policy) x.node),
        record {
          clean = clean;
          sorted = subst IsSorted (sym y.sorted) x.sorted;
          quiet = y.quiet;
          arbitrated = y.arbitrated;
        },
        y.configured,
        λ k. y.managing k ∙ ap (managed k) (sym x.split),
        λ k e. y.untouched k (ap (λ n. selects store k n) x.node ∙ e),
      )
    where
      free :
          c.policies ≡ p.above ++ p.below
          → has_key priority (keys c.policies) ≡ false
          → has_key priority (keys p.above) ≡ false
      free split f =
          let e = ap (λ es. has_key priority (keys es)) split in
          let e2 = ap (has_key priority) (keys-append p.above p.below) in
          ground (arith, e, e2, has_key-append priority (keys p.above) (keys p.below))

-- Inserting a policy succeeds exactly if its priority is free, and otherwise changes nothing. Then it
-- stands at that priority. The configuration stays valid, no logger is lost or gained, and every
-- managed logger has the settings of its manager. A logger that the policy does not select keeps
-- its settings.
pub insert_policy_lem :
    (store : ℕ → Policy) (priority : ℤ) (policy : ℕ) (c : Configuration) (h : Heap)
    → IsValid store c
    → IsConfigured store c h
    → let (result, c', h') = insert_policy store priority policy c h in
      (result ≡ not (has_key priority (keys c.policies)))
      × (result ≡ false → (c' ≡ c) × (h' ≡ h))
      × (result ≡ true → installed priority policy c'.policies ≡ true)
      × IsValid store c'
      × IsConfigured store c' h'
      × ((k : ℕ) → managed k c'.policies ≡ managed k c.policies)
      × ((k : ℕ) → (store policy).selects k ≡ false → h' k ≡ h k)
unfolding insert_policy
insert_policy_lem store priority policy c h v w =
    insert-Post store priority policy c h (emplace priority n0 c.policies) v w
      (emplace_lem none priority n0 c.policies refl v.sorted)
  where
    n0 : Node
    n0 = record { policy = policy; changes = no_changes }
