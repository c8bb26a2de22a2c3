-- ===== src/Config/Rescan.antt =====
-- `Configuration::rescan( priority )` of source/Configuration.cpp.
use dynalog.Base.{
  ℕ, ◌≡◌, refl, sym, ◌∙◌, ap, Bool, true, false, ◌&&◌, ◌||◌, List, [], ◌∷◌, ◌++◌, Option, none,
  some, arith, subst,
}
use dynalog.Base.Int.{ℤ}
use dynalog.Config.Policy.{Policy, Heap}
use dynalog.Config.Node.{Node, rescan, update}
use dynalog.Config.Store.{
  Entry, Place, Configuration, find, rebuild, scan_loop, update_loop, rescan_at, rescan_policy,
}
use dynalog.Config.Arbitration.{
  manages, managed, selected, AllQuiet, Configured, IsValid, IsConfigured, IsValidBut,
  IsConfiguredBut, ArbitratedBut, ConfiguredBut, keys, IsSorted,
}
use dynalog.Config.NodeLaws.{
  Rescanned, rescan_lem, Updated, update_lem, update_untouched, update_forced,
}
use dynalog.Config.UpdateLoop.{update_loop_lem}
use dynalog.Config.Scan.{Scanned, scan_loop_lem}
use dynalog.Config.Settle.{Parts, Parts-but, Configured-parts, Settled, settled}
use dynalog.Config.Keys.{has_key, has_key-drop, has_key-append}
use dynalog.Config.Parts.{keys-rebuild, managed-rebuild, AllQuiet-append}
use dynalog.Config.Places.{find-eq, find-none, find-has_key}

module _ (store : ℕ → Policy) where
  -- The premises of `settled`, in a map that is valid but for the policy at the priority.
  record Ready (priority : ℤ) (p : Place) (h : Heap) : Type 0 where
    quiet : AllQuiet p.above × AllQuiet (record { priority = priority; node = p.node } ∷ p.below)
    parts : (k : ℕ) → Parts store k p
    configured : (k : ℕ) → Configured store k p.above (h k) × Configured store k p.below (h k)
    sorted : IsSorted (keys p.above ++ priority ∷ keys p.below)

  ready :
      (priority : ℤ) (p : Place) (c : Configuration) (h : Heap)
      → IsValidBut store priority c
      → IsConfiguredBut store priority c h
      → c.policies ≡ rebuild priority p
      → Ready priority p h
  unfolding rebuild
  ready priority p c h v w split = record {
    quiet = (AllQuiet-append p.above _).0 (subst AllQuiet split v.quiet);
    parts = λ k.
        Parts-but store priority k p.above p.node p.below free.0 free.1
          (subst (λ es. ArbitratedBut store priority k es) split (v.arbitrated k));
    configured = λ k.
        Configured-parts store priority k (h k) p.above p.node p.below free.0 free.1
          (subst (λ es. ConfiguredBut store priority k es (h k)) split (w k));
    sorted = sorted;
  }
    where
      sorted : IsSorted (keys p.above ++ priority ∷ keys p.below)
      sorted = subst IsSorted (ap keys split ∙ keys-rebuild priority p) v.sorted

      free : (has_key priority (keys p.above) ≡ false) × (has_key priority (keys p.below) ≡ false)
      free =
          let e = has_key-drop none (keys p.above) priority (keys p.below) sorted in
          ground (arith, e, has_key-append priority (keys p.above) (keys p.below))

  rescan_at_lem :
      (priority : ℤ) (p : Place) (h : Heap)
      → Ready priority p h
      → let (c', h') = rescan_at store priority p [] h in
        Settled store priority p (c'.policies, h') × (c'.scratch ≡ [])
  unfolding rescan_at rebuild
  rescan_at_lem priority p h d = rw x.clean (
    settled store priority p h (d.quiet.0, d.quiet.1.1) d.quiet.1.0.no_insert d.parts d.configured a
        x s o n1 h1 t1.policy t1.manage (λ k f. update_untouched store false calm h k f) u
        (update_loop_lem store s.1 h1) (update store true n1' u.1).0 (update store true n1' u.1).1
        t2.policy (t2.quiet, tt) t2.manage (λ k. update_forced store n1' u.1 k),
    o.clean,
  )
    where
      a : Node × List ℕ
      a = rescan store p.node []

      x : Rescanned store p.node a
      x = rescan_lem store p.node d.quiet.1.0

      s : Node × List Entry × List ℕ
      s = scan_loop store a.0 p.below a.0.changes.removed []

      o : Scanned store a.0 p.below a.0.changes.removed s
      o = scan_loop_lem store a.0 p.below a.0.changes.removed d.quiet.1.1

      calm : Node
      calm = record (s.0) { changes = record (s.0.changes) { inserted = [] } }

      n1 : Node
      n1 = (update store false calm h).0

      h1 : Heap
      h1 = (update store false calm h).1

      t1 : Updated store calm h (update store false calm h)
      t1 = update_lem store false calm h

      u : List Entry × Heap
      u = update_loop store s.1 h1

      n1' : Node
      n1' = record n1 { changes = record (n1.changes) { inserted = s.0.changes.inserted } }

      t2 : Updated store n1' u.1 (update store true n1' u.1)
      t2 = update_lem store true n1' u.1

  -- What `rescan_policy` is to do, of its result.
  abbrev Post : ℤ → Configuration → Heap → Bool × Configuration × Heap → Type 0
  Post priority c h r =
      (r.0 ≡ has_key priority (keys c.policies))
      × (r.0 ≡ false → (r.1 ≡ c) × (r.2 ≡ h))
      × (r.0 ≡ true
          → IsValid store r.1
            × IsConfigured store r.1 r.2
            × (keys r.1.policies ≡ keys c.policies)
            × ((k : ℕ)
                → managed k r.1.policies ≡ (managed k c.policies && selected store k r.1.policies)))

  rescan-Post :
      (priority : ℤ) (c : Configuration) (h : Heap) (r : Option Place)
      → IsValidBut store priority c
      → IsConfiguredBut store priority c h
      → find priority c.policies ≡ r
      → Post priority c h (elim r [
        | none ↦ (false, c, h)
        | some p ↦ let (c', h') = rescan_at store priority p c.scratch h in (true, c', h')
      ])
  rescan-Post priority c h none v w f =
      (sym (find-none priority c.policies f), λ e. (refl, refl), λ e. cc)
  rescan-Post priority c h (some p) v w f =
      let split = find-eq priority c.policies p f in
      let d = ready priority p c h v w split in
      let (y, clean) = rescan_at_lem priority p h d in
      rw v.clean (
        sym (find-has_key priority c.policies p f),
        λ e. cc,
        λ e. (
          record {
            clean = clean;
            sorted = subst IsSorted (sym y.sorted) d.sorted;
            quiet = y.quiet;
            arbitrated = y.arbitrated;
          },
          y.configured,
          y.sorted ∙ sym (ap keys split ∙ keys-rebuild priority p),
          λ k. ground (arith, y.managing k, whole split k),
        ),
      )
    where
      whole :
          c.policies ≡ rebuild priority p
          → (k : ℕ)
          → managed k c.policies ≡ (managed k p.above || manages k p.node || managed k p.below)
      whole split k = ap (managed k) split ∙ managed-rebuild k priority p

-- A rescan succeeds exactly if there is a policy at the priority, and otherwise changes nothing. It
-- repairs a configuration in which that policy changed what it selects and how it configures: the
-- configuration is valid again, a logger stays managed exactly if some policy now selects it, and
-- every managed logger has the settings of its manager. No policy comes or goes.
pub rescan_policy_lem :
    (store : ℕ → Policy) (priority : ℤ) (c : Configuration) (h : Heap)
    → IsValidBut store priority c
    → IsConfiguredBut store priority c h
    → let (result, c', h') = rescan_policy store priority c h in
      (result ≡ has_key priority (keys c.policies))
      × (result ≡ false → (c' ≡ c) × (h' ≡ h))
      × (result ≡ true
          → IsValid store c'
            × IsConfigured store c' h'
            × (keys c'.policies ≡ keys c.policies)
            × ((k : ℕ)
                → managed k c'.policies ≡ (managed k c.policies && selected store k c'.policies)))
unfolding rescan_policy
rescan_policy_lem store priority c h v w =
    rescan-Post store priority c h (find priority c.policies) v w refl
