-- ===== src/Config/UpdatePolicy.antt =====
-- `Configuration::update( priority )` of source/Configuration.cpp.
use dynalog.Base.{
  ℕ, ◌≡◌, refl, sym, ◌∙◌, ap, Bool, true, false, ◌||◌, List, ◌∷◌, ◌++◌, Option, none, some, mem,
  arith, Bool-cases, inl, inr, subst,
}
use dynalog.Base.Int.{ℤ}
use dynalog.Config.Policy.{Policy, Heap}
use dynalog.Config.Node.{Node, update}
use dynalog.Config.Store.{Entry, Place, Configuration, find, rebuild, update_policy}
use dynalog.Config.Arbitration.{
  manages, managed, selects, selected, AllQuiet, Arbitrated, Configured, IsValid, IsConfigured,
  IsConfiguredBut, ConfiguredBut, keys, IsSorted,
}
use dynalog.Config.NodeLaws.{Updated, update_lem, update_untouched, update_forced}
use dynalog.Config.NodeUses.{selects_alike, Configured-vacuous, selected_of_managed}
use dynalog.Config.Keys.{has_key, has_key-drop, has_key-append}
use dynalog.Config.Parts.{
  keys-rebuild, managed-rebuild, AllQuiet-append, Arbitrated-append, Configured-append,
}
use dynalog.Config.Places.{find-eq, find-none, find-has_key}
use dynalog.Config.Settle.{Configured-parts}

module _ (store : ℕ → Policy) (priority : ℤ) (c : Configuration) (h : Heap) (p : Place)
    (v : IsValid store c) (w : IsConfiguredBut store priority c h)
    (split : c.policies ≡ rebuild priority p) where
  n : Node
  n = (update store true p.node h).0

  h' : Heap
  h' = (update store true p.node h).1

  updated : List Entry
  unfolding n
  updated = rebuild priority (record { above = p.above; node = n; below = p.below })

  old : Entry
  old = record { priority = priority; node = p.node }

  u : Updated store p.node h (update store true p.node h)
  u = update_lem store true p.node h

  sorted : IsSorted (keys p.above ++ priority ∷ keys p.below)
  sorted = subst IsSorted (ap keys split ∙ keys-rebuild priority p) v.sorted

  quiet : AllQuiet p.above × AllQuiet (old ∷ p.below)
  unfolding rebuild old
  quiet = (AllQuiet-append p.above (old ∷ p.below)).0 (subst AllQuiet split v.quiet)

  parts :
      (k : ℕ)
      → Arbitrated store k p.above
        × (managed k (old ∷ p.below) ≡ true → selected store k p.above ≡ false)
        × Arbitrated store k (old ∷ p.below)
  unfolding rebuild old
  parts k =
      (Arbitrated-append store k p.above (old ∷ p.below)).0
        (subst (Arbitrated store k) split (v.arbitrated k))

  conf : (k : ℕ) → Configured store k p.above (h k) × Configured store k p.below (h k)
  unfolding rebuild
  conf k =
      Configured-parts store priority k (h k) p.above p.node p.below free.0 free.1
        (subst (λ es. ConfiguredBut store priority k es (h k)) split (w k))
    where
      free : (has_key priority (keys p.above) ≡ false) × (has_key priority (keys p.below) ≡ false)
      free =
          let e = has_key-drop none (keys p.above) priority (keys p.below) sorted in
          ground (arith, e, has_key-append priority (keys p.above) (keys p.below))

  same : (k : ℕ) → manages k n ≡ manages k p.node
  unfolding n old
  same k = u.manage k ∙ ap (λ b. b || manages k p.node) (ap (mem k) quiet.1.0.no_insert)

  alike : (k : ℕ) → selects store k n ≡ selects store k p.node
  unfolding n
  alike k = selects_alike store n p.node k u.policy

  still : (k : ℕ) → manages k p.node ≡ false → h' k ≡ h k
  unfolding h' old
  still k f =
      update_untouched store true p.node h k (ground (arith, ap (mem k) quiet.1.0.no_insert))

  updated-Arbitrated : (k : ℕ) → Arbitrated store k updated
  unfolding updated rebuild old
  updated-Arbitrated k = (Arbitrated-append store k p.above _).1 (
    (parts k).0,
    λ m. (parts k).1 (ground (arith, same k)),
    (
      λ m. alike k ∙ ground (arith, same k, (parts k).2),
      λ m. alike k ∙ (parts k).2.1 m,
      (parts k).2.2,
    ),
  )

  updated-Configured : (k : ℕ) → Configured store k updated (h' k)
  unfolding updated rebuild old h'
  updated-Configured k = elim (Bool-cases (manages k p.node)) [
    | inl m ↦ (Configured-append store k p.above _ (h' k)).1 (
      Configured-vacuous store k p.above _
          (ground (arith, (parts k).1, selected_of_managed store k p.above (parts k).0)),
      (
        λ t.
            rw (u.policy, update_forced store p.node h k)
              (ground (arith, (store p.node.policy).settings-settings (h k))),
        Configured-vacuous store k p.below _ (ground (arith, (parts k).2)),
      ),
    )
    | inr f ↦ rw (still k f) (
        (Configured-append store k p.above _ (h k)).1
          ((conf k).0, (λ t. cc (same k, t, f), (conf k).1)))
  ]

  updated_quiet : AllQuiet updated
  unfolding updated rebuild old n
  updated_quiet = (AllQuiet-append p.above _).1 (quiet.0, (u.quiet, quiet.1.1))

  updated-keys : keys updated ≡ keys c.policies
  unfolding updated
  updated-keys =
      keys-rebuild priority (record { above = p.above; node = n; below = p.below })
      ∙ sym (ap keys split ∙ keys-rebuild priority p)

  updated-managed : (k : ℕ) → managed k updated ≡ managed k c.policies
  unfolding updated
  updated-managed k =
      managed-rebuild k priority (record { above = p.above; node = n; below = p.below })
      ∙ ap (λ b. managed k p.above || b || managed k p.below) (same k)
      ∙ sym (ap (managed k) split ∙ managed-rebuild k priority p)

-- What `update_policy` is to do, of its result.
abbrev Post : (ℕ → Policy) → ℤ → Configuration → Heap → Bool × Configuration × Heap → Type 0
Post store priority c h r =
    (r.0 ≡ has_key priority (keys c.policies))
    × (r.0 ≡ false → (r.1 ≡ c) × (r.2 ≡ h))
    × IsValid store r.1
    × (r.0 ≡ true → IsConfigured store r.1 r.2)
    × (keys r.1.policies ≡ keys c.policies)
    × ((k : ℕ) → managed k r.1.policies ≡ managed k c.policies)

update-Post :
    (store : ℕ → Policy) (priority : ℤ) (c : Configuration) (h : Heap) (r : Option Place)
    → IsValid store c
    → IsConfiguredBut store priority c h
    → find priority c.policies ≡ r
    → Post store priority c h (elim r [
      | none ↦ (false, c, h)
      | some p ↦
          let (n, h') = update store true p.node h in
          (
            true,
            record c {
              policies = rebuild priority (record { above = p.above; node = n; below = p.below });
            },
            h',
          )
    ])
unfolding updated n h'
update-Post store priority c h none v w f =
    (sym (find-none priority c.policies f), λ e. (refl, refl), v, λ e. cc, refl, λ k. refl)
update-Post store priority c h (some p) v w f =
    let split = find-eq priority c.policies p f in
    (
      sym (find-has_key priority c.policies p f),
      λ e. cc,
      record {
        clean = v.clean;
        sorted = subst IsSorted (sym (updated-keys store priority c h p v w split)) v.sorted;
        quiet = updated_quiet store priority c h p v w split;
        arbitrated = updated-Arbitrated store priority c h p v w split;
      },
      λ e. updated-Configured store priority c h p v w split,
      updated-keys store priority c h p v w split,
      updated-managed store priority c h p v w split,
    )

-- `update` succeeds exactly if there is a policy at the priority, and otherwise changes nothing. When
-- only the settings of that policy were changed, every managed logger has the settings of its manager
-- afterwards; the same loggers are managed, by a configuration that is still valid.
pub update_policy_lem :
    (store : ℕ → Policy) (priority : ℤ) (c : Configuration) (h : Heap)
    → IsValid store c
    → IsConfiguredBut store priority c h
    → let (result, c', h') = update_policy store priority c h in
      (result ≡ has_key priority (keys c.policies))
      × (result ≡ false → (c' ≡ c) × (h' ≡ h))
      × IsValid store c'
      × (result ≡ true → IsConfigured store c' h')
      × (keys c'.policies ≡ keys c.policies)
      × ((k : ℕ) → managed k c'.policies ≡ managed k c.policies)
unfolding update_policy
update_policy_lem store priority c h v w =
    update-Post store priority c h (find priority c.policies) v w refl
