-- ===== src/Bootstrap/Global.antt =====
-- The default policy of the global configuration of source/Log.cpp: `setDefault` and the initializer.
use dynalog.Base.{
  ℕ, ◌^◌, ◌-◌, ◌≡◌, refl, ◌∙◌, ap, Bool, true, false, List, [], ◌∷◌, Option, ◌==◌, if◌then◌else◌,
  Bool-cases, inl, inr,
}
use dynalog.Base.Int.{ℤ, negsuc, eqb_ℤ}
use dynalog.Levels.{Logger, Bits}
use dynalog.Config.Policy.{Policy, Heap}
use dynalog.Config.Predicate.{
  PredicatePolicy, predicate_policy, configure_emitter, configure_levels,
}
use dynalog.Config.Store.{Entry, Configuration, insert_policy, update_policy}
use dynalog.Config.Arbitration.{
  managed, Arbitrated, Configured, ConfiguredBut, IsValid, IsConfigured, keys,
}
use dynalog.Config.Keys.{has_key}
use dynalog.Config.UpdatePolicy.{update_policy_lem}

-- The least `int`, of 32 bits.
abbrev pub default_priority : ℤ
default_priority = negsuc (2 ^ 31 - 1)

pub record Global : Type 0 where
  pub policy : PredicatePolicy
  pub configuration : Configuration

-- The policies, where number `id` is the default one, as it is now.
abbrev pub stored : (ℕ → Policy) → ℕ → PredicatePolicy → ℕ → Policy
stored store id policy k = if k == id then predicate_policy policy else store k

-- The default policy is changed, and the configuration updated.
pub reconfigure : (ℕ → Policy) → ℕ → PredicatePolicy → Global → Heap → Bool × Global × Heap
reconfigure store id policy g h =
    let (result, c, h') =
      update_policy (stored store id policy) default_priority g.configuration h in
    (result, record { policy = policy; configuration = c }, h')

abbrev pub set_default_emitter : (ℕ → Policy) → ℕ → Option ℕ → Global → Heap → Bool × Global × Heap
set_default_emitter store id instance_ g h =
    reconfigure store id (configure_emitter instance_ g.policy) g h

abbrev pub set_default_levels : (ℕ → Policy) → ℕ → Bits → Global → Heap → Bool × Global × Heap
set_default_levels store id levels g h = reconfigure store id (configure_levels levels g.policy) g h

-- The constructor of `Initializer`.
abbrev pub initialize : (ℕ → Policy) → ℕ → Global → Heap → Bool × Global × Heap
initialize store id g h =
    let (result, c, h') =
      insert_policy (stored store id g.policy) default_priority id g.configuration h in
    (result, record g { configuration = c }, h')

-- The default policy stands at no other priority.
abbrev pub Placed : ℕ → List Entry → Type 0
Placed id [] = Unit
Placed id (e ∷ es) =
    ((e.node.policy == id) ≡ true → eqb_ℤ e.priority default_priority ≡ true) × Placed id es

Arbitrated-alike :
    (store store' : ℕ → Policy) (l : ℕ) (es : List Entry)
    → ((k : ℕ) → (store' k).selects l ≡ (store k).selects l)
    → Arbitrated store l es
    → Arbitrated store' l es
Arbitrated-alike store store' l [] a h = tt
Arbitrated-alike store store' l (e ∷ es) a h = (
  λ m. a e.node.policy ∙ h.0 m,
  λ m. a e.node.policy ∙ h.1 m,
  Arbitrated-alike store store' l es a h.2,
)

module _ (store : ℕ → Policy) (id : ℕ) (p p' : PredicatePolicy)
    (same : p'.predicate ≡ p.predicate) where
  selects-stored : (k l : ℕ) → (stored store id p' k).selects l ≡ (stored store id p k).selects l
  selects-stored k l = elim (Bool-cases (k == id)) [
    | inl e ↦ rw e (ap (λ f. f l) same)
    | inr e ↦ rw e refl
  ]

  kept : (k : ℕ) → (k == id) ≡ false → stored store id p' k ≡ stored store id p k
  kept k e = rw e refl

  Configured-but :
      (l : ℕ) (es : List Entry) (v : Logger)
      → Placed id es
      → Configured (stored store id p) l es v
      → ConfiguredBut (stored store id p') default_priority l es v
  Configured-but l [] v at h = tt
  Configured-but l (e ∷ es) v at h = (
    λ f m.
        let other : (e.node.policy == id) ≡ false = elim (Bool-cases (e.node.policy == id)) [
          | inl g ↦ absurd (let t = at.0 g in cc (t, f))
          | inr g ↦ g
        ] in
        ap (λ q. q.settings v) (kept e.node.policy other) ∙ h.0 m,
    Configured-but l es v at.1 h.1,
  )

-- What a change of the default policy leaves.
abbrev pub Reset : (ℕ → Policy) → ℕ → PredicatePolicy → Global → Bool × Global × Heap → Type 0
Reset store id policy g (result, g', h) =
    (result ≡ has_key default_priority (keys g.configuration.policies))
    × (g'.policy ≡ policy)
    × IsValid (stored store id policy) g'.configuration
    × (result ≡ true → IsConfigured (stored store id policy) g'.configuration h)
    × (keys g'.configuration.policies ≡ keys g.configuration.policies)
    × ((k : ℕ) → managed k g'.configuration.policies ≡ managed k g.configuration.policies)

reconfigure_lem :
    (store : ℕ → Policy) (id : ℕ) (policy : PredicatePolicy) (g : Global) (h : Heap)
    → policy.predicate ≡ g.policy.predicate
    → IsValid (stored store id g.policy) g.configuration
    → IsConfigured (stored store id g.policy) g.configuration h
    → Placed id g.configuration.policies
    → Reset store id policy g (reconfigure store id policy g h)
unfolding reconfigure
reconfigure_lem store id policy g h same v w at =
    let valid : IsValid (stored store id policy) g.configuration = record {
      clean = v.clean;
      sorted = v.sorted;
      quiet = v.quiet;
      arbitrated = λ l.
          Arbitrated-alike (stored store id g.policy) (stored store id policy) l _
            (λ k. selects-stored store id g.policy policy same k l) (v.arbitrated l);
    } in
    let u =
      update_policy_lem (stored store id policy) default_priority g.configuration h valid
        (λ l. Configured-but store id g.policy policy same l _ (h l) at (w l)) in
    (u.0, refl, u.2, u.3, u.4, u.5)

-- `setDefault`, of an emitter or of levels, where the default policy stands at its priority only: it
-- succeeds exactly if some policy stands at that priority. Then every managed logger has the settings of its manager, with
-- the new emitter or the new levels where that is the default policy. The configuration stays valid,
-- and the same loggers are managed, by policies at the same priorities.
pub set_default_lem :
    (store : ℕ → Policy) (id : ℕ) (instance_ : Option ℕ) (levels : Bits) (g : Global) (h : Heap)
    → IsValid (stored store id g.policy) g.configuration
    → IsConfigured (stored store id g.policy) g.configuration h
    → Placed id g.configuration.policies
    → Reset store id
        (record g.policy { emitter = instance_ })
        g
        (set_default_emitter store id instance_ g h)
      × Reset store id
          (record g.policy { levels = levels })
          g
          (set_default_levels store id levels g h)
unfolding configure_emitter configure_levels
set_default_lem store id instance_ levels g h v w at = (
  reconfigure_lem store id (configure_emitter instance_ g.policy) g h refl v w at,
  reconfigure_lem store id (configure_levels levels g.policy) g h refl v w at,
)
