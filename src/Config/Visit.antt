-- ===== src/Config/Visit.antt =====
-- `visit` of include/Configuration.h: a policy that selects nothing is inserted above all others and
-- taken out again, and its predicate runs an action on each logger that it is offered.
use dynalog.Base.{ℕ, ◌^◌, ◌-◌, Bool, false, List, [], ◌∷◌, none, some, if◌then◌else◌}
use dynalog.Base.Int.{ℤ, pos}
use dynalog.Levels.{Bits}
use dynalog.Config.Sets.{LoggerSet}
use dynalog.Config.Changes.{no_changes}
use dynalog.Config.Policy.{Policy, Heap}
use dynalog.Config.Predicate.{PredicatePolicy}
use dynalog.Config.Store.{Entry, Configuration, emplace, insert_policy, remove_policy}

-- `std::numeric_limits<int>::max()`.
abbrev pub int_max : ℤ
int_max = pos (2 ^ 31 - 1)

-- The policy that `visit` makes: its predicate returns `false`, whatever the action does.
abbrev pub visitor : Bits → PredicatePolicy
visitor no_levels = record { predicate = λ logger. false; emitter = none; levels = no_levels }

module _ {ℓ} {S : Type ℓ} (action : ℕ → S → S) where
  -- What the action makes of the caller's state in a call of `match`: one call for each logger.
  unfoldable pub match_action : LoggerSet → S → S
  match_action [] s = s
  match_action (logger ∷ loggers) s = match_action loggers (action logger s)

  -- What it makes of it while the node of the visitor assumes loggers of the entries below.
  unfoldable pub steal_action : List Entry → S → S
  steal_action [] s = s
  steal_action (e ∷ es) s = steal_action es (match_action e.node.changes.manage s)

  unfoldable pub visit :
      (ℕ → Policy) → ℕ → Configuration → Heap → S → Bool × S × Configuration × Heap
  visit store policy c h s =
      let fresh = emplace int_max (record { policy = policy; changes = no_changes }) c.policies in
      let s' : S = elim fresh [ none ↦ s | some p ↦ steal_action p.below s ] in
      let (result, c', h') = insert_policy store int_max policy c h in
      if result
      then (let (removed, c'', h'') = remove_policy store int_max policy c' h' in
          (result, s', c'', h''))
      else (result, s', c', h')
