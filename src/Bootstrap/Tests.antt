-- ===== src/Bootstrap/Tests.antt =====
-- The first message of a concrete logger: the theorems at inputs that meet their hypotheses.
use dynalog.Base.{
  ℕ, ◌≡◌, ◌≢◌, refl, ap, true, false, [], ◌∷◌, Option, none, some, ◌==◌, if◌then◌else◌, arith,
  Returns,
}
use dynalog.Base.Int.{negsuc}
use dynalog.Levels.{Logger, Bits, get, route}
use dynalog.Config.Policy.{Policy, Heap}
use dynalog.Config.Predicate.{PredicatePolicy, predicate_policy}
use dynalog.Config.Store.{Configuration}
use dynalog.Config.Arbitration.{IsValid, IsConfigured, managed}
use dynalog.Bootstrap.{emit}
use dynalog.Bootstrap.Handover.{emit_lem, emit_unmatched}
use dynalog.Bootstrap.Global.{
  Global, default_priority, stored, set_default_emitter, set_default_levels, Reset, set_default_lem,
}

abbrev two_levels : Bits
two_levels = true ∷ false ∷ false ∷ true ∷ false ∷ []

-- Emitter 1 is the bootstrapper; the one policy selects all loggers but number 8.
abbrev only : PredicatePolicy
only = record {
  predicate = λ k. if k == 8 then false else true;
  emitter = some 9;
  levels = two_levels;
}

abbrev store : ℕ → Policy
store k = predicate_policy only

abbrev one : Configuration
one = record {
  scratch = [];
  policies =
      record {
        priority = negsuc 9;
        node = record { policy = 0; changes = record { inserted = []; removed = []; manage = [] } };
      }
      ∷ [];
}

abbrev heap : Heap
heap k = record {
  emitter = some 1;
  levels = true ∷ true ∷ true ∷ true ∷ true ∷ [];
  location = "a";
  context = "f";
  tag = "t";
}

one-IsValid : IsValid store one
one-IsValid = record {
  clean = refl;
  sorted = (refl, tt);
  quiet = (record { no_insert = refl; no_remove = refl }, tt);
  arbitrated = λ l. ground arith;
}

one-IsConfigured : IsConfigured store one heap
one-IsConfigured l = ground arith

-- An element is a number; from 100 on it is a level.
abbrev type_of : ℕ → ℕ
type_of v = if v == 103 then 7 else 0

abbrev level_of : ℕ → ℕ
level_of v = 3

abbrev number : Option ℕ → ℕ
number o = elim o [ none ↦ 0 | some x ↦ x ]

other_emitter : (p : ℕ) (v : Logger) → ((store p).settings v).emitter ≢ some 1
other_emitter p v e = let h : 9 ≡ 1 = ap number e in absurd (omega (arith, h))

emit_lem_example : Returns (emit type_of 7 level_of store 1 1 5 (42 ∷ 103 ∷ []) one heap) (λ d.
    IsValid store d.1
    × IsConfigured store d.1 d.2
    × (managed 5 d.1.policies ≡ true)
    × (route (d.2 5) 3 ≡ some d.0))
unfolding get
emit_lem_example =
    emit_lem type_of 7 level_of store 1 5 3 (42 ∷ 103 ∷ []) one heap one-IsValid one-IsConfigured
      refl refl other_emitter (λ p v. (true, refl))

emit_unmatched_example : emit type_of 7 level_of store 1 20 8 (42 ∷ 103 ∷ []) one heap ≡ none
unfolding get
emit_unmatched_example =
    emit_unmatched type_of 7 level_of store 1 20 8 3 (42 ∷ 103 ∷ []) one heap refl refl refl refl
      refl

-- The same policy as the default one, at the least priority.
abbrev global : Global
global = record {
  policy = only;
  configuration = record one {
    policies =
        record {
          priority = default_priority;
          node = record {
            policy = 0;
            changes = record { inserted = []; removed = []; manage = [] };
          };
        }
        ∷ [];
  };
}

global-IsValid : IsValid (stored store 0 only) global.configuration
global-IsValid = record {
  clean = refl;
  sorted = (refl, tt);
  quiet = (record { no_insert = refl; no_remove = refl }, tt);
  arbitrated = λ l. ground arith;
}

global-IsConfigured : IsConfigured (stored store 0 only) global.configuration heap
global-IsConfigured l = ground arith

set_default_lem_example :
    Reset store 0
      (record only { emitter = some 4 })
      global
      (set_default_emitter store 0 (some 4) global heap)
    × Reset store 0
        (record only { levels = two_levels })
        global
        (set_default_levels store 0 two_levels global heap)
set_default_lem_example =
    set_default_lem store 0 (some 4) two_levels global heap global-IsValid global-IsConfigured
      (λ e. refl, tt)
