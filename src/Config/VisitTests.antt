-- ===== src/Config/VisitTests.antt =====
-- A visit of a concrete configuration.
use dynalog.Base.{ℕ, ◌≡◌, refl, true, false, not, List, [], ◌∷◌, mem, if◌then◌else◌, ◌==◌, arith}
use dynalog.Config.Policy.{Policy}
use dynalog.Config.Predicate.{predicate_policy, match_all}
use dynalog.Config.Arbitration.{managed, IsValid, keys}
use dynalog.Config.Keys.{has_key}
use dynalog.Config.Visit.{int_max, visitor, match_action, visit}
use dynalog.Config.Tests.{store, two, heap}
use dynalog.Config.VisitLaws.{all_managed, visit_lem}

-- Policy 7 is the visitor.
abbrev with_visitor : ℕ → Policy
with_visitor k = if k == 7 then predicate_policy (visitor []) else store k

two-IsValid-visited : IsValid with_visitor two
unfolding match_all
two-IsValid-visited = record {
  clean = refl;
  sorted = (refl, (refl, tt));
  quiet = (
    record { no_insert = refl; no_remove = refl },
    (record { no_insert = refl; no_remove = refl }, tt),
  );
  arbitrated = λ l. ground arith;
}

-- The action records the loggers, the last one first.
abbrev note : ℕ → List ℕ → List ℕ
note logger s = logger ∷ s

visit_lem_example :
    let (result, s', c', h') = visit note with_visitor 7 two heap [] in
    (result ≡ not (has_key int_max (keys two.policies)))
    × (result ≡ true → s' ≡ match_action note (all_managed two.policies) [])
    × ((k : ℕ) → mem k (all_managed two.policies) ≡ managed k two.policies)
    × (result ≡ false → s' ≡ [])
    × (c' ≡ two)
    × (h' ≡ heap)
visit_lem_example =
    visit_lem note with_visitor 7 [] two heap [] refl (refl, (refl, tt)) two-IsValid-visited

all_seen : match_action note (all_managed two.policies) [] ≡ 6 ∷ 3 ∷ 4 ∷ []
unfolding match_action
all_seen = refl
