-- ===== src/Config/Tests.antt =====
-- Concrete configurations: the theorems at inputs that meet their hypotheses, and runs.
use dynalog.Base.{
  ℕ, ◌≡◌, refl, true, false, not, ◌&&◌, List, [], ◌∷◌, Option, some, if◌then◌else◌, ◌==◌, arith,
  ◌≢◌,
}
use dynalog.Base.Int.{ℤ, pos, negsuc, eqb_ℤ}
use dynalog.Levels.{Logger, Bits}
use dynalog.Config.Changes.{reset, reset-update_remove, ChangeSet}
use dynalog.Config.Policy.{Policy, Heap}
use dynalog.Config.Predicate.{
  PredicatePolicy, predicate_policy, match_all, configure_emitter, configure_levels, match_loop,
}
use dynalog.Config.Store
use dynalog.Config.Sets
use dynalog.Config.Changes
use dynalog.Config.Node.{adopt, update}
use dynalog.Config.Store.{Entry, Configuration}
use dynalog.Config.Arbitration.{
  managed, selected, IsValid, IsConfigured, IsValidBut, IsConfiguredBut, keys,
}
use dynalog.Config.Keys.{has_key}
use dynalog.Config.Places.{installed}
use dynalog.Config.InsertLogger.{insert_logger_lem}
use dynalog.Config.RemoveLogger.{remove_logger_lem}
use dynalog.Config.InsertPolicy.{insert_policy_lem}
use dynalog.Config.RemovePolicy.{remove_policy_lem}
use dynalog.Config.Rescan.{rescan_policy_lem}
use dynalog.Config.UpdatePolicy.{update_policy_lem}
use dynalog.Config.Ownership.{Operation, insert_a_policy, insert_a_logger, rescan_a_policy}

abbrev pub enabled : Bits
enabled = true ∷ true ∷ true ∷ true ∷ true ∷ []

-- Policy 0 takes every logger to emitter 9, policy 1 logger 4 to emitter 7, policy 2 logger 3 to 8.
abbrev default_policy : PredicatePolicy
default_policy = record { predicate = match_all; emitter = some 9; levels = enabled }

abbrev fourth : PredicatePolicy
fourth = record { predicate = λ k. k == 4; emitter = some 7; levels = enabled }

abbrev third : PredicatePolicy
third = record { predicate = λ k. k == 3; emitter = some 8; levels = enabled }

abbrev pub store : ℕ → Policy
store k =
    if k == 0
    then predicate_policy default_policy
    else if k == 1
    then predicate_policy fourth
    else predicate_policy third

abbrev changes_of : List ℕ → ChangeSet
changes_of loggers = record { inserted = []; removed = []; manage = loggers }

abbrev entry : ℤ → ℕ → List ℕ → Entry
entry priority policy loggers = record {
  priority = priority;
  node = record { policy = policy; changes = changes_of loggers };
}

-- Logger 4 is managed by policy 1, loggers 3 and 6 by the default policy.
abbrev pub two : Configuration
two = record {
  scratch = [];
  policies = entry (pos 5) 1 (4 ∷ []) ∷ entry (negsuc 9) 0 (3 ∷ 6 ∷ []) ∷ [];
}

abbrev logger_at : Option ℕ → Logger
logger_at emitter = record {
  emitter = emitter;
  levels = enabled;
  location = "a.cpp:1";
  context = "f";
  tag = "t";
}

abbrev pub heap : Heap
heap k = logger_at (if k == 4 then some 7 else some 9)

two-IsValid : IsValid store two
unfolding match_all
two-IsValid = record {
  clean = refl;
  sorted = (refl, (refl, tt));
  quiet = (
    record { no_insert = refl; no_remove = refl },
    (record { no_insert = refl; no_remove = refl }, tt),
  );
  arbitrated = λ l. ground arith;
}

two-IsConfigured : IsConfigured store two heap
unfolding match_all
two-IsConfigured l = ground arith

insert_logger_lem_example :
    let (result, c', h') = Store.insert_logger store 5 two heap in
    (result ≡ true)
    × IsValid store c'
    × IsConfigured store c' h'
    × ((k : ℕ) → managed k c'.policies ≡ (if k == 5 then true else managed k two.policies))
    × ((k : ℕ) → k ≢ 5 → h' k ≡ heap k)
unfolding match_all
insert_logger_lem_example = insert_logger_lem store 5 two heap two-IsValid two-IsConfigured

remove_logger_lem_example :
    let (result, c', h') = Store.remove_logger store 4 two heap in
    (result ≡ true)
    × IsValid store c'
    × IsConfigured store c' h'
    × ((k : ℕ) → managed k c'.policies ≡ (not (k == 4) && managed k two.policies))
    × ((k : ℕ) → h' k ≡ heap k)
remove_logger_lem_example = remove_logger_lem store 4 two heap two-IsValid two-IsConfigured

-- Policy 2 takes logger 3 from the default policy.
insert_policy_lem_example :
    let (result, c', h') = Store.insert_policy store (pos 1) 2 two heap in
    (result ≡ true)
    × (result ≡ false → (c' ≡ two) × (h' ≡ heap))
    × (result ≡ true → installed (pos 1) 2 c'.policies ≡ true)
    × IsValid store c'
    × IsConfigured store c' h'
    × ((k : ℕ) → managed k c'.policies ≡ managed k two.policies)
    × ((k : ℕ) → (store 2).selects k ≡ false → h' k ≡ heap k)
insert_policy_lem_example = insert_policy_lem store (pos 1) 2 two heap two-IsValid two-IsConfigured

remove_policy_lem_example :
    let (result, c', h') = Store.remove_policy store (pos 5) 1 two heap in
    (result ≡ true)
    × (result ≡ false → (c' ≡ two) × (h' ≡ heap))
    × (result ≡ true → has_key (pos 5) (keys c'.policies) ≡ false)
    × ((other : ℤ) (id : ℕ)
        → eqb_ℤ (pos 5) other ≡ false
        → installed other id c'.policies ≡ installed other id two.policies)
    × IsValid store c'
    × IsConfigured store c' h'
    × ((k : ℕ) → managed k c'.policies ≡ (managed k two.policies && selected store k c'.policies))
remove_policy_lem_example = remove_policy_lem store (pos 5) 1 two heap two-IsValid two-IsConfigured

-- The policy at priority 5 was changed to select logger 3 and not 4 any more.
abbrev changed : ℕ → Policy
changed k = if k == 1 then predicate_policy third else store k

two-IsValidBut : IsValidBut changed (pos 5) two
unfolding match_all
two-IsValidBut = record {
  clean = refl;
  sorted = (refl, (refl, tt));
  quiet = (
    record { no_insert = refl; no_remove = refl },
    (record { no_insert = refl; no_remove = refl }, tt),
  );
  arbitrated = λ l. ground arith;
}

two-IsConfiguredBut : IsConfiguredBut changed (pos 5) two heap
unfolding match_all
two-IsConfiguredBut l = ground arith

rescan_policy_lem_example :
    let (result, c', h') = Store.rescan_policy changed (pos 5) two heap in
    (result ≡ true)
    × (result ≡ false → (c' ≡ two) × (h' ≡ heap))
    × (result ≡ true
        → IsValid changed c'
          × IsConfigured changed c' h'
          × (keys c'.policies ≡ keys two.policies)
          × ((k : ℕ)
              → managed k c'.policies ≡ (managed k two.policies && selected changed k c'.policies)))
rescan_policy_lem_example =
    rescan_policy_lem changed (pos 5) two heap two-IsValidBut two-IsConfiguredBut

abbrev fewer : Bits
fewer = true ∷ false ∷ false ∷ false ∷ false ∷ []

-- The policy at priority 5 was changed to use another emitter and fewer levels.
abbrev reconfigured : ℕ → Policy
reconfigured k =
    if k == 1
    then predicate_policy (configure_levels fewer (configure_emitter (some 12) fourth))
    else store k

two-IsValid-reconfigured : IsValid reconfigured two
unfolding match_all configure_emitter configure_levels
two-IsValid-reconfigured = record {
  clean = refl;
  sorted = (refl, (refl, tt));
  quiet = (
    record { no_insert = refl; no_remove = refl },
    (record { no_insert = refl; no_remove = refl }, tt),
  );
  arbitrated = λ l. ground arith;
}

two-IsConfiguredBut-reconfigured : IsConfiguredBut reconfigured (pos 5) two heap
unfolding match_all configure_emitter configure_levels
two-IsConfiguredBut-reconfigured l = ground arith

update_policy_lem_example :
    let (result, c', h') = Store.update_policy reconfigured (pos 5) two heap in
    (result ≡ true)
    × (result ≡ false → (c' ≡ two) × (h' ≡ heap))
    × IsValid reconfigured c'
    × (result ≡ true → IsConfigured reconfigured c' h')
    × (keys c'.policies ≡ keys two.policies)
    × ((k : ℕ) → managed k c'.policies ≡ managed k two.policies)
update_policy_lem_example =
    update_policy_lem reconfigured (pos 5) two heap two-IsValid-reconfigured
      two-IsConfiguredBut-reconfigured

-- The default policy gets logger 4, which policy 1 then takes.
abbrev calls : List Operation
calls =
    insert_a_policy (negsuc 9) 0
    ∷ insert_a_logger 4
    ∷ insert_a_policy (pos 5) 1
    ∷ rescan_a_policy (pos 5)
    ∷ []

-- A logger that no policy selects is not inserted.
unmatched : (Store.insert_logger (λ k. predicate_policy fourth) 5 two heap).0 ≡ false
unfolding Store.insert_logger Store.offer_loop adopt update match_loop Sets.insert Sets.is_empty
    Sets.erase_all Changes.update_insert Changes.pending
unmatched = refl
