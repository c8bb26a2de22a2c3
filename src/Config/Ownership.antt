-- ===== src/Config/Ownership.antt =====
-- Who manages a logger of a `Configuration` of include/Configuration.h, whatever was called before.
use dynalog.Base.{ℕ, ◌+◌, Bool, List, [], ◌∷◌, if◌then◌else◌}
use dynalog.Base.Int.{ℤ}
use dynalog.Config.Policy.{Policy, Heap}
use dynalog.Config.Store.{
  Entry, Configuration, insert_policy, remove_policy, update_policy, rescan_policy, insert_logger,
  remove_logger,
}
use dynalog.Config.Arbitration.{manages, IsValid, IsConfigured}

-- How many entries manage the logger.
abbrev pub managers : ℕ → List Entry → ℕ
managers l [] = 0
managers l (e ∷ es) = (if manages l e.node then 1 else 0) + managers l es

-- A call of a member function of `Configuration`.
pub data Operation : Type 0 where
  insert_a_policy : (priority : ℤ) (policy : ℕ) → Operation
  remove_a_policy : (priority : ℤ) (policy : ℕ) → Operation
  update_a_policy : (priority : ℤ) → Operation
  rescan_a_policy : (priority : ℤ) → Operation
  insert_a_logger : (logger : ℕ) → Operation
  remove_a_logger : (logger : ℕ) → Operation

abbrev pub perform : (ℕ → Policy) → Operation → Configuration → Heap → Bool × Configuration × Heap
perform store (insert_a_policy priority policy) c h = insert_policy store priority policy c h
perform store (remove_a_policy priority policy) c h = remove_policy store priority policy c h
perform store (update_a_policy priority) c h = update_policy store priority c h
perform store (rescan_a_policy priority) c h = rescan_policy store priority c h
perform store (insert_a_logger logger) c h = insert_logger store logger c h
perform store (remove_a_logger logger) c h = remove_logger store logger c h

abbrev pub perform_all : (ℕ → Policy) → List Operation → Configuration → Heap → Configuration × Heap
perform_all store [] c h = (c, h)
perform_all store (operation ∷ rest) c h =
    let (result, c', h') = perform store operation c h in perform_all store rest c' h'

-- A new `Configuration`.
abbrev pub empty_configuration : Configuration
empty_configuration = record { scratch = []; policies = [] }

module _ (store : ℕ → Policy) where
  abbrev Sound : Configuration → Heap → Type 0
  Sound c h = IsValid store c × IsConfigured store c h
