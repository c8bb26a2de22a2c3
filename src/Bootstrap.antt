-- ===== src/Bootstrap.antt =====
-- `BootstrapEmitter` of source/Log.cpp: the emitter that embedded loggers start with. It inserts the
-- logger into the configuration, checks the level of the message again, and hands the message to the
-- emitter that the logger has then. `emit` calls itself through the logger, hence the fuel; `none` is
-- that the fuel is used up, or that `levels.get` threw.
pub mod Handover
pub mod Global
mod Tests
use dynalog.Base.{
  ℕ, zero, suc, Bool, true, false, List, Option, none, some, ◌==◌, if◌then◌else◌, length, ◌>>=◌,
}
use dynalog.Levels.{Bits, Logger, get}
use dynalog.Config.Policy.{Policy, Heap}
use dynalog.Config.Store.{Configuration, insert_logger}
use dynalog.Message.Body.{reflect, is_type, as_value}

-- A value of `V` is an element of a message; `level_type` is the type `Level`.
module _ {ℓ} {V : Type ℓ} (type_of : V → ℕ) (level_type : ℕ) (level_of : V → ℕ) where
  -- The loop over the elements: whether the message goes on.
  pub recheck : ℕ → ℕ → Bits → List V → Option Bool
  recheck zero index levels elements = some true
  recheck (suc rounds) index levels elements =
      let rest = recheck rounds (suc index) levels elements in
      (do
        reflection ← reflect type_of elements index
        elim (is_type type_of level_type reflection) [
          | false ↦ rest
          | true ↦ do level ← as_value type_of level_type reflection; get levels (level_of level)
        ])

  -- Where the message ends up, if anywhere, and what the configuration and the loggers are then.
  pub emit :
      (ℕ → Policy)
      → ℕ
      → ℕ
      → ℕ
      → List V
      → Configuration
      → Heap
      → Option (Option ℕ × Configuration × Heap)
  emit store bootstrapper zero logger elements c h = none
  emit store bootstrapper (suc fuel) logger elements c h =
      let (result, c', h') = insert_logger store logger c h in
      (do
        pass ← recheck (length elements) 0 (h' logger).levels elements
        elim pass [
          | false ↦ some (none, c', h')
          | true ↦ elim (h' logger).emitter [
            | none ↦ some (none, c', h')
            | some emitter ↦ elim (emitter == bootstrapper) [
              | true ↦ emit store bootstrapper fuel logger elements c' h'
              | false ↦ some (some emitter, c', h')
            ]
          ]
        ])
