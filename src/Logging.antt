-- ===== src/Logging.antt =====
-- A statement that logs: `Logger::log` of include/Logger.h with the builder that the macros of
-- include/Log.h make, which formats the arguments into a message, and `HandleEmitter::emit` of
-- source/HandleEmitter.cpp as its emitter. The types, their sizes and the texts of the arguments are
-- parameters; a level that is out of range is an exception, which is `none`.
pub mod Lines
mod Tests
use dynalog.Base.{ℕ, List, [], ◌∷◌, Option, none, some, if◌then◌else◌, ◌>>=◌}
use dynalog.Base.Int.{ℤ}
use dynalog.Levels.{Logger, route}
use dynalog.Message.Object.{ObjectBuffer, create_object_buffer}
use dynalog.Message.Body.{format, print_message}
use dynalog.Handle.{Text, ArrayStream, Outcome}
use dynalog.Handle

-- What was handed to the system call `write`, with its file descriptor, and the file descriptors that
-- a warning to `stderr` named, the last ones first, with the stream of the thread.
pub record Output : Type 0 where
  pub handed : List (ℕ × Text)
  pub warnings : List ℕ
  pub stream : ArrayStream

module _ {ℓ} {V : Type ℓ} {S : Type 0} where
  -- `log`, where `emit` is the virtual function of all emitters, and the builder formats `elements`.
  pub log :
      (size_of : ℕ → ℕ)
      → ℕ
      → (ℕ → ObjectBuffer (List V) → S → Option S)
      → Logger
      → ℕ
      → List V
      → S
      → Option S
  log size_of body emit logger level elements s = do
    destination ← route logger level
    elim destination [
      | none ↦ some s
      | some emitter ↦ do
        (gone, message) ← format size_of body elements create_object_buffer
        emit emitter message s
    ]

module _ {ℓ} {V : Type ℓ} (text : V → Text) where
  -- `emit` of the emitter of a file descriptor: each element is inserted into the stream, and what
  -- the stream holds then is handed to `write`; where the call does not take everything, there is a
  -- warning.
  pub emit_handle : (Text → ℤ) → ℕ → ℕ → Text → ℕ → ObjectBuffer (List V) → Output → Option Output
  emit_handle write_call size body empty_text fd message output = do
    texts ← print_message (λ v. text v ∷ []) body (empty_text ∷ []) message []
    let outcome = Handle.emit write_call size texts output.stream in
        some (record {
          handed = (fd, outcome.sent) ∷ output.handed;
          warnings = if outcome.warned then fd ∷ output.warnings else output.warnings;
          stream = outcome.stream;
        })
