-- ===== src/Handle.antt =====
-- `HandleEmitter` of include/HandleEmitter.h and source/HandleEmitter.cpp, with its stream over a fixed
-- buffer. A character is its code; what the elements of a message print is given. The default `overflow` of
-- `std::streambuf` fails, which puts a stream into the bad state, in which it takes no more output.
pub mod Laws
mod Tests
use dynalog.Base.{
  ℕ, ◌+◌, ◌-◌, Bool, true, false, not, ◌||◌, List, [], ◌∷◌, ◌++◌, Option, none, some, ltb,
  if◌then◌else◌, length, take,
}
use dynalog.Base.Int.{ℤ, pos, eqb_ℤ}

abbrev pub Text : Type 0
Text = List ℕ

-- `ArrayStream` with its `streambuf_wrapper`: what stands between `pbase` and `pptr`, and the stream's state.
pub record ArrayStream : Type 0 where
  pub formatted : Text
  pub bad : Bool

abbrev pub create_stream : ArrayStream
create_stream = record { formatted = []; bad = false }

-- `streambuf.reset()`, which leaves the stream's state alone.
pub reset : ArrayStream → ArrayStream
reset stream = record stream { formatted = [] }

-- An insertion: what fits is copied.
pub insert : ℕ → Text → ArrayStream → ArrayStream
insert size text stream = if stream.bad then stream else record {
  formatted = stream.formatted ++ take (size - length stream.formatted) text;
  bad = ltb (size - length stream.formatted) (length text);
}

pub insert_all : ℕ → List Text → ArrayStream → ArrayStream
insert_all size [] stream = stream
insert_all size (text ∷ texts) stream = insert_all size texts (insert size text stream)

-- `write( fd )`: whether the system call, which is a parameter, takes everything.
pub write : (Text → ℤ) → ArrayStream → Bool
write write_call stream = eqb_ℤ (pos (length stream.formatted)) (write_call stream.formatted)

-- What a call of `emit` hands to the system call, and whether it prints a warning.
pub record Outcome : Type 0 where
  pub sent : Text
  pub warned : Bool
  pub stream : ArrayStream

-- `emit`, where `message` is what its elements print. `std::endl` inserts a newline.
pub emit : (Text → ℤ) → ℕ → List Text → ArrayStream → Outcome
emit write_call size message stream =
    let printed = insert size (10 ∷ []) (insert_all size message (reset stream)) in
    record { sent = printed.formatted; warned = not (write write_call printed); stream = printed }

-- Several messages of one thread, one after the other, which share its stream.
pub emit_all : (Text → ℤ) → ℕ → List (List Text) → ArrayStream → List Text
emit_all write_call size [] stream = []
emit_all write_call size (message ∷ messages) stream =
    let outcome = emit write_call size message stream in
    outcome.sent ∷ emit_all write_call size messages outcome.stream

pub record HandleEmitter : Type 0 where
  pub fd : ℕ
  pub cleanup : Bool

-- `~HandleEmitter`: the handle that is cleaned up, if any.
abbrev pub destroy_handle : HandleEmitter → Option ℕ
destroy_handle emitter = if emitter.cleanup then some emitter.fd else none
