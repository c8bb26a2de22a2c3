-- ===== src/Logging/Tests.antt =====
-- A statement with two arguments.
use dynalog.Base.{
  ℕ, ◌+◌, ◌-◌, ◌≡◌, refl, true, false, [], ◌∷◌, map, none, some, take, length, ltb, arith, Returns,
  if◌then◌else◌,
}
use dynalog.Base.Int.{ℤ, pos, eqb_ℤ}
use dynalog.Levels.{Logger, get}
use dynalog.Handle.{Text, create_stream}
use dynalog.Handle.Laws.{line}
use dynalog.Logging.{Output, log, emit_handle}
use dynalog.Logging.Lines.{log-emit_handle}

-- A number prints as one digit, and a write takes all but one character.
abbrev digit : ℕ → Text
digit v = (48 + v) ∷ []

abbrev sixteen : ℕ → ℕ
sixteen type = 16

abbrev short_by_one : Text → ℤ
short_by_one sent = pos (length sent - 1)

abbrev nothing_yet : Output
nothing_yet = record { handed = []; warnings = []; stream = create_stream }

abbrev to_stderr : Logger
to_stderr = record {
  emitter = some 2;
  levels = true ∷ true ∷ false ∷ false ∷ false ∷ [];
  location = "a.cpp:1";
  context = "f";
  tag = "t";
}

log-emit_handle_example :
    let run =
      log sixteen 1
        (emit_handle digit short_by_one 4096 1 [])
        to_stderr
        1
        (4 ∷ 2 ∷ [])
        nothing_yet in
    ((fd : ℕ)
      → to_stderr.emitter ≡ some fd
      → get to_stderr.levels 1 ≡ some true
      → Returns run (λ r.
        (r.handed ≡ (fd, take 4096 (line (map digit (4 ∷ 2 ∷ [])))) ∷ [])
        × (r.warnings ≡ (
            if eqb_ℤ
              (pos (length (take 4096 (line (map digit (4 ∷ 2 ∷ []))))))
              (short_by_one (take 4096 (line (map digit (4 ∷ 2 ∷ [])))))
            then []
            else fd ∷ []))
        × (r.stream.bad ≡ ltb 4096 (length (line (map digit (4 ∷ 2 ∷ [])))))))
    × (to_stderr.emitter ≡ none → run ≡ some nothing_yet)
    × (get to_stderr.levels 1 ≡ some false → run ≡ some nothing_yet)
    × ((fd : ℕ) → to_stderr.emitter ≡ some fd → get to_stderr.levels 1 ≡ none → run ≡ none)
log-emit_handle_example =
    log-emit_handle digit sixteen short_by_one 4096 1 1 [] (4 ∷ 2 ∷ []) nothing_yet to_stderr
      (omega arith) refl
