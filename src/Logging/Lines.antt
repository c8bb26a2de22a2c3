-- ===== src/Logging/Lines.antt =====
-- What a statement that logs to a file descriptor hands to the system call.
use dynalog.Base.{
  ℕ, ◌<◌, ◌≡◌, refl, ◌∙◌, ap, Bool, true, false, not, if◌then◌else◌, List, [], ◌∷◌, map, none, some,
  take, length, ltb, Returns, Option-cases, inl, inr,
}
use dynalog.Base.Int.{ℤ, pos, eqb_ℤ}
use dynalog.Levels.{Logger, route, get}
use dynalog.Message.Object.{create_object_buffer}
use dynalog.Message.Object.Lifetime.{create_object_buffer-Contains}
use dynalog.Message.Body.Elements.{written, format-print_message}
use dynalog.Handle.{Text}
use dynalog.Handle.Laws.{line, emit-line}
use dynalog.Logging.{Output, log, emit_handle}

written-map {ℓ} :
    {V : Type ℓ} (text : V → Text) (elements : List V)
    → written (λ v. text v ∷ []) elements ≡ map text elements
written-map text [] = refl
written-map text (v ∷ vs) = ap (λ r. text v ∷ r) (written-map text vs)

unless {ℓ} : {X : Type ℓ} (b : Bool) (x y : X) → (if not b then x else y) ≡ (if b then y else x)
unless true x y = refl
unless false x y = refl

module _ {ℓ} {V : Type ℓ} (text : V → Text) (size_of : ℕ → ℕ) (write_call : Text → ℤ)
    (size body level : ℕ) (empty_text : Text) (elements : List V) (output : Output) where
  -- The line of a statement, as far as the buffer holds it.
  abbrev held : Text
  held = take size (line (map text elements))

  -- What a statement leaves.
  abbrev Wrote : ℕ → Output → Type 0
  Wrote fd r =
      (r.handed ≡ (fd, held) ∷ output.handed)
      × (r.warnings ≡ (
          if eqb_ℤ (pos (length held)) (write_call held)
          then output.warnings
          else fd ∷ output.warnings))
      × (r.stream.bad ≡ ltb size (length (line (map text elements))))

  written_line :
      (fd : ℕ) (logger : Logger)
      → 0 < size_of body
      → output.stream.bad ≡ false
      → route logger level ≡ some (some fd)
      → Returns
          (log size_of body
            (emit_handle text write_call size body empty_text)
            logger
            level
            elements
            output)
          (Wrote fd)
  unfolding log emit_handle
  written_line fd logger p good e =
      let (r, q, (gone, kept, printed)) =
        format-print_message (λ v. text v ∷ []) size_of body elements create_object_buffer none
          (empty_text ∷ []) [] create_object_buffer-Contains p in
      let all = emit-line write_call size (written (λ v. text v ∷ []) elements) output.stream in
      let h = all.0 good in
      let same = written-map text elements in
      rw (e, q, printed)
        (
          _,
          refl,
          (
            ap (λ t. (fd, t) ∷ output.handed) (h.0 ∙ ap (λ m. take size (line m)) same),
            ap (λ b. if b then fd ∷ output.warnings else output.warnings) all.2
                ∙ ap
                    (λ t.
                      if not (eqb_ℤ (pos (length t)) (write_call t))
                      then fd ∷ output.warnings
                      else output.warnings)
                    (h.0 ∙ ap (λ m. take size (line m)) same)
                ∙ unless (eqb_ℤ (pos (length held)) (write_call held)) (fd ∷ output.warnings)
                    output.warnings,
            h.1 ∙ ap (λ m. ltb size (length (line m))) same,
          ),
        )

  -- With a stream in the good state and a body of a size above zero: where the logger has an
  -- emitter and the level is enabled, a statement hands one line to `write` for that descriptor, that
  -- of the texts of its arguments in order, cut off after the size of the stream's buffer; it warns
  -- exactly if the call does not take all of it, and leaves the stream bad exactly if the line was
  -- longer than the buffer; where there is no emitter or the level is disabled, it does
  -- nothing; and where there is an emitter and the level is out of range, it throws.
  pub log-emit_handle :
      (logger : Logger)
      → 0 < size_of body
      → output.stream.bad ≡ false
      → let run =
          log size_of body
            (emit_handle text write_call size body empty_text)
            logger
            level
            elements
            output in
        ((fd : ℕ)
          → logger.emitter ≡ some fd
          → get logger.levels level ≡ some true
          → Returns run (Wrote fd))
        × (logger.emitter ≡ none → run ≡ some output)
        × (get logger.levels level ≡ some false → run ≡ some output)
        × ((fd : ℕ) → logger.emitter ≡ some fd → get logger.levels level ≡ none → run ≡ none)
  unfolding log route
  log-emit_handle logger p good = (
    λ fd e f. written_line fd logger p good (rw (e, f) refl),
    λ e. rw e refl,
    λ f. elim (Option-cases logger.emitter) [ inl e ↦ rw e refl | inr (fd, e) ↦ rw (e, f) refl ],
    λ fd e f. rw (e, f) refl,
  )
