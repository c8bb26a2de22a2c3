-- ===== src/Handle/Tests.antt =====
-- A buffer of four characters.
use dynalog.Base.{◌≡◌, refl, true, false, not, ltb, List, [], ◌∷◌, arith, length, take, replicate}
use dynalog.Base.Int.{ℤ, pos, eqb_ℤ}
use dynalog.Handle.{Text, create_stream, emit, emit_all}
use dynalog.Handle.Laws.{line, emit-line, emit_all_lost}

-- A system call that takes everything.
abbrev all_of : Text → ℤ
all_of text = pos (length text)

abbrev long : List Text
long = (65 ∷ 66 ∷ []) ∷ (67 ∷ 68 ∷ []) ∷ []

abbrev later : List (List Text)
later = ((69 ∷ []) ∷ []) ∷ []

emit_all_lost_example :
    emit_all all_of 4 (long ∷ later) create_stream ≡ take 4 (line long) ∷ replicate 1 []
emit_all_lost_example = emit_all_lost all_of 4 long later create_stream refl (omega arith)

emit-line_example :
    let outcome = emit all_of 4 long create_stream in
    (create_stream.bad ≡ false
      → (outcome.sent ≡ take 4 (line long)) × (outcome.stream.bad ≡ ltb 4 (length (line long))))
    × (create_stream.bad ≡ true → (outcome.sent ≡ []) × (outcome.stream.bad ≡ true))
    × (outcome.warned ≡ not (eqb_ℤ (pos (length outcome.sent)) (all_of outcome.sent)))
emit-line_example = emit-line all_of 4 long create_stream
