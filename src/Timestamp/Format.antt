-- ===== src/Timestamp/Format.antt =====
-- The functors of include/Timestamp.h that print a time. A template parameter is an argument; the
-- functors that a class derives from are a list of functions.
use dynalog.Base.{ℕ, Bool, List, [], ◌∷◌, ◌||◌, ◌==◌}
use dynalog.Base.Int.{ℤ}
use dynalog.Timestamp.Atoms.{Atoms}
use dynalog.Timestamp.Stream.{Text, Stream, put_number, put_character, integer_text, fixed}

-- `Fill`, `Width` and `Precision`, and `Flags` with the flags after its first.
abbrev pub Op : Type 0
Op = Stream → Stream

unfoldable pub set_fill : ℕ → Op
set_fill val stream = record stream { fill = val }

unfoldable pub set_width : ℕ → Op
set_width val stream = record stream { width = val }

unfoldable pub set_precision : ℕ → Op
set_precision val stream = record stream { precision = val }

abbrev pub setf : ℕ → Op
setf flag stream = record stream { flags = λ other. other == flag || stream.flags other }

unfoldable pub set_flags : ℕ → List ℕ → Op
set_flags last [] stream = setf last stream
set_flags current (next ∷ remainder) stream = set_flags next remainder (setf current stream)

-- `ApplyAll` of operations on the stream, and of functors that also take the parts of a time.
unfoldable pub apply_ops : List Op → Op
apply_ops [] stream = stream
apply_ops (current ∷ remainder) stream = apply_ops remainder (current stream)

abbrev pub Functor : Type 0
Functor = Stream → Atoms → Stream

unfoldable pub apply_functors : List Functor → Functor
apply_functors [] stream atoms = stream
apply_functors (current ∷ remainder) stream atoms =
    apply_functors remainder (current stream atoms) atoms

-- `Fragment` of an integer of `bits` bits, and `Fragment` of a duration, whose text, at the precision and flags of the
-- stream, is a parameter.
unfoldable pub fragment : ℕ → (Atoms → ℤ) → List Op → Functor
fragment bits get ops stream atoms =
    let formatted = apply_ops ops stream in
    put_number (integer_text bits formatted.flags (get atoms)) formatted

unfoldable pub duration_fragment : (ℕ → (ℕ → Bool) → ℤ → Text) → (Atoms → ℤ) → List Op → Functor
duration_fragment show get ops stream atoms =
    let formatted = apply_ops ops stream in
    put_number (show formatted.precision formatted.flags (get atoms)) formatted

-- `L` of a character.
unfoldable pub literal : ℕ → Functor
literal val stream atoms = put_character val stream

-- `Formatter`: `copyfmt` saves and restores all but the text.
unfoldable pub formatter : List Functor → Functor
formatter parts stream atoms =
    let state = stream in record state { text = (apply_functors parts stream atoms).text }

-- The fragments that the header names; `std::chrono::hours` and `minutes` have 64 bits.
unfoldable pub year_format : Functor
year_format = fragment 32 (λ atoms. atoms.year) (set_width 4 ∷ [])

abbrev pub two_digits : List Op
two_digits = set_width 2 ∷ set_fill 48 ∷ []

unfoldable pub month_format : Functor
month_format = fragment 32 (λ atoms. atoms.month) two_digits

unfoldable pub day_format : Functor
day_format = fragment 32 (λ atoms. atoms.day) two_digits

unfoldable pub hour_format : Functor
hour_format = fragment 64 (λ atoms. atoms.hour) two_digits

unfoldable pub minute_format : Functor
minute_format = fragment 64 (λ atoms. atoms.minute) two_digits

unfoldable pub second_format : (ℕ → (ℕ → Bool) → ℤ → Text) → Functor
second_format show =
    duration_fragment show (λ atoms. atoms.nanoseconds)
      (set_width 6 ∷ set_fill 48 ∷ set_flags fixed [] ∷ set_precision 3 ∷ [])

-- `ISO_8601`.
unfoldable pub iso_8601 : (ℕ → (ℕ → Bool) → ℤ → Text) → Functor
iso_8601 show = formatter (
    year_format
    ∷ literal 45
    ∷ month_format
    ∷ literal 45
    ∷ day_format
    ∷ literal 84
    ∷ hour_format
    ∷ literal 58
    ∷ minute_format
    ∷ literal 58
    ∷ second_format show
    ∷ literal 90
    ∷ [])
