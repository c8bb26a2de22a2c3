-- ===== src/Message/Tests.antt =====
-- Concrete buffers and messages: the theorems at inputs that meet their hypotheses, and runs.
use dynalog.Base.{
  ℕ, ◌+◌, ◌*◌, ◌≡◌, refl, List, [], ◌∷◌, none, some, ◌==◌, if◌then◌else◌, arith, Returns,
}
use dynalog.Message.Object.{ObjectBuffer, create_object_buffer}
use dynalog.Message.Object.Lifetime.{Contains, create_object_buffer-Contains}
use dynalog.Message.Body.{print_message, format}
use dynalog.Message.Body.Elements.{format-print_message}

-- An element is a number, which is its text too; even ones have type 0, odd ones type 1.
abbrev type_of : ℕ → ℕ
type_of v = if v == 4 then 0 else 1

abbrev print : ℕ → List ℕ
print v = v ∷ []

abbrev size_of : ℕ → ℕ
size_of type = 8 * (type + 1)

abbrev old : ObjectBuffer (List ℕ)
old = record {
  info = some 1;
  destructor = some 1;
  buffer = some (record { capacity = 16; content = some (1, 7 ∷ []) });
}

old-Contains : Contains old (some (1, 7 ∷ []))
old-Contains = record { typed = refl; destroyed_by = refl; stored = refl }

new-Contains : Contains {A = List ℕ} create_object_buffer none
new-Contains = create_object_buffer-Contains

format-print_message_example : Returns (format size_of 2 (4 ∷ 5 ∷ []) old) (λ r.
    (r.0 ≡ (1, 7 ∷ []) ∷ [])
    × Contains r.1 (some (2, 4 ∷ 5 ∷ []))
    × (print_message print 2 [] r.1 (9 ∷ []) ≡ some (9 ∷ 4 ∷ 5 ∷ [])))
format-print_message_example =
    format-print_message print size_of 2 (4 ∷ 5 ∷ []) old (some (1, 7 ∷ [])) [] (9 ∷ [])
      old-Contains (omega arith)
