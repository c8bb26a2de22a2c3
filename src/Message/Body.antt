-- ===== src/Message/Body.antt =====
-- `Content`, `Reflection`, `Body` and `format` of include/Message.h, `IndexSequence` of
-- include/util.h, and the printing of a message in source/Message.cpp. An element of the tuple is a
-- value of `V`; its type and the text that its `operator <<` writes are parameters. A pointer to an
-- element is the element. An index that the tuple does not have is no program, which is `none`.
pub mod Elements
use dynalog.Base.{
  ℕ, zero, suc, Bool, true, false, List, [], ◌∷◌, ◌++◌, Option, none, some, ltb, ◌==◌,
  if◌then◌else◌, get_elem?, length, ◌>>=◌,
}
use dynalog.Message.Object.{ObjectBuffer, buffer_size, is_vacant, resize, emplace_object, as_type}

-- `GenerateIndexSequence<N, Seq...>`.
pub generate : ℕ → List ℕ → List ℕ
generate zero sequence = sequence
generate (suc n) sequence = generate n (n ∷ sequence)

pub record Reflection {ℓ} (V : Type ℓ) : Type ℓ where
  pub info : Option ℕ
  pub object : Option V

module _ {ℓ κ} {V : Type ℓ} {S : Type κ} where
  -- The two functions `apply`; `s` is the state of the functor.
  pub apply_all : (S → ℕ → V → S) → S → List V → List ℕ → Option S
  apply_all func s elements [] = some s
  apply_all func s elements (index ∷ remainder) = do
    element ← get_elem? elements index
    apply_all func (func s index element) elements remainder

module _ {ℓ κ} {V : Type ℓ} {C : Type κ} (print : V → List C) where
  -- `Streamer::operator()`.
  pub streamer : List C → ℕ → V → List C
  streamer stream index element = stream ++ print element

  pub serialize : List V → List C → Option (List C)
  serialize elements stream = apply_all streamer stream elements (generate (length elements) [])

  -- `operator <<` of a message, whose buffer holds a body of type `body`, or nothing.
  pub print_message : ℕ → List C → ObjectBuffer (List V) → List C → Option (List C)
  print_message body empty_text o stream =
      if is_vacant o
      then some (stream ++ empty_text)
      else (do elements ← as_type body o; serialize elements stream)

module _ {ℓ} {V : Type ℓ} (type_of : V → ℕ) where
  -- `Reflector::operator()`.
  pub reflector : ℕ → Reflection V → ℕ → V → Reflection V
  reflector target reflection index element =
      if index == target
      then record { info = some (type_of element); object = some element }
      else reflection

  pub reflect : List V → ℕ → Option (Reflection V)
  reflect elements index =
      apply_all (reflector index) (record { info = none; object = none }) elements
        (generate (length elements) [])

  -- `is<Type>()`.
  pub is_type : ℕ → Reflection V → Bool
  is_type type reflection = elim reflection.info [ none ↦ false | some other ↦ type == other ]

  -- `as<Type>()`: what is read through a null pointer, or as another type, is undefined.
  pub as_value : ℕ → Reflection V → Option V
  as_value type reflection = do
    element ← reflection.object
    if type == type_of element then some element else none

module _ {ℓ} {V : Type ℓ} (size_of : ℕ → ℕ) where
  -- `format`, of arguments whose `Body` has the type `body`: what is destroyed, and the buffer.
  pub format :
      ℕ → List V → ObjectBuffer (List V) → Option (List (ℕ × List V) × ObjectBuffer (List V))
  format body elements o = do
    (gone, o') ←
        (if ltb (buffer_size o) (size_of body) then resize (size_of body) o else some ([], o))
    (more, o'') ← emplace_object size_of body elements o'
    some (gone ++ more, o'')
