-- ===== src/Message/Object.antt =====
-- `ObjectBuffer` of include/ObjectBuffer.h. A type is a number, which stands for its `typeid` and for
-- its destructor; `size_of` is its `sizeof`. The bytes of a buffer hold an object of a type, or none.
-- To destroy or to read what is not there, as another type, or through a null pointer, is undefined
-- behaviour, which is `none`; so is an object in a buffer that is too small for it.
pub mod Lifetime
use dynalog.Base.{
  ℕ, Bool, true, false, List, [], ◌∷◌, ◌++◌, Option, none, some, ltb, ◌==◌, if◌then◌else◌, ◌>>=◌,
}

-- A `Buffer`, and the object in its bytes.
pub record Storage {ℓ} (A : Type ℓ) : Type ℓ where
  pub capacity : ℕ
  pub content : Option (ℕ × A)

pub record ObjectBuffer {ℓ} (A : Type ℓ) : Type ℓ where
  pub info : Option ℕ
  pub destructor : Option ℕ
  pub buffer : Option (Storage A)

module _ {ℓ} {A : Type ℓ} where
  pub create_object_buffer : ObjectBuffer A
  create_object_buffer = record { info = none; destructor = none; buffer = none }

  pub is_vacant : ObjectBuffer A → Bool
  is_vacant o = elim o.destructor [ none ↦ true | some type ↦ false ]

  pub buffer_size : ObjectBuffer A → ℕ
  buffer_size o = elim o.buffer [ none ↦ 0 | some s ↦ s.capacity ]

  -- `call_destructor<Type>( pointer )`: the object destroyed, and the bytes.
  pub call_destructor : ℕ → Storage A → Option ((ℕ × A) × Storage A)
  call_destructor type s = elim s.content [
    | none ↦ none
    | some object ↦ if object.0 == type then some (object, record s { content = none }) else none
  ]

  -- What is destroyed, and the buffer.
  pub clear_object : ObjectBuffer A → Option (List (ℕ × A) × ObjectBuffer A)
  clear_object o = elim o.destructor [
    | none ↦ some ([], o)
    | some type ↦ do
      s ← o.buffer
      (object, s') ← call_destructor type s
      some (object ∷ [], record { info = none; destructor = none; buffer = some s' })
  ]

  -- `resize( Buffer::Pointer && other )`.
  pub resize_to : Option (Storage A) → ObjectBuffer A → Option (List (ℕ × A) × ObjectBuffer A)
  resize_to other o = do (gone, o') ← clear_object o; some (gone, record o' { buffer = other })

  -- `resize( size )`.
  pub resize : ℕ → ObjectBuffer A → Option (List (ℕ × A) × ObjectBuffer A)
  resize capacity o = do
    (gone, o') ← clear_object o
    some (gone, record o' { buffer = some (record { capacity = capacity; content = none }) })

  -- `ObjectBuffer( ObjectBuffer && other )`: the new buffer, and what `other` is left as.
  pub move_object : ObjectBuffer A → ObjectBuffer A × ObjectBuffer A
  move_object other = (other, record { info = none; destructor = none; buffer = none })

  -- `*this = std::move( other )`: what is destroyed, `*this`, and what `other` is left as. The storage
  -- that `*this` had is freed.
  pub assign_object :
      ObjectBuffer A → ObjectBuffer A → Option (List (ℕ × A) × ObjectBuffer A × ObjectBuffer A)
  assign_object o other = do
    (gone, o') ← clear_object o
    some (gone, other, record { info = none; destructor = none; buffer = none })

  -- `as<Type>()`.
  pub as_type : ℕ → ObjectBuffer A → Option A
  as_type type o = do
    s ← o.buffer
    object ← s.content
    if object.0 == type then some (object.1) else none

  module _ (size_of : ℕ → ℕ) where
    -- The placement `new` of `emplace`.
    pub construct : ℕ → A → ObjectBuffer A → Option (ObjectBuffer A)
    construct type value o = elim o.buffer [
      | none ↦ none
      | some s ↦
          if ltb s.capacity (size_of type)
          then none
          else some (record {
            info = some type;
            destructor = some type;
            buffer = some (record s { content = some (type, value) });
          })
    ]

    pub emplace_object : ℕ → A → ObjectBuffer A → Option (List (ℕ × A) × ObjectBuffer A)
    emplace_object type value o = do
      (gone, o') ←
          (if ltb (buffer_size o) (size_of type) then resize (size_of type) o else clear_object o)
      o'' ← construct type value o'
      some (gone, o'')
