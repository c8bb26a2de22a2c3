-- ===== src/Util.antt =====
-- The helpers of include/util.h that C++11 lacks: a function applied to the elements of a tuple, which
-- are selected by an index sequence, a function with a captured value, and the index of a thread. A
-- type is a number, and `Values` says what its values are.
pub mod Tuples
use dynalog.Base.{
  ℕ, zero, suc, ◌%◌, subst, Each, never, ap, ◌≡◌, ◌==◌, List, [], ◌∷◌, Option, none, some,
  get_elem?, length, if◌then◌else◌,
}
use dynalog.Message.Body.{generate}

-- `threadindex( modulo )` of a thread that hashes to `hash`.
unfoldable pub thread_modulo : ℕ → ℕ → Option ℕ
thread_modulo hash modulo = if modulo == 0 then none else some (hash % modulo)

-- `capture`: the call of the object that it makes.
abbrev pub capture {ℓ κ μ} : {T : Type ℓ} {A : Type κ} {R : Type μ} → T → (T → A → R) → A → R
capture x f args = f x args

pub some_inj {ℓ} : {A : Type ℓ} {a b : A} → some a ≡ some b → a ≡ b
some_inj {a = a} e = ap (λ o. elim o [ none ↦ a | some z ↦ z ]) e

pub missing : {type : ℕ} → none ≡ some type → ⊥
missing e = cc e

-- A sequence selects elements of the types of a second list.
abbrev pub Selects : List ℕ → List ℕ → List ℕ → Type 0
Selects types = Each (λ index type. get_elem? types index ≡ some type)

module _ {ℓ} (Values : ℕ → Type ℓ) where
  -- `std::tuple` of the types of a list.
  abbrev pub Tuple : List ℕ → Type ℓ
  Tuple [] = Unit {ℓ}
  Tuple (type ∷ types) = Values type × Tuple types

  -- `std::get<Index>`, where the element at that index has that type.
  abbrev pub get_typed :
      (types : List ℕ) (index type : ℕ)
      → get_elem? types index ≡ some type
      → Tuple types
      → Values type
  get_typed [] index type e value = absurd (missing e)
  get_typed (other ∷ types) zero type e value = subst Values (some_inj e) value.0
  get_typed (other ∷ types) (suc index) type e value = get_typed types index type e value.1

  -- `std::get<Selected>( value )...`.
  abbrev pub get_all :
      (types selected chosen : List ℕ) → Selects types selected chosen → Tuple types → Tuple chosen
  get_all types [] [] e value = tt
  get_all types [] (type ∷ chosen) e value = absurd (never e)
  get_all types (index ∷ selected) [] e value = absurd (never e)
  get_all types (index ∷ selected) (type ∷ chosen) e value =
      (get_typed types index type e.0 value, get_all types selected chosen e.1 value)

  -- `apply_tuple` with a sequence, which must select what the function takes.
  unfoldable pub apply_selected {κ} :
      {R : Type κ} (types selected chosen : List ℕ)
      → Selects types selected chosen
      → Tuple types
      → (Tuple chosen → R)
      → R
  apply_selected types selected chosen e value func = func (get_all types selected chosen e value)

-- The sequence of the other `apply_tuple`.
abbrev pub all_indices : List ℕ → List ℕ
all_indices types = generate (length types) []
