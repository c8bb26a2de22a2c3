-- ===== src/Util/Tuples.antt =====
-- The calls of include/util.h on tuples are well typed, and pass each element once.
use dynalog.Base.{
  ℕ, zero, suc, ◌≡◌, refl, sym, ◌∙◌, ap, ap2, subst, List, [], ◌∷◌, map, some, append-nil, length,
  never,
}
use mathlib.Core.Path.{subst_refl}
use native.Mathlib.Nat.{ℕ_set}
use dynalog.Message.Body.Elements.{upto, generate_lem}
use dynalog.Util.{Tuple, Selects, some_inj, get_typed, get_all, apply_selected, all_indices}

upto-suc : (start n : ℕ) → upto (suc start) n ≡ map suc (upto start n)
upto-suc start zero = refl
upto-suc start (suc n) = ap (λ ks. suc start ∷ ks) (upto-suc (suc start) n)

-- A sequence that counts up from zero, so that each step is a shift of the one before.
abbrev counted : List ℕ → List ℕ
counted [] = []
counted (type ∷ types) = 0 ∷ map suc (counted types)

all_indices-counted : (types : List ℕ) → all_indices types ≡ counted types
all_indices-counted types =
    generate_lem (length types) [] ∙ append-nil (upto 0 (length types)) ∙ from_zero types
  where
    from_zero : (types : List ℕ) → upto 0 (length types) ≡ counted types
    from_zero [] = refl
    from_zero (type ∷ types) =
        ap (λ ks. 0 ∷ ks) (upto-suc 0 (length types) ∙ ap (map suc) (from_zero types))

shifted :
    (type : ℕ) (types selected chosen : List ℕ)
    → Selects types selected chosen
    → Selects (type ∷ types) (map suc selected) chosen
shifted type types [] [] e = tt
shifted type types [] (c ∷ chosen) e = e
shifted type types (i ∷ selected) [] e = e
shifted type types (i ∷ selected) (c ∷ chosen) e = (e.0, shifted type types selected chosen e.1)

counted-Selects : (types : List ℕ) → Selects types (counted types) types
counted-Selects [] = tt
counted-Selects (type ∷ types) =
    (refl, shifted type types (counted types) types (counted-Selects types))

at_first : (type : ℕ) → some type ≡ some type
at_first type = refl

module _ {ℓ} (Values : ℕ → Type ℓ) where
  get_all-shifted :
      (type : ℕ) (types selected chosen : List ℕ) (e : Selects types selected chosen)
      (value : Tuple Values (type ∷ types))
      → get_all Values
          (type ∷ types)
          (map suc selected)
          chosen
          (shifted type types selected chosen e)
          value
        ≡ get_all Values types selected chosen e value.1
  unfolding shifted
  get_all-shifted type types [] [] e value = refl
  get_all-shifted type types [] (c ∷ chosen) e value = absurd (never e)
  get_all-shifted type types (i ∷ selected) [] e value = absurd (never e)
  get_all-shifted type types (i ∷ selected) (c ∷ chosen) e value =
      ap (λ rest. (get_typed Values types i c e.0 value.1, rest))
        (get_all-shifted type types selected chosen e.1 value)

  get_typed-first : (type : ℕ) (v : Values type) → subst Values (some_inj (at_first type)) v ≡ v
  get_typed-first type v =
      ap (λ p. subst Values p v) (ℕ_set type type (some_inj (at_first type)) refl)
      ∙ subst_refl Values v

  get_all-counted :
      (types : List ℕ) (value : Tuple Values types)
      → get_all Values types (counted types) types (counted-Selects types) value ≡ value
  unfolding counted-Selects at_first
  get_all-counted [] value = refl
  get_all-counted (type ∷ types) value =
      ap2 (λ v rest. (v, rest)) (get_typed-first type value.0)
        (get_all-shifted type types (counted types) types (counted-Selects types) value
          ∙ get_all-counted types value.1)

  -- For every tuple and function of its types, the generated sequence selects elements of exactly
  -- these types, so the call is well typed, and the function receives each element once, in order.
  pub apply_selected-all_indices {κ} :
      {R : Type κ} (types : List ℕ) (func : Tuple Values types → R)
      → (e : Selects types (all_indices types) types) × ((value : Tuple Values types)
          → apply_selected Values types (all_indices types) types e value func ≡ func value)
  unfolding apply_selected
  apply_selected-all_indices types func =
      subst
        (λ selected.
          (e : Selects types selected types) × ((value : Tuple Values types)
            → func (get_all Values types selected types e value) ≡ func value))
        (sym (all_indices-counted types))
        (counted-Selects types, λ value. ap func (get_all-counted types value))
