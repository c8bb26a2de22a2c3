-- ===== src/Base/Relations.antt =====
-- Predicates and relations on the elements of lists.
use Prim.Native.Nat.{ℕ, zero, suc, ◌+◌}
use mathlib.Core.Path.{◌≡◌, refl, ap, subst}
use mathlib.Core.List.{List, [], ◌∷◌, ◌++◌}
use mathlib.Core.Option.{none, some}
use native.Mathlib.Omega.{arith}
use dynalog.Base.Lists.{length, get_elem?, set, replicate}

abbrev pub All {ℓ κ} : {A : Type ℓ} → (A → Type κ) → List A → Type κ
All P [] = Unit
All P (x ∷ xs) = P x × All P xs

pub All-last {ℓ κ} :
    {A : Type ℓ} (P : A → Type κ) (xs : List A) (y : A) → All P xs → P y → All P (xs ++ y ∷ [])
All-last P [] y h p = (p, tt)
All-last P (x ∷ xs) y h p = (h.0, All-last P xs y h.1 p)

-- No proof, at any level.
pub data Never {ℓ} : Type ℓ where

pub never {ℓ} : Never {ℓ} → ⊥
never h = elim h [ ]

-- Two lists of one length, related element by element.
abbrev pub Each {ℓ κ μ} : {A : Type ℓ} {B : Type κ} → (A → B → Type μ) → List A → List B → Type μ
Each R [] [] = Unit
Each R [] (y ∷ ys) = Never
Each R (x ∷ xs) [] = Never
Each R (x ∷ xs) (y ∷ ys) = R x y × Each R xs ys

module _ {ℓ κ μ} {A : Type ℓ} {B : Type κ} (R : A → B → Type μ) where
  pub length-Each : (xs : List A) (ys : List B) → Each R xs ys → length xs ≡ length ys
  length-Each [] [] h = refl
  length-Each [] (y ∷ ys) h = absurd (never h)
  length-Each (x ∷ xs) [] h = absurd (never h)
  length-Each (x ∷ xs) (y ∷ ys) h = ap suc (length-Each xs ys h.1)

  pub Each-last :
      (xs : List A) (ys : List B) (x : A) (y : B)
      → Each R xs ys
      → R x y
      → Each R (xs ++ x ∷ []) (ys ++ y ∷ [])
  Each-last [] [] x y h r = (r, tt)
  Each-last [] (v ∷ ys) x y h r = absurd (never h)
  Each-last (u ∷ xs) [] x y h r = absurd (never h)
  Each-last (u ∷ xs) (v ∷ ys) x y h r = (h.0, Each-last xs ys x y h.1 r)

  pub Each-get :
      (xs : List A) (ys : List B) (i : ℕ) (x : A)
      → Each R xs ys
      → get_elem? xs i ≡ some x
      → (y : B) × (get_elem? ys i ≡ some y) × R x y
  Each-get [] ys i x h e = absurd (cc e)
  Each-get (u ∷ xs) [] i x h e = absurd (never h)
  Each-get (u ∷ xs) (v ∷ ys) zero x h e =
      let same : u ≡ x = ap (λ o. elim o [ none ↦ u | some w ↦ w ]) e in
      (v, refl, subst (λ w. R w v) same h.0)
  Each-get (u ∷ xs) (v ∷ ys) (suc i) x h e = Each-get xs ys i x h.1 e

  pub Each-set :
      (xs : List A) (ys : List B) (i : ℕ) (x : A) (y : B)
      → Each R xs ys
      → R x y
      → Each R (set xs i x) (set ys i y)
  Each-set [] [] i x y h r = tt
  Each-set [] (v ∷ ys) i x y h r = absurd (never h)
  Each-set (u ∷ xs) [] i x y h r = absurd (never h)
  Each-set (u ∷ xs) (v ∷ ys) zero x y h r = (r, h.1)
  Each-set (u ∷ xs) (v ∷ ys) (suc i) x y h r = (h.0, Each-set xs ys i x y h.1 r)

  pub Each-replicate : (n : ℕ) (x : A) (y : B) → R x y → Each R (replicate n x) (replicate n y)
  Each-replicate zero x y r = tt
  Each-replicate (suc n) x y r = (r, Each-replicate n x y r)

-- A sum over the elements of a list.
abbrev pub total {ℓ} : {A : Type ℓ} → (A → ℕ) → List A → ℕ
total f [] = 0
total f (x ∷ xs) = f x + total f xs

pub total-set {ℓ} :
    {A : Type ℓ} (f : A → ℕ) (xs : List A) (i : ℕ) (x y : A)
    → get_elem? xs i ≡ some x
    → total f (set xs i y) + f x ≡ total f xs + f y
total-set f [] i x y e = absurd (cc e)
total-set f (u ∷ xs) zero x y e =
    let same : f u ≡ f x = ap (λ o. elim o [ none ↦ f u | some w ↦ f w ]) e in omega (arith, same)
total-set f (u ∷ xs) (suc i) x y e = omega (arith, total-set f xs i x y e)

pub total-append {ℓ} :
    {A : Type ℓ} (f : A → ℕ) (xs ys : List A) → total f (xs ++ ys) ≡ total f xs + total f ys
total-append f [] ys = omega arith
total-append f (x ∷ xs) ys = omega (arith, total-append f xs ys)

pub total-replicate {ℓ} :
    {A : Type ℓ} (f : A → ℕ) (n : ℕ) (x : A) → f x ≡ 0 → total f (replicate n x) ≡ 0
total-replicate f zero x e = refl
total-replicate f (suc n) x e = omega (arith, total-replicate f n x e)
