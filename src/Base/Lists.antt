-- ===== src/Base/Lists.antt =====
-- Lists measured and indexed by native numbers, under the library's names.
use Prim.Native.Nat.{ℕ, zero, suc, ◌+◌, ◌<◌}
use mathlib.Core.Path.{◌≡◌, refl, sym, ◌∙◌, ap, subst}
use mathlib.Core.Logic.{◌≢◌, ◌⊎◌, inl, inr}
use mathlib.Core.Bool.{Bool, false, ◌||◌}
use mathlib.Core.List.{List, [], ◌∷◌, ◌++◌, append-nil, append_assoc}
use mathlib.Core.Option.{Option, none, some}
use native.Mathlib.Omega.{arith}
use dynalog.Base.Tests.{if◌then◌else◌, ◌==◌, Bool-cases}

-- A function of two arguments at equal ones.
pub ap2 {ℓ} :
    {A B C : Type ℓ} (f : A → B → C) {x x' : A} {y y' : B} → x ≡ x' → y ≡ y' → f x y ≡ f x' y'
ap2 f {x} {x'} {y} {y'} p q = ap (λ z. f z y) p ∙ ap (f x') q

module _ {ℓ} {A : Type ℓ} where
  abbrev pub length : List A → ℕ
  length [] = 0
  length (x ∷ xs) = suc (length xs)

  abbrev pub get_elem? : List A → ℕ → Option A
  get_elem? [] i = none
  get_elem? (x ∷ xs) zero = some x
  get_elem? (x ∷ xs) (suc i) = get_elem? xs i

  -- A write out of bounds changes nothing.
  abbrev pub set : List A → ℕ → A → List A
  set [] i v = []
  set (x ∷ xs) zero v = v ∷ xs
  set (x ∷ xs) (suc i) v = x ∷ set xs i v

  abbrev pub get_or : List A → ℕ → A → A
  get_or [] i d = d
  get_or (x ∷ xs) zero d = x
  get_or (x ∷ xs) (suc i) d = get_or xs i d

  abbrev pub take : ℕ → List A → List A
  take zero xs = []
  take (suc n) [] = []
  take (suc n) (x ∷ xs) = x ∷ take n xs

  abbrev pub drop : ℕ → List A → List A
  drop zero xs = xs
  drop (suc n) [] = []
  drop (suc n) (x ∷ xs) = drop n xs

  abbrev pub replicate : ℕ → A → List A
  replicate zero a = []
  replicate (suc n) a = a ∷ replicate n a

  -- The elements that pass a Boolean test, in order.
  abbrev pub keep : (A → Bool) → List A → List A
  keep p [] = []
  keep p (x ∷ xs) = if p x then x ∷ keep p xs else keep p xs

  pub length-append : (xs ys : List A) → length (xs ++ ys) ≡ length xs + length ys
  length-append [] ys = omega arith
  length-append (x ∷ xs) ys = omega (arith, length-append xs ys)

  pub length-set : (xs : List A) (i : ℕ) (v : A) → length (set xs i v) ≡ length xs
  length-set [] i v = refl
  length-set (x ∷ xs) zero v = refl
  length-set (x ∷ xs) (suc i) v = ap suc (length-set xs i v)

  pub length-replicate : (n : ℕ) (a : A) → length (replicate n a) ≡ n
  length-replicate zero a = refl
  length-replicate (suc n) a = ap suc (length-replicate n a)

  pub get_or-replicate : (n i : ℕ) (a : A) → get_or (replicate n a) i a ≡ a
  get_or-replicate zero i a = refl
  get_or-replicate (suc n) zero a = refl
  get_or-replicate (suc n) (suc i) a = get_or-replicate n i a

  pub get_or-set_self :
      (xs : List A) (i : ℕ) (v d : A) → i < length xs → get_or (set xs i v) i d ≡ v
  get_or-set_self [] i v d h = absurd (omega arith)
  get_or-set_self (x ∷ xs) zero v d h = refl
  get_or-set_self (x ∷ xs) (suc i) v d h = get_or-set_self xs i v d (omega arith)

  pub get_or-set_ne :
      (xs : List A) (i j : ℕ) (v d : A) → i ≢ j → get_or (set xs i v) j d ≡ get_or xs j d
  get_or-set_ne [] i j v d h = refl
  get_or-set_ne (x ∷ xs) zero zero v d h = absurd (h refl)
  get_or-set_ne (x ∷ xs) zero (suc j) v d h = refl
  get_or-set_ne (x ∷ xs) (suc i) zero v d h = refl
  get_or-set_ne (x ∷ xs) (suc i) (suc j) v d h = get_or-set_ne xs i j v d (λ e. h (ap suc e))

  pub get_elem?-set :
      (xs : List A) (i k : ℕ) (y : A)
      → i < length xs
      → get_elem? (set xs i y) k ≡ (if k == i then some y else get_elem? xs k)
  get_elem?-set [] i k y h = absurd (omega arith)
  get_elem?-set (x ∷ xs) zero zero y h = refl
  get_elem?-set (x ∷ xs) zero (suc k) y h = ground arith
  get_elem?-set (x ∷ xs) (suc i) zero y h = ground arith
  get_elem?-set (x ∷ xs) (suc i) (suc k) y h =
      get_elem?-set xs i k y (omega arith)
      ∙ ap (λ b. if b then some y else get_elem? xs k) (ground arith)

  pub get_elem?-length : (xs : List A) (i : ℕ) (x : A) → get_elem? xs i ≡ some x → i < length xs
  get_elem?-length [] i x e = absurd (cc e)
  get_elem?-length (y ∷ xs) zero x e = omega arith
  get_elem?-length (y ∷ xs) (suc i) x e = omega (arith, get_elem?-length xs i x e)

  -- Writing what is there changes nothing.
  pub set_same : (xs : List A) (i : ℕ) (x : A) → get_elem? xs i ≡ some x → set xs i x ≡ xs
  set_same [] i x e = refl
  set_same (y ∷ xs) zero x e = ap (λ o. elim o [ none ↦ y ∷ xs | some z ↦ z ∷ xs ]) (sym e)
  set_same (y ∷ xs) (suc i) x e = ap (λ zs. y ∷ zs) (set_same xs i x e)

  -- The elements of all lists, in order.
  abbrev pub concat : List (List A) → List A
  concat [] = []
  concat (xs ∷ xss) = xs ++ concat xss

  pub concat-append :
      (xss : List (List A)) (xs : List A) → concat (xss ++ xs ∷ []) ≡ concat xss ++ xs
  concat-append [] xs = append-nil xs
  concat-append (ys ∷ xss) xs =
      ap (λ z. ys ++ z) (concat-append xss xs) ∙ sym (append_assoc ys (concat xss) xs)

  pub keep-append : (p : A → Bool) (xs ys : List A) → keep p (xs ++ ys) ≡ keep p xs ++ keep p ys
  keep-append p [] ys = refl
  keep-append p (x ∷ xs) ys = elim (Bool-cases (p x)) [
    | inl e ↦ rw e (ap (λ z. x ∷ z) (keep-append p xs ys))
    | inr e ↦ rw e (keep-append p xs ys)
  ]

  -- What a list of one element has at an index.
  pub only_one :
      (zs : List A) (k : ℕ) (y z : A)
      → zs ≡ z ∷ []
      → get_elem? zs k ≡ some y
      → (y ≡ z) × ((v : A) → set zs k v ≡ v ∷ [])
  only_one zs k y z e =
      subst (λ s. get_elem? s k ≡ some y → (y ≡ z) × ((v : A) → set s k v ≡ v ∷ [])) (sym e) (at k)
    where
      at : (k : ℕ) → get_elem? (z ∷ []) k ≡ some y → (y ≡ z) × ((v : A) → set (z ∷ []) k v ≡ v ∷ [])
      at zero g = (cc g, λ v. refl)
      at (suc k) g = absurd (cc g)

  -- Where a changed list has a value: the new one at the index of the change, else what it had.
  pub at_set :
      (xs : List A) (i j : ℕ) (x y z : A)
      → get_elem? xs i ≡ some x
      → get_elem? (set xs i y) j ≡ some z
      → ((j ≡ i) × (z ≡ y)) ⊎ (((i == j) ≡ false) × (get_elem? xs j ≡ some z))
  at_set xs i j x y z g e =
      let q = get_elem?-set xs i j y (get_elem?-length xs i x g) in
      elim (Bool-cases (j == i)) [
        | inl f ↦
            let h : some z ≡ some y =
              sym e ∙ q ∙ ap (λ b. if b then some y else get_elem? xs j) f in
            inl (ground (arith, f), cc h)
        | inr f ↦
            inr (
              ground (arith, f),
              sym (ap (λ b. if b then some y else get_elem? xs j) f) ∙ sym q ∙ e,
            )
      ]

  pub get_elem?-replicate : (n i : ℕ) (x y : A) → get_elem? (replicate n y) i ≡ some x → x ≡ y
  get_elem?-replicate zero i x y e = absurd (cc e)
  get_elem?-replicate (suc n) zero x y e = cc e
  get_elem?-replicate (suc n) (suc i) x y e = get_elem?-replicate n i x y e

-- Membership of numbers, such as pointers and indices.
abbrev pub mem : ℕ → List ℕ → Bool
mem k [] = false
mem k (x ∷ xs) = k == x || mem k xs

pub mem-append : (k : ℕ) (xs ys : List ℕ) → mem k (xs ++ ys) ≡ (mem k xs || mem k ys)
mem-append k [] ys = refl
mem-append k (x ∷ xs) ys = ground (arith, mem-append k xs ys)
