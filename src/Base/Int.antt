-- ===== src/Base/Int.antt =====
-- Signed integers over the native numbers, under the library's names, and their order.
use Prim.Native.Nat.{ℕ, suc, ◌+◌, ◌-◌, ◌*◌, ◌/◌}
use mathlib.Core.Path.{◌≡◌, sym, ◌∙◌, ap, subst}
use native.Mathlib.Omega.{arith}
use native.Mathlib.Nat.{add-mul}
use mathlib.Core.Bool.{Bool, true, false}
use dynalog.Base.Tests.{ltb, ◌==◌, if◌then◌else◌, Bool-cases}
use mathlib.Core.Logic.{inl, inr}

-- `negsuc n` is -(n + 1).
pub data ℤ : Type 0 where
  pos : ℕ → ℤ
  negsuc : ℕ → ℤ

abbrev pub ltb_ℤ : ℤ → ℤ → Bool
ltb_ℤ (pos a) (pos b) = ltb a b
ltb_ℤ (pos a) (negsuc b) = false
ltb_ℤ (negsuc a) (pos b) = true
ltb_ℤ (negsuc a) (negsuc b) = ltb b a

abbrev pub eqb_ℤ : ℤ → ℤ → Bool
eqb_ℤ (pos a) (pos b) = a == b
eqb_ℤ (pos a) (negsuc b) = false
eqb_ℤ (negsuc a) (pos b) = false
eqb_ℤ (negsuc a) (negsuc b) = a == b

infixl 70 ◌+ℤ◌ ◌-ℤ◌
-- The difference of two natural numbers, and the operations.
abbrev pub difference : ℕ → ℕ → ℤ
difference a b = if ltb a b then negsuc (b - a - 1) else pos (a - b)

abbrev pub ◌+ℤ◌ : ℤ → ℤ → ℤ
pos a +ℤ pos b = pos (a + b)
pos a +ℤ negsuc b = difference a (suc b)
negsuc a +ℤ pos b = difference b (suc a)
negsuc a +ℤ negsuc b = negsuc (suc (a + b))

abbrev pub ◌-ℤ◌ : ℤ → ℤ → ℤ
x -ℤ pos b = x +ℤ difference 0 b
x -ℤ negsuc b = x +ℤ pos (suc b)

-- The product with a natural number.
abbrev pub times : ℤ → ℕ → ℤ
times (pos a) k = pos (a * k)
times (negsuc a) k = difference 0 (suc a * k)

-- The quotient by a natural number, rounded towards zero.
abbrev pub quotient : ℤ → ℕ → ℤ
quotient (pos a) k = pos (a / k)
quotient (negsuc a) k = difference 0 (suc a / k)

-- Every integer is a difference.
abbrev plus_part : ℤ → ℕ
plus_part (pos a) = a
plus_part (negsuc a) = 0

abbrev minus_part : ℤ → ℕ
minus_part (pos a) = 0
minus_part (negsuc a) = suc a

difference-parts : (x : ℤ) → difference (plus_part x) (minus_part x) ≡ x
difference-parts (pos a) = ground arith
difference-parts (negsuc a) = ground arith

difference-eq : (a b c d : ℕ) → a + d ≡ c + b → difference a b ≡ difference c d
difference-eq a b c d e = ground (arith, e)

-- A function into the integers by cases.
difference-cases {ℓ} :
    (P : ℤ → Type ℓ) (a b : ℕ)
    → ((k : ℕ) → a ≡ b + k → P (pos k))
    → ((k : ℕ) → a + suc k ≡ b → P (negsuc k))
    → P (difference a b)
difference-cases P a b f g = elim (Bool-cases (ltb a b)) [
  | inl e ↦ rw e (g (b - a - 1) (ground (arith, e)))
  | inr e ↦ rw e (f (a - b) (ground (arith, e)))
]

difference-add : (a b c d : ℕ) → difference a b +ℤ difference c d ≡ difference (a + c) (b + d)
difference-add a b c d =
    difference-cases (λ x. x +ℤ difference c d ≡ difference (a + c) (b + d)) a b
      (λ k e.
        difference-cases (λ x. pos k +ℤ x ≡ difference (a + c) (b + d)) c d
          (λ l f. ground (arith, e, f))
          (λ l f. difference-eq k (suc l) (a + c) (b + d) (omega (arith, e, f))))
      (λ k e.
        difference-cases (λ x. negsuc k +ℤ x ≡ difference (a + c) (b + d)) c d
          (λ l f. difference-eq l (suc k) (a + c) (b + d) (omega (arith, e, f)))
          (λ l f. ground (arith, e, f)))

difference-sub : (a b c d : ℕ) → difference a b -ℤ difference c d ≡ difference (a + d) (b + c)
difference-sub a b c d =
    difference-cases (λ x. difference a b -ℤ x ≡ difference (a + d) (b + c)) c d
      (λ l f.
        difference-add a b 0 l ∙ difference-eq (a + 0) (b + l) (a + d) (b + c) (omega (arith, f)))
      (λ l f.
        ap (λ z. difference a b +ℤ z) (sym (difference-parts (pos (suc l))))
        ∙ difference-add a b (suc l) 0
        ∙ difference-eq (a + suc l) (b + 0) (a + d) (b + c) (omega (arith, f)))

-- An equation of sums, by the parts of what it is about.
by_parts : (P : ℤ → Type 0) → ((a b : ℕ) → P (difference a b)) → (x : ℤ) → P x
by_parts P f x = subst P (difference-parts x) (f (plus_part x) (minus_part x))

pub add-sub_cancel : (x y : ℤ) → x +ℤ y -ℤ y ≡ x
add-sub_cancel x y =
    by_parts (λ z. z +ℤ y -ℤ y ≡ z)
      (λ a b.
        by_parts (λ z. difference a b +ℤ z -ℤ z ≡ difference a b)
          (λ c d.
            ap (λ z. z -ℤ difference c d) (difference-add a b c d)
            ∙ difference-sub (a + c) (b + d) c d
            ∙ difference-eq (a + c + d) (b + d + c) a b (omega arith))
          y)
      x

pub sub-add_cancel : (x y : ℤ) → y +ℤ (x -ℤ y) ≡ x
sub-add_cancel x y =
    by_parts (λ z. y +ℤ (z -ℤ y) ≡ z)
      (λ a b.
        by_parts (λ z. z +ℤ (difference a b -ℤ z) ≡ difference a b)
          (λ c d.
            ap (λ z. difference c d +ℤ z) (difference-sub a b c d)
            ∙ difference-add c d (a + d) (b + c)
            ∙ difference-eq (c + (a + d)) (d + (b + c)) a b (omega arith))
          y)
      x

pub times-difference : (a b k : ℕ) → times (difference a b) k ≡ difference (a * k) (b * k)
times-difference a b k =
    difference-cases (λ x. times x k ≡ difference (a * k) (b * k)) a b
      (λ l e.
        sym (difference-parts (pos (l * k)))
        ∙ difference-eq (l * k) 0 (a * k) (b * k)
            (let m = ap (λ n. n * k) e in omega (arith, m, add-mul b l k)))
      (λ l e.
        difference-eq 0 (suc l * k) (a * k) (b * k)
          (let m = ap (λ n. n * k) e in omega (arith, m, add-mul a (suc l) k)))

-- Taking some of the seconds apart, and putting them back as parts.
pub regroup : (x t s : ℤ) (k : ℕ) → times (t -ℤ s) k +ℤ ((x -ℤ times t k) +ℤ times s k) ≡ x
regroup x t s k =
    by_parts (λ z. times (t -ℤ s) k +ℤ ((z -ℤ times t k) +ℤ times s k) ≡ z)
      (λ a b.
        by_parts
          (λ z. times (z -ℤ s) k +ℤ ((difference a b -ℤ times z k) +ℤ times s k) ≡ difference a b)
          (λ c d.
            by_parts
              (λ z.
                times (difference c d -ℤ z) k
                  +ℤ ((difference a b -ℤ times (difference c d) k) +ℤ times z k)
                ≡ difference a b)
              (λ e f.
                rw
                  (
                    difference-sub c d e f,
                    times-difference (c + f) (d + e) k,
                    times-difference c d k,
                    times-difference e f k,
                    difference-sub a b (c * k) (d * k),
                    difference-add (a + d * k) (b + c * k) (e * k) (f * k),
                  )
                  (difference-add ((c + f) * k) ((d + e) * k) (a + d * k + e * k)
                      (b + c * k + f * k)
                    ∙ difference-eq _ _ a b (omega (arith, add-mul c f k, add-mul d e k))))
              s)
          t)
      x
