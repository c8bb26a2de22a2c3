-- ===== src/Config/Keys.antt =====
-- The order of the keys of `std::map<int, Node, std::greater<int>>`: the priorities of a
-- `Configuration` of include/Configuration.h, from high to low.
use dynalog.Base.{
  ◌≡◌, refl, Bool, true, false, ◌||◌, List, [], ◌∷◌, ◌++◌, Option, none, some, arith,
}
use dynalog.Base.Int.{ℤ, pos, negsuc, ltb_ℤ, eqb_ℤ}
use dynalog.Config.Arbitration.{under, Below}

abbrev pub has_key : ℤ → List ℤ → Bool
has_key priority [] = false
has_key priority (k ∷ ks) = eqb_ℤ k priority || has_key priority ks

pub eq_of_eqb : (a b : ℤ) → eqb_ℤ a b ≡ true → a ≡ b
eq_of_eqb (pos a) (pos b) h = ground arith
eq_of_eqb (pos a) (negsuc b) h = cc
eq_of_eqb (negsuc a) (pos b) h = cc
eq_of_eqb (negsuc a) (negsuc b) h = ground arith

pub ltb_total : (a b : ℤ) → eqb_ℤ a b ≡ false → ltb_ℤ a b ≡ false → ltb_ℤ b a ≡ true
ltb_total (pos a) (pos b) h l = ground arith
ltb_total (pos a) (negsuc b) h l = refl
ltb_total (negsuc a) (pos b) h l = cc
ltb_total (negsuc a) (negsuc b) h l = ground arith

ltb_trans : (a b c : ℤ) → ltb_ℤ a b ≡ true → ltb_ℤ b c ≡ true → ltb_ℤ a c ≡ true
ltb_trans (pos a) (pos b) (pos c) h l = ground arith
ltb_trans (pos a) (pos b) (negsuc c) h l = cc
ltb_trans (pos a) (negsuc b) c h l = cc
ltb_trans (negsuc a) (pos b) (pos c) h l = refl
ltb_trans (negsuc a) (pos b) (negsuc c) h l = cc
ltb_trans (negsuc a) (negsuc b) (pos c) h l = refl
ltb_trans (negsuc a) (negsuc b) (negsuc c) h l = ground arith

ltb_ne : (a b : ℤ) → ltb_ℤ a b ≡ true → eqb_ℤ a b ≡ false
ltb_ne (pos a) (pos b) h = ground arith
ltb_ne (pos a) (negsuc b) h = refl
ltb_ne (negsuc a) (pos b) h = refl
ltb_ne (negsuc a) (negsuc b) h = ground arith

under_trans :
    (a b : ℤ) (top : Option ℤ) → ltb_ℤ a b ≡ true → under b top ≡ true → under a top ≡ true
under_trans a b none h u = refl
under_trans a b (some top) h u = ltb_trans a b top h u

Below-weaken :
    (a : ℤ) (top : Option ℤ) (ks : List ℤ) → under a top ≡ true → Below (some a) ks → Below top ks
Below-weaken a top [] u b = tt
Below-weaken a top (k ∷ ks) u b = (under_trans k a top b.0 u, b.1)

-- Taking a key out keeps the others in order.
pub Below-drop :
    (top : Option ℤ) (above : List ℤ) (k : ℤ) (below : List ℤ)
    → Below top (above ++ k ∷ below)
    → Below top (above ++ below)
Below-drop top [] k below b = Below-weaken k top below b.0 b.1
Below-drop top (a ∷ above) k below b = (b.0, Below-drop (some a) above k below b.1)

-- A key above all the others is not among them.
pub fresh-Below :
    (priority : ℤ) (ks : List ℤ) → Below (some priority) ks → has_key priority ks ≡ false
fresh-Below priority [] b = refl
fresh-Below priority (k ∷ ks) b = ground (
  arith,
  ltb_ne k priority b.0,
  fresh-Below priority ks (Below-weaken k (some priority) ks b.0 b.1),
)

-- A key that was taken out of a sorted list is not among the others.
Below-mem :
    (a : ℤ) (above : List ℤ) (k : ℤ) (below : List ℤ)
    → Below (some a) (above ++ k ∷ below)
    → ltb_ℤ k a ≡ true
Below-mem a [] k below b = b.0
Below-mem a (x ∷ above) k below b = ltb_trans k x a (Below-mem x above k below b.1) b.0

eqb_comm : (a b : ℤ) → eqb_ℤ a b ≡ eqb_ℤ b a
eqb_comm (pos a) (pos b) = ground arith
eqb_comm (pos a) (negsuc b) = refl
eqb_comm (negsuc a) (pos b) = refl
eqb_comm (negsuc a) (negsuc b) = ground arith

pub eqb_refl : (a : ℤ) → eqb_ℤ a a ≡ true
eqb_refl (pos a) = ground arith
eqb_refl (negsuc a) = ground arith

pub has_key-drop :
    (top : Option ℤ) (above : List ℤ) (k : ℤ) (below : List ℤ)
    → Below top (above ++ k ∷ below)
    → has_key k (above ++ below) ≡ false
has_key-drop top [] k below b = fresh-Below k below b.1
has_key-drop top (a ∷ above) k below b = ground (
  arith,
  has_key-drop (some a) above k below b.1,
  eqb_comm a k,
  ltb_ne k a (Below-mem a above k below b.1),
)

pub has_key-append :
    (k : ℤ) (xs ys : List ℤ) → has_key k (xs ++ ys) ≡ (has_key k xs || has_key k ys)
has_key-append k [] ys = refl
has_key-append k (x ∷ xs) ys = ground (arith, has_key-append k xs ys)
