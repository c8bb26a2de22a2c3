-- ===== src/Levels/Laws.antt =====
-- The laws of the bit sets of include/util.h.
use dynalog.Base.{
  ℕ, zero, suc, ◌<◌, ◌≡◌, refl, ap, Bool, true, false, List, [], ◌∷◌, none, some, ltb, ◌==◌,
  if◌then◌else◌, get_elem?, length, set, length-set, arith, Returns, lt→ltb, ◌↔◌, mem, subst, sym,
  Returns-bind, ◌≢◌, ◌/◌,
}
use dynalog.Levels.{
  Bits, from_bits, set_bit, get, set_each, from_list, add_assign, sub_assign, Logger, route,
}

get_elem?-set :
    {A : Type 0} (xs : List A) (i j : ℕ) (v : A)
    → i < length xs
    → get_elem? (set xs i v) j ≡ (if j == i then some v else get_elem? xs j)
get_elem?-set [] i j v h = absurd (omega arith)
get_elem?-set (x ∷ xs) zero zero v h = refl
get_elem?-set (x ∷ xs) zero (suc j) v h = ground arith
get_elem?-set (x ∷ xs) (suc i) zero v h = ground arith
get_elem?-set (x ∷ xs) (suc i) (suc j) v h = ground (arith, get_elem?-set xs i j v)

-- `set` in range succeeds, changes that bit alone, and keeps the width.
pub set_bit_lem :
    (bits : Bits) (bit : ℕ) (value : Bool)
    → bit < length bits
    → Returns (set_bit bits bit value) (λ r.
      ((other : ℕ) → get r other ≡ (if other == bit then some value else get bits other))
      × (length r ≡ length bits))
unfolding set_bit get
set_bit_lem bits bit value h = (
  set bits bit value,
  rw (lt→ltb _ _ h),
  ((λ other. get_elem?-set bits bit other value h), length-set bits bit value),
)

length-from_bits : (qty value : ℕ) → length (from_bits qty value) ≡ qty
unfolding from_bits
length-from_bits zero value = refl
length-from_bits (suc qty) value = ap suc (length-from_bits qty (value / 2))

get-from_bits_zero :
    (qty bit : ℕ) → get (from_bits qty 0) bit ≡ (if ltb bit qty then some false else none)
unfolding from_bits get
get-from_bits_zero zero bit = ground arith
get-from_bits_zero (suc qty) zero = ground arith
get-from_bits_zero (suc qty) (suc bit) = ground (arith, get-from_bits_zero qty bit)

-- Every value of the list is an index of the set.
abbrev AllBelow : ℕ → List ℕ → Type 0
AllBelow qty [] = Unit {0}
AllBelow qty (x ∷ xs) = (x < qty) × AllBelow qty xs

set_each_lem :
    (bits : Bits) (values : List ℕ)
    → AllBelow (length bits) values
    → Returns
        (set_each bits values)
        (λ r. (other : ℕ) → get r other ≡ (if mem other values then some true else get bits other))
unfolding set_each
set_each_lem bits [] h = (bits, refl, λ other. refl)
set_each_lem bits (x ∷ xs) h =
    Returns-bind (set_bit bits x true) _ _ _ (set_bit_lem bits x true h.0) (λ t p.
      let (r, e, q) = set_each_lem t xs (subst (λ n. AllBelow n xs) (sym p.1) h.1) in
      (r, e, λ other. ground (arith, q other, p.0 other)))

mem_below :
    (qty : ℕ) (values : List ℕ) (bit : ℕ) → AllBelow qty values → mem bit values ≡ true → bit < qty
mem_below qty [] bit h e = cc
mem_below qty (x ∷ xs) bit h e = ground (arith, mem_below qty xs bit)

-- A set made from a list of levels has exactly those levels, and no index but the levels' own.
pub from_list_lem :
    (qty : ℕ) (values : List ℕ)
    → AllBelow qty values
    → Returns
        (from_list qty values)
        (λ r. (bit : ℕ) → get r bit ≡ (if ltb bit qty then some (mem bit values) else none))
unfolding from_list
from_list_lem qty values h =
    let (r, e, q) =
      set_each_lem (from_bits qty 0) values
        (subst (λ n. AllBelow n values) (sym (length-from_bits qty 0)) h) in
    (r, e, λ bit. ground (arith, q bit, get-from_bits_zero qty bit, mem_below qty values bit h))

-- `operator -=` does not switch the level off: it is on afterwards, as after `operator +=`, and no
-- other level changes.
pub sub_assign_switches_on :
    (bits : Bits) (bit : ℕ)
    → bit < length bits
    → Returns (sub_assign bits bit) (λ r.
      (add_assign bits bit ≡ some r)
      × (get r bit ≡ some true)
      × ((other : ℕ) → other ≢ bit → get r other ≡ get bits other))
unfolding sub_assign add_assign
sub_assign_switches_on bits bit h =
    let (r, e, q) = set_bit_lem bits bit true h in
    (r, e, (e, ground (arith, q.0 bit), λ other n. ground (arith, q.0 other)))

-- A message of a level goes to an emitter exactly when the logger has that emitter and the level is
-- enabled.
pub route_iff :
    (logger : Logger) (level emitter : ℕ)
    → (route logger level ≡ some (some emitter))
      ↔ ((logger.emitter ≡ some emitter) × (get logger.levels level ≡ some true))
unfolding route
route_iff logger level emitter = (λ h. ground arith, λ h. ground arith)
