-- ===== src/Config/Sets.antt =====
-- `LoggerSet` of include/Configuration.h: a `std::unordered_set` of pointers to loggers is a list of
-- their numbers with no repetition, in the order in which the set is gone through.
use dynalog.Base.{
  ℕ, ◌≡◌, refl, Bool, true, false, not, ◌&&◌, ◌||◌, List, [], ◌∷◌, ◌==◌, if◌then◌else◌, mem, arith,
  Bool-cases, inl, inr,
}

abbrev pub LoggerSet : Type 0
LoggerSet = List ℕ

abbrev pub LoggerVector : Type 0
LoggerVector = List ℕ

unfoldable pub insert : ℕ → LoggerSet → LoggerSet
insert logger s = if mem logger s then s else logger ∷ s

-- `insert( first, last )`.
unfoldable pub insert_all : List ℕ → LoggerSet → LoggerSet
insert_all [] s = s
insert_all (logger ∷ rest) s = insert_all rest (insert logger s)

unfoldable pub erase : ℕ → LoggerSet → LoggerSet
erase logger [] = []
erase logger (x ∷ s) = if x == logger then erase logger s else x ∷ erase logger s

-- A loop that erases each element of a collection.
unfoldable pub erase_all : List ℕ → LoggerSet → LoggerSet
erase_all [] s = s
erase_all (logger ∷ rest) s = erase_all rest (erase logger s)

unfoldable pub is_empty : LoggerSet → Bool
is_empty [] = true
is_empty (x ∷ s) = false

mem-insert : (k logger : ℕ) (s : LoggerSet) → mem k (insert logger s) ≡ (k == logger || mem k s)
unfolding insert
mem-insert k logger s = elim (Bool-cases (mem logger s)) [
  | inl e ↦ rw e (ground arith)
  | inr e ↦ rw e refl
]

pub mem-insert_all :
    (k : ℕ) (xs : List ℕ) (s : LoggerSet) → mem k (insert_all xs s) ≡ (mem k xs || mem k s)
unfolding insert_all
mem-insert_all k [] s = refl
mem-insert_all k (x ∷ xs) s = ground (arith, mem-insert_all k xs (insert x s), mem-insert k x s)

pub mem-erase :
    (k logger : ℕ) (s : LoggerSet) → mem k (erase logger s) ≡ (not (k == logger) && mem k s)
unfolding erase
mem-erase k logger [] = ground arith
mem-erase k logger (x ∷ s) = ground (arith, mem-erase k logger s)

pub mem-erase_all :
    (k : ℕ) (xs : List ℕ) (s : LoggerSet) → mem k (erase_all xs s) ≡ (not (mem k xs) && mem k s)
unfolding erase_all
mem-erase_all k [] s = refl
mem-erase_all k (x ∷ xs) s = ground (arith, mem-erase_all k xs (erase x s), mem-erase k x s)

-- Membership in what the operations on sets return.
pub ruleset membership = (arith, mem-insert_all, mem-erase_all)
