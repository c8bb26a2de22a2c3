-- ===== src/Ring/Tests.antt =====
-- Concrete rings: the theorems at inputs that meet their hypotheses, and runs.
use dynalog.Base.{true, ℕ, ◌≡◌, refl, ◌<◌, List, [], ◌∷◌, ◌==◌, ◌⊎◌, inl, inr, some, arith, Returns}
use dynalog.Ring.{
  Slots, create_empty, is_empty, is_full, raw, live, pop, erase, reshape, advance, drop_begin, init,
}
use dynalog.Ring.Holds.{Holds}
use dynalog.Ring.Fifo.{erase-Holds}
use dynalog.Ring.Reshape.{reshape-Holds}

-- Three values in a ring of four, which wrap around.
abbrev three : Slots ℕ
three = record {
  storage = live 30 ∷ raw ∷ live 10 ∷ live 20 ∷ [];
  begin = 2;
  end = 1;
  size = 3;
  capacity = 4;
}

abbrev values : List ℕ
values = 10 ∷ 20 ∷ 30 ∷ []

three-Holds : Holds three values
unfolding advance
three-Holds = record {
  room = refl;
  small = omega arith;
  bounded = omega arith;
  counted = refl;
  start = λ h. omega arith;
  finish = λ h. refl;
  cells = λ i h. elim (small_cases i h) [
    | inl e ↦ rw e refl
    | inr (inl e) ↦ rw e refl
    | inr (inr (inl e)) ↦ rw e refl
    | inr (inr (inr e)) ↦ rw e refl
  ];
}
  where
    small_cases : (i : ℕ) → i < 4 → (i ≡ 0) ⊎ (i ≡ 1) ⊎ (i ≡ 2) ⊎ (i ≡ 3)
    small_cases i h = ground arith

erase-Holds_example :
    Returns
      (erase (λ k. k == 20) three)
      (λ r. (r.0 ≡ 1) × Holds r.1 (10 ∷ 30 ∷ []) × (r.1.capacity ≡ 4))
erase-Holds_example = erase-Holds (λ k. k == 20) three values three-Holds

reshape-Holds_example :
    Returns (reshape 2 three) (λ r. (r.0 ≡ 30 ∷ []) × Holds r.1 (10 ∷ 20 ∷ []) × (r.1.capacity ≡ 2))
reshape-Holds_example = reshape-Holds 2 three values three-Holds (omega arith)

pop_wraps :
    pop three
    ≡ some (10, record three { storage = live 30 ∷ raw ∷ raw ∷ live 20 ∷ []; begin = 3; size = 2 })
unfolding pop drop_begin advance
pop_wraps = refl

-- A ring with no storage is both empty and full.
create_empty_lem :
    (is_empty (create_empty {A = ℕ}) ≡ true) × (is_full (create_empty {A = ℕ}) ≡ true)
unfolding create_empty init is_empty is_full
create_empty_lem = (refl, refl)
