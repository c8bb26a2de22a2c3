-- ===== src/Config/Parts.antt =====
-- Maps of source/Configuration.cpp seen in two parts.
use dynalog.Base.{◌≡◌, refl, ◌∙◌, ap, true, false, ◌||◌, List, [], ◌∷◌, ◌++◌, ℕ, arith, ◌↔◌}
use dynalog.Base.Int.{ℤ}
use dynalog.Levels.{Logger}
use dynalog.Config.Policy.{Policy}
use dynalog.Config.Store.{Entry, Place, rebuild}
use dynalog.Config.Arbitration.{manages, managed, selected, AllQuiet, Arbitrated, Configured, keys}

pub keys-append : (xs ys : List Entry) → keys (xs ++ ys) ≡ keys xs ++ keys ys
keys-append [] ys = refl
keys-append (x ∷ xs) ys = ap (λ ks. x.priority ∷ ks) (keys-append xs ys)

pub managed-append :
    (k : ℕ) (xs ys : List Entry) → managed k (xs ++ ys) ≡ (managed k xs || managed k ys)
managed-append k [] ys = refl
managed-append k (x ∷ xs) ys = ground (arith, managed-append k xs ys)

pub AllQuiet-append : (xs ys : List Entry) → AllQuiet (xs ++ ys) ↔ (AllQuiet xs × AllQuiet ys)
AllQuiet-append [] ys = (λ q. (tt, q), λ q. q.1)
AllQuiet-append (x ∷ xs) ys =
    let rest = AllQuiet-append xs ys in
    (λ q. ((q.0, (rest.0 q.1).0), (rest.0 q.1).1), λ q. (q.0.0, rest.1 (q.0.1, q.1)))

module _ (store : ℕ → Policy) (k : ℕ) where
  pub selected-append :
      (xs ys : List Entry)
      → selected store k (xs ++ ys) ≡ (selected store k xs || selected store k ys)
  selected-append [] ys = refl
  selected-append (x ∷ xs) ys = ground (arith, selected-append xs ys)

  pub Configured-append :
      (xs ys : List Entry) (v : Logger)
      → Configured store k (xs ++ ys) v ↔ (Configured store k xs v × Configured store k ys v)
  Configured-append [] ys v = (λ q. (tt, q), λ q. q.1)
  Configured-append (x ∷ xs) ys v =
      let rest = Configured-append xs ys v in
      (λ q. ((q.0, (rest.0 q.1).0), (rest.0 q.1).1), λ q. (q.0.0, rest.1 (q.0.1, q.1)))

  -- What is managed below is selected by nobody above.
  pub Arbitrated-append :
      (xs ys : List Entry)
      → Arbitrated store k (xs ++ ys) ↔ (
          Arbitrated store k xs
          × (managed k ys ≡ true → selected store k xs ≡ false)
          × Arbitrated store k ys)
  Arbitrated-append [] ys = (λ p. (tt, λ m. refl, p), λ p. p.2)
  Arbitrated-append (x ∷ xs) ys =
      let rest = Arbitrated-append xs ys in
      (
        λ p. (
          (p.0, λ m. ground (arith, p.1, managed-append k xs ys), (rest.0 p.2).0),
          λ m. ground (arith, (rest.0 p.2).1 m, p.1, managed-append k xs ys),
          (rest.0 p.2).2,
        ),
        λ p. (
          p.0.0,
          λ m. ground (arith, managed-append k xs ys, p.0.1, p.1),
          rest.1 (p.0.2, λ m. ground (arith, p.1 m), p.2),
        ),
      )

pub keys-rebuild :
    (priority : ℤ) (p : Place) → keys (rebuild priority p) ≡ keys p.above ++ priority ∷ keys p.below
unfolding rebuild
keys-rebuild priority p = keys-append p.above _

pub managed-rebuild :
    (k : ℕ) (priority : ℤ) (p : Place)
    → managed k (rebuild priority p) ≡ (managed k p.above || manages k p.node || managed k p.below)
unfolding rebuild
managed-rebuild k priority p = managed-append k p.above _ ∙ ground arith
