-- ===== src/Config/Places.antt =====
-- `find`, `emplace` and `erase` of the map of source/Configuration.cpp.
use dynalog.Base.{
  ◌≡◌, refl, ◌∙◌, ap, Bool, true, false, List, [], ◌∷◌, ◌++◌, Option, none, some, if◌then◌else◌,
  ◌==◌, ℕ, arith, Bool-cases, Option-cases, inl, inr,
}
use dynalog.Base.Int.{ℤ, ltb_ℤ, eqb_ℤ}
use dynalog.Config.Node.{Node}
use dynalog.Config.Store.{Entry, Place, find, emplace, rebuild}
use dynalog.Config.Arbitration.{keys, under, Below}
use dynalog.Config.Keys.{has_key, eq_of_eqb, ltb_total, fresh-Below, eqb_refl, has_key-append}
use dynalog.Config.Parts.{keys-rebuild}

-- Where `find` finds the key, the map is the entries above, the entry, and the entries below.
pub find-eq :
    (priority : ℤ) (es : List Entry) (p : Place)
    → find priority es ≡ some p
    → es ≡ rebuild priority p
unfolding find rebuild
find-eq priority [] p h = cc
find-eq priority (e ∷ es) p h = elim (Bool-cases (eqb_ℤ e.priority priority)) [
  | inl q ↦ ground (arith, eq_of_eqb e.priority priority)
  | inr q ↦ elim (Option-cases (find priority es)) [
    | inl r ↦ ground arith
    | inr (s, r) ↦ ground (arith, find-eq priority es s r)
  ]
]

pub find-none :
    (priority : ℤ) (es : List Entry) → find priority es ≡ none → has_key priority (keys es) ≡ false
unfolding find
find-none priority [] h = refl
find-none priority (e ∷ es) h = ground (arith, find-none priority es)

-- Whether that policy stands at that priority.
abbrev pub installed : ℤ → ℕ → List Entry → Bool
installed priority policy [] = false
installed priority policy (e ∷ es) =
    if eqb_ℤ e.priority priority then e.node.policy == policy else installed priority policy es

pub find-installed :
    (priority : ℤ) (policy : ℕ) (es : List Entry) (p : Place)
    → find priority es ≡ some p
    → installed priority policy es ≡ (p.node.policy == policy)
unfolding find
find-installed priority policy [] p h = cc
find-installed priority policy (e ∷ es) p h = elim (Bool-cases (eqb_ℤ e.priority priority)) [
  | inl q ↦ ground arith
  | inr q ↦ elim (Option-cases (find priority es)) [
    | inl r ↦ ground arith
    | inr (s, r) ↦ ground (arith, find-installed priority policy es s r)
  ]
]

pub find-none-installed :
    (priority : ℤ) (policy : ℕ) (es : List Entry)
    → find priority es ≡ none
    → installed priority policy es ≡ false
unfolding find
find-none-installed priority policy [] h = refl
find-none-installed priority policy (e ∷ es) h =
    ground (arith, find-none-installed priority policy es)

-- Behind entries of other priorities the entry is found.
pub installed_at :
    (above : List Entry) (priority : ℤ) (n : Node) (below : List Entry) (policy : ℕ)
    → has_key priority (keys above) ≡ false
    → installed priority policy (above ++ record { priority = priority; node = n } ∷ below)
      ≡ (n.policy == policy)
installed_at [] priority n below policy f = ground (arith, eqb_refl priority)
installed_at (a ∷ above) priority n below policy f =
    ground (arith, installed_at above priority n below policy)

-- Below the same entries, maps with the same policies have the same policies.
pub installed-append :
    (priority : ℤ) (policy : ℕ) (above xs ys : List Entry)
    → installed priority policy xs ≡ installed priority policy ys
    → installed priority policy (above ++ xs) ≡ installed priority policy (above ++ ys)
installed-append priority policy [] xs ys h = h
installed-append priority policy (a ∷ above) xs ys h =
    ground (arith, installed-append priority policy above xs ys h)

-- An entry of another priority does not count.
pub installed_past :
    (priority other : ℤ) (policy : ℕ) (above : List Entry) (n : Node) (below : List Entry)
    → eqb_ℤ priority other ≡ false
    → installed other policy (above ++ record { priority = priority; node = n } ∷ below)
      ≡ installed other policy (above ++ below)
installed_past priority other policy [] n below f = ground (arith, f)
installed_past priority other policy (a ∷ above) n below f =
    ground (arith, installed_past priority other policy above n below f)

-- What `emplace` finds, in a map whose keys fall from below `top`.
pub record Emplaced (top : Option ℤ) (priority : ℤ) (n : Node) (es : List Entry) (p : Place)
    : Type 0 where
  pub split : es ≡ p.above ++ p.below
  pub node : p.node ≡ n
  pub fresh : has_key priority (keys es) ≡ false
  pub sorted : Below top (keys p.above ++ priority ∷ keys p.below)

abbrev pub EmplaceResult : Option ℤ → ℤ → Node → List Entry → Option Place → Type 0
EmplaceResult top priority n es none = has_key priority (keys es) ≡ true
EmplaceResult top priority n es (some p) = Emplaced top priority n es p

emplace_past :
    (top : Option ℤ) (priority : ℤ) (n : Node) (e : Entry) (es : List Entry) (r : Option Place)
    → under e.priority top ≡ true
    → eqb_ℤ e.priority priority ≡ false
    → EmplaceResult (some e.priority) priority n es r
    → EmplaceResult top priority n
        (e ∷ es)
        (elim r [ none ↦ none | some p ↦ some (record p { above = e ∷ p.above }) ])
emplace_past top priority n e es none u q x = ground arith
emplace_past top priority n e es (some p) u q x = record {
  split = ap (λ t. e ∷ t) x.split;
  node = x.node;
  fresh = ground (arith, x.fresh);
  sorted = (u, x.sorted);
}

pub emplace_lem :
    (top : Option ℤ) (priority : ℤ) (n : Node) (es : List Entry)
    → under priority top ≡ true
    → Below top (keys es)
    → EmplaceResult top priority n es (emplace priority n es)
unfolding emplace
emplace_lem top priority n [] u b = record {
  split = refl;
  node = refl;
  fresh = refl;
  sorted = (u, tt);
}
emplace_lem top priority n (e ∷ es) u b = elim (Bool-cases (eqb_ℤ e.priority priority)) [
  | inl q ↦ rw q (ground arith)
  | inr q ↦ elim (Bool-cases (ltb_ℤ e.priority priority)) [
    | inl l ↦
        rw (q, l)
          (record {
            split = refl;
            node = refl;
            fresh = fresh-Below priority (keys (e ∷ es)) (l, b.1);
            sorted = (u, (l, b.1));
          })
    | inr l ↦
        rw (q, l)
          (emplace_past top priority n e es (emplace priority n es) b.0 q
            (emplace_lem (some e.priority) priority n es (ltb_total e.priority priority q l) b.1))
  ]
]

pub find-has_key :
    (priority : ℤ) (es : List Entry) (p : Place)
    → find priority es ≡ some p
    → has_key priority (keys es) ≡ true
find-has_key priority es p h =
    ap (λ t. has_key priority (keys t)) (find-eq priority es p h)
    ∙ ap (has_key priority) (keys-rebuild priority p)
    ∙ has_key-append priority (keys p.above) (priority ∷ keys p.below)
    ∙ ground (arith, eqb_refl priority)
