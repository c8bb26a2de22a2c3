-- ===== src/Message/Body/Elements.antt =====
-- The elements of a message of include/Message.h: formatted, printed and reflected.
use dynalog.Base.{
  ℕ, zero, suc, ◌+◌, ◌<◌, ◌≡◌, refl, ap, sym, ◌∙◌, subst, true, false, List, [], ◌∷◌, ◌++◌,
  append-nil, append_assoc, Option, none, some, ltb, ◌==◌, if◌then◌else◌, get_elem?, length,
  length-append, arith, Returns, Returns-bind, Bool-cases, inl, inr, ◌↔◌,
}
use dynalog.Message.Object.{ObjectBuffer, buffer_size, resize}
use dynalog.Message.Object.Lifetime.{
  Contains, listed, resize_lem, emplace_object_lem, is_vacant-Contains,
}
use dynalog.Message.Body.{
  generate, Reflection, apply_all, streamer, serialize, print_message, reflector, reflect, is_type,
  as_value, format,
}

-- The indices from `start` on.
abbrev pub upto : ℕ → ℕ → List ℕ
upto start zero = []
upto start (suc n) = start ∷ upto (suc start) n

upto-last :
    (start n : ℕ) (rest : List ℕ) → upto start n ++ (start + n) ∷ rest ≡ upto start (suc n) ++ rest
upto-last start zero rest = ap (λ k. k ∷ rest) (omega arith)
upto-last start (suc n) rest =
    ap (λ ks. start ∷ ks)
      (ap (λ k. upto (suc start) n ++ k ∷ rest) (omega arith) ∙ upto-last (suc start) n rest)

-- The generated sequence counts up from zero.
pub generate_lem : (n : ℕ) (rest : List ℕ) → generate n rest ≡ upto 0 n ++ rest
unfolding generate
generate_lem zero rest = refl
generate_lem (suc n) rest =
    generate_lem n (n ∷ rest) ∙ ap (λ k. upto 0 n ++ k ∷ rest) (omega arith) ∙ upto-last 0 n rest

pub get_elem?-append {ℓ} :
    {V : Type ℓ} (xs ys : List V) (y : V) → get_elem? (xs ++ y ∷ ys) (length xs) ≡ some y
get_elem?-append [] ys y = refl
get_elem?-append (x ∷ xs) ys y = get_elem?-append xs ys y

module _ {ℓ κ} {V : Type ℓ} {S : Type κ} where
  -- The calls of the functor on the elements, in order.
  abbrev calls : (S → ℕ → V → S) → S → ℕ → List V → S
  calls func s index [] = s
  calls func s index (v ∷ vs) = calls func (func s index v) (suc index) vs

  apply_all_from :
      (func : S → ℕ → V → S) (s : S) (xs ys : List V)
      → apply_all func s (xs ++ ys) (upto (length xs) (length ys))
        ≡ some (calls func s (length xs) ys)
  unfolding apply_all
  apply_all_from func s xs [] = refl
  apply_all_from func s xs (y ∷ ys) = rw (get_elem?-append xs ys y) (
      subst
        (λ n.
          apply_all func (func s (length xs) y) (xs ++ y ∷ ys) (upto n (length ys))
          ≡ some (calls func (func s (length xs) y) n ys))
        (length-append xs (y ∷ []) ∙ omega arith)
        (subst
          (λ vs.
            apply_all func (func s (length xs) y) vs (upto (length (xs ++ y ∷ [])) (length ys))
            ≡ some (calls func (func s (length xs) y) (length (xs ++ y ∷ [])) ys))
          (append_assoc xs (y ∷ []) ys)
          (apply_all_from func (func s (length xs) y) (xs ++ y ∷ []) ys)))

  -- Every element is visited once, in order.
  apply_all-calls :
      (func : S → ℕ → V → S) (s : S) (elements : List V)
      → apply_all func s elements (generate (length elements) []) ≡ some (calls func s 0 elements)
  apply_all-calls func s elements =
      ap (apply_all func s elements) (generate_lem (length elements) [] ∙ append-nil _)
      ∙ apply_all_from func s [] elements

module _ {ℓ κ} {V : Type ℓ} {C : Type κ} (print : V → List C) where
  -- The texts of the elements, one after the other.
  abbrev pub written : List V → List C
  written [] = []
  written (v ∷ vs) = print v ++ written vs

  calls-streamer :
      (stream : List C) (index : ℕ) (elements : List V)
      → calls (streamer print) stream index elements ≡ stream ++ written elements
  unfolding streamer
  calls-streamer stream index [] = sym (append-nil stream)
  calls-streamer stream index (v ∷ vs) =
      calls-streamer (stream ++ print v) (suc index) vs ∙ append_assoc stream (print v) (written vs)

  -- Serializing writes the text of every element, once, in order, behind what the stream has.
  pub serialize_lem :
      (elements : List V) (stream : List C)
      → serialize print elements stream ≡ some (stream ++ written elements)
  unfolding serialize
  serialize_lem elements stream =
      apply_all-calls (streamer print) stream elements ∙ ap some (calls-streamer stream 0 elements)

  -- What the test of `format` leaves: an object that is still to be destroyed, or none.
  abbrev Prepared : Option (ℕ × List V) → List (ℕ × List V) × ObjectBuffer (List V) → Type ℓ
  Prepared x r = (y : Option (ℕ × List V)) × Contains r.1 y × (r.0 ++ listed y ≡ listed x)

  prepared :
      (size_of : ℕ → ℕ) (body : ℕ) (o : ObjectBuffer (List V)) (x : Option (ℕ × List V))
      → Contains o x
      → Returns
          (if ltb (buffer_size o) (size_of body) then resize (size_of body) o else some ([], o))
          (Prepared x)
  prepared size_of body o x v = elim (Bool-cases (ltb (buffer_size o) (size_of body))) [
    | inl e ↦
        let (r, q, h) = resize_lem (size_of body) o x v in
        rw e (r, q, (none, h.1, append-nil r.0 ∙ h.0))
    | inr e ↦ rw e (([], o), refl, (x, v, refl))
  ]

  -- A message that was formatted from arguments holds them, whatever it held before, which is
  -- destroyed once; and it prints them in order.
  pub format-print_message :
      (size_of : ℕ → ℕ) (body : ℕ) (elements : List V) (o : ObjectBuffer (List V))
      (x : Option (ℕ × List V)) (empty_text stream : List C)
      → Contains o x
      → 0 < size_of body
      → Returns (format size_of body elements o) (λ r.
        (r.0 ≡ listed x)
        × Contains r.1 (some (body, elements))
        × (print_message print body empty_text r.1 stream ≡ some (stream ++ written elements)))
  unfolding format print_message
  format-print_message size_of body elements o x empty_text stream v p =
      Returns-bind _ _ (Prepared x)
        (λ r.
          (r.0 ≡ listed x)
          × Contains r.1 (some (body, elements))
          × (print_message print body empty_text r.1 stream ≡ some (stream ++ written elements)))
        (prepared size_of body o x v)
        (λ r h.
          let (m, q, k) = emplace_object_lem size_of body elements r.1 h.0 h.1 p in
          (
            (r.0 ++ m.0, m.1),
            rw q refl,
            (
              ap (λ g. r.0 ++ g) k.0 ∙ h.2,
              k.1,
              rw (is_vacant-Contains m.1 _ k.1, k.2) (serialize_lem elements stream),
            ),
          ))

module _ {ℓ} {V : Type ℓ} (type_of : V → ℕ) where
  -- The reflection of an element that is there, or the one from before.
  abbrev pick : Reflection V → Option V → Reflection V
  pick r none = r
  pick r (some v) = record { info = some (type_of v); object = some v }

  calls-reflector_past :
      (target index : ℕ) (r : Reflection V) (elements : List V)
      → target < index
      → calls (reflector type_of target) r index elements ≡ r
  unfolding reflector
  calls-reflector_past target index r [] h = refl
  calls-reflector_past target index r (v ∷ vs) h =
      let e : (index == target) ≡ false = ground arith in
      rw e (calls-reflector_past target (suc index) r vs (omega arith))

  calls-reflector :
      (index offset : ℕ) (r : Reflection V) (elements : List V)
      → calls (reflector type_of (index + offset)) r index elements
        ≡ pick r (get_elem? elements offset)
  unfolding reflector
  calls-reflector index offset r [] = refl
  calls-reflector index zero r (v ∷ vs) =
      let e : (index == (index + 0)) ≡ true = ground arith in
      rw e (calls-reflector_past (index + 0) (suc index) (pick r (some v)) vs (omega arith))
  calls-reflector index (suc offset) r (v ∷ vs) =
      let e : (index == (index + suc offset)) ≡ false = ground arith in
      rw e (
        subst (λ t. calls (reflector type_of t) r (suc index) vs ≡ pick r (get_elem? vs offset))
          (omega arith) (calls-reflector (suc index) offset r vs))

  abbrev nothing : Reflection V
  nothing = record { info = none; object = none }

  reflect-eq :
      (elements : List V) (index : ℕ)
      → reflect type_of elements index ≡ some (pick nothing (get_elem? elements index))
  unfolding reflect
  reflect-eq elements index =
      apply_all-calls (reflector type_of index) nothing elements
      ∙ ap some (
          subst
            (λ t.
              calls (reflector type_of t) nothing 0 elements
              ≡ pick nothing (get_elem? elements index))
            (omega arith) (calls-reflector 0 index nothing elements))

  -- What a reflection answers.
  abbrev Answers : Option V → Reflection V → Type ℓ
  Answers o r =
      (r.object ≡ o)
      × ((type : ℕ)
          → (is_type type_of type r ≡ true) ↔ ((v : V) × (o ≡ some v) × (type_of v ≡ type)))
      × ((type : ℕ) → is_type type_of type r ≡ true → as_value type_of type r ≡ o)

  pick-Answers : (o : Option V) → Answers o (pick nothing o)
  unfolding is_type as_value
  pick-Answers none = (refl, λ type. (λ h. absurd (cc h), λ p. absurd (cc (p.1))), λ type h. refl)
  pick-Answers (some v) = (
    refl,
    λ type. (
      λ h. (v, refl, ground arith),
      λ p.
          let same : v ≡ p.0 = ap (λ o. elim o [ none ↦ v | some w ↦ w ]) (p.1) in
          ground (arith, ap type_of same, p.2),
    ),
    λ type h. rw h refl,
  )

  pub reflect_lem :
      (elements : List V) (index : ℕ)
      → Returns (reflect type_of elements index) (λ r.
        (r.object ≡ get_elem? elements index)
        × ((type : ℕ)
            → (is_type type_of type r ≡ true)
              ↔ ((v : V) × (get_elem? elements index ≡ some v) × (type_of v ≡ type)))
        × ((type : ℕ)
            → is_type type_of type r ≡ true
            → as_value type_of type r ≡ get_elem? elements index))
  reflect_lem elements index =
      (_, reflect-eq elements index, pick-Answers (get_elem? elements index))
