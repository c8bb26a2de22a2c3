-- ===== src/Message/Object/Lifetime.antt =====
-- The life of the object in an `ObjectBuffer` of include/ObjectBuffer.h.
use dynalog.Base.{
  ℕ, ◌≤◌, ◌<◌, ◌≡◌, refl, ap, sym, ◌∙◌, true, false, List, [], ◌∷◌, Option, none, some, ltb,
  if◌then◌else◌, arith, Returns, Returns-bind, Bool-cases, inl, inr, max, ==_refl,
}
use dynalog.Message.Object.{
  Storage, ObjectBuffer, create_object_buffer, is_vacant, buffer_size, call_destructor,
  clear_object, resize_to, resize, move_object, assign_object, as_type, construct, emplace_object,
}

module _ {ℓ} {A : Type ℓ} where
  abbrev pub listed : Option (ℕ × A) → List (ℕ × A)
  listed none = []
  listed (some object) = object ∷ []

  abbrev pub type_in : Option (ℕ × A) → Option ℕ
  type_in none = none
  type_in (some object) = some (object.0)

  abbrev pub bytes : Option (Storage A) → Option (ℕ × A)
  bytes none = none
  bytes (some s) = s.content

  -- The buffer holds that object, or none; its `info` and its destructor are those of the object.
  pub record Contains (o : ObjectBuffer A) (x : Option (ℕ × A)) : Type ℓ where
    pub typed : o.info ≡ type_in x
    pub destroyed_by : o.destructor ≡ type_in x
    pub stored : bytes o.buffer ≡ x

  -- A new buffer holds no object.
  pub create_object_buffer-Contains : Contains create_object_buffer none
  unfolding create_object_buffer
  create_object_buffer-Contains = record { typed = refl; destroyed_by = refl; stored = refl }

  -- What a function that clears the buffer returns.
  abbrev pub Cleared : ObjectBuffer A → Option (ℕ × A) → List (ℕ × A) × ObjectBuffer A → Type ℓ
  Cleared o x r = (r.0 ≡ listed x) × Contains r.1 none × (buffer_size r.1 ≡ buffer_size o)

  clear-vacant :
      (o : ObjectBuffer A)
      → Contains o none
      → Returns (clear_object o) (λ r. Cleared o none r × (r.1 ≡ o))
  unfolding clear_object
  clear-vacant o v = (([], o), ground (arith, v.destroyed_by), ((refl, v, refl), refl))

  clear-occupied :
      (o : ObjectBuffer A) (type : ℕ) (value : A) (s : Option (Storage A))
      → Contains o (some (type, value))
      → o.buffer ≡ s
      → Returns (clear_object o) (Cleared o (some (type, value)))
  unfolding clear_object call_destructor buffer_size
  clear-occupied o type value none v e = absurd (let h = ap bytes e in cc (v.stored, h))
  clear-occupied o type value (some s) v e =
      let c : s.content ≡ some (type, value) = sym (ap bytes e) ∙ v.stored in
      rw (v.destroyed_by, e, c, ==_refl type)
        (_, refl, (refl, record { typed = refl; destroyed_by = refl; stored = refl }, refl))

  -- Clearing destroys the object of the buffer, once, if it has one, and keeps the buffer's size.
  clear_object_lem :
      (o : ObjectBuffer A) (x : Option (ℕ × A))
      → Contains o x
      → Returns (clear_object o) (Cleared o x)
  clear_object_lem o none v = let (r, e, h) = clear-vacant o v in (r, e, h.0)
  clear_object_lem o (some (type, value)) v = clear-occupied o type value o.buffer v refl

  -- `resize` destroys the object of the buffer, once, if it has one, and leaves a vacant buffer of
  -- that size.
  pub resize_lem :
      (capacity : ℕ) (o : ObjectBuffer A) (x : Option (ℕ × A))
      → Contains o x
      → Returns
          (resize capacity o)
          (λ r. (r.0 ≡ listed x) × Contains r.1 none × (buffer_size r.1 ≡ capacity))
  unfolding resize buffer_size
  resize_lem capacity o x v =
      Returns-bind (clear_object o) _ (Cleared o x)
        (λ r. (r.0 ≡ listed x) × Contains r.1 none × (buffer_size r.1 ≡ capacity))
        (clear_object_lem o x v)
        (λ r h. (
          _,
          refl,
          (h.0, record { typed = h.1.typed; destroyed_by = h.1.destroyed_by; stored = refl }, refl),
        ))

  -- Move assignment destroys what the target held, once, hands the source's object over as it is, and
  -- leaves the source vacant, with no storage.
  pub assign_object_lem :
      (o other : ObjectBuffer A) (x y : Option (ℕ × A))
      → Contains o x
      → Contains other y
      → Returns (assign_object o other) (λ r.
        (r.0 ≡ listed x)
        × Contains r.1 y
        × (buffer_size r.1 ≡ buffer_size other)
        × Contains r.2 none
        × (buffer_size r.2 ≡ 0))
  unfolding assign_object buffer_size
  assign_object_lem o other x y v w =
      Returns-bind (clear_object o) _ (Cleared o x)
        (λ r.
          (r.0 ≡ listed x)
          × Contains r.1 y
          × (buffer_size r.1 ≡ buffer_size other)
          × Contains r.2 none
          × (buffer_size r.2 ≡ 0))
        (clear_object_lem o x v)
        (λ r h. (
          _,
          refl,
          (h.0, w, refl, record { typed = refl; destroyed_by = refl; stored = refl }, refl),
        ))

  -- Move construction hands the object over as it is, and leaves the source vacant, with no storage.
  pub move_object_lem :
      (other : ObjectBuffer A) (y : Option (ℕ × A))
      → Contains other y
      → Contains (move_object other).0 y
        × (buffer_size (move_object other).0 ≡ buffer_size other)
        × Contains (move_object other).1 none
        × (buffer_size (move_object other).1 ≡ 0)
  unfolding move_object buffer_size
  move_object_lem other y w =
      (w, refl, record { typed = refl; destroyed_by = refl; stored = refl }, refl)

  -- Replacing the storage destroys the object of the buffer, once, if it has one.
  pub resize_to_lem :
      (s : Option (Storage A)) (o : ObjectBuffer A) (x : Option (ℕ × A))
      → Contains o x
      → bytes s ≡ none
      → Returns (resize_to s o) (λ r. (r.0 ≡ listed x) × Contains r.1 none)
  unfolding resize_to
  resize_to_lem s o x v n =
      Returns-bind (clear_object o) _ (Cleared o x) (λ r. (r.0 ≡ listed x) × Contains r.1 none)
        (clear_object_lem o x v)
        (λ r h. (
          _,
          refl,
          (h.0, record { typed = h.1.typed; destroyed_by = h.1.destroyed_by; stored = n }),
        ))

  -- The object that is there is the one that `as` gives for its type.
  as_type_lem :
      (o : ObjectBuffer A) (type : ℕ) (value : A) (s : Option (Storage A))
      → Contains o (some (type, value))
      → o.buffer ≡ s
      → as_type type o ≡ some value
  unfolding as_type
  as_type_lem o type value none v e = absurd (let h = ap bytes e in cc (v.stored, h))
  as_type_lem o type value (some s) v e =
      let c : s.content ≡ some (type, value) = sym (ap bytes e) ∙ v.stored in
      rw (e, c, ==_refl type) refl

  -- A buffer is vacant exactly if it holds no object.
  pub is_vacant-Contains :
      (o : ObjectBuffer A) (x : Option (ℕ × A))
      → Contains o x
      → is_vacant o ≡ (elim x [ none ↦ true | some object ↦ false ])
  unfolding is_vacant
  is_vacant-Contains o none v = ground (arith, v.destroyed_by)
  is_vacant-Contains o (some object) v = ground (arith, v.destroyed_by)

  module _ (size_of : ℕ → ℕ) where
    construct_lem :
        (type : ℕ) (value : A) (o : ObjectBuffer A) (s : Option (Storage A))
        → o.buffer ≡ s
        → 0 < size_of type
        → size_of type ≤ buffer_size o
        → Returns
            (construct size_of type value o)
            (λ o'. Contains o' (some (type, value)) × (buffer_size o' ≡ buffer_size o))
    unfolding construct buffer_size
    construct_lem type value o none e p h = absurd (let q = ap (size_in) e in omega (arith, q))
      where
        size_in : Option (Storage A) → ℕ
        size_in t = elim t [ none ↦ 0 | some s ↦ s.capacity ]
    construct_lem type value o (some s) e p h =
        rw (e, fits) (_, refl, (record { typed = refl; destroyed_by = refl; stored = refl }, refl))
      where
        size_in : Option (Storage A) → ℕ
        size_in t = elim t [ none ↦ 0 | some s ↦ s.capacity ]

        fits : ltb s.capacity (size_of type) ≡ false
        fits = let q = ap size_in e in ground (arith, q)

    cleared_for :
        (type : ℕ) (o : ObjectBuffer A) (x : Option (ℕ × A))
        → Contains o x
        → Returns
            (if ltb (buffer_size o) (size_of type) then resize (size_of type) o else clear_object o)
            (λ r.
              (r.0 ≡ listed x)
              × Contains r.1 none
              × (buffer_size r.1 ≡ max (buffer_size o) (size_of type)))
    cleared_for type o x v = elim (Bool-cases (ltb (buffer_size o) (size_of type))) [
      | inl e ↦
          let (r, q, h) = resize_lem (size_of type) o x v in
          rw e (r, q, (h.0, h.1, ground (arith, h.2)))
      | inr e ↦
          let (r, q, h) = clear_object_lem o x v in rw e (r, q, (h.0, h.1, ground (arith, h.2)))
    ]

    -- `emplace` destroys the object of the buffer, once, if it has one. Then the buffer holds the new
    -- object, which `as` gives back; its size is the old one, or that of the object if that is more.
    pub emplace_object_lem :
        (type : ℕ) (value : A) (o : ObjectBuffer A) (x : Option (ℕ × A))
        → Contains o x
        → 0 < size_of type
        → Returns (emplace_object size_of type value o) (λ r.
          (r.0 ≡ listed x)
          × Contains r.1 (some (type, value))
          × (as_type type r.1 ≡ some value)
          × (buffer_size r.1 ≡ max (buffer_size o) (size_of type)))
    unfolding emplace_object
    emplace_object_lem type value o x v p =
        Returns-bind _ _
          (λ r.
            (r.0 ≡ listed x)
            × Contains r.1 none
            × (buffer_size r.1 ≡ max (buffer_size o) (size_of type)))
          (λ r.
            (r.0 ≡ listed x)
            × Contains r.1 (some (type, value))
            × (as_type type r.1 ≡ some value)
            × (buffer_size r.1 ≡ max (buffer_size o) (size_of type)))
          (cleared_for type o x v)
          (λ r h.
            let (o', q, k) = construct_lem type value r.1 r.1.buffer refl p (omega (arith, h.2)) in
            (
              (r.0, o'),
              rw q refl,
              (h.0, k.0, as_type_lem o' type value o'.buffer k.0 refl, k.1 ∙ h.2),
            ))
