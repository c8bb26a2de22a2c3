-- ===== src/Cache/Ownership.antt =====
-- Who owns a buffer of source/Cache.cpp: the cache, or a holder of a `Buffer::Pointer`.
use dynalog.Base.{
  ℕ, zero, suc, ◌+◌, ◌≤◌, ◌<◌, ◌≡◌, refl, ap, sym, ◌∙◌, subst, Bool, true, false, List, [], ◌∷◌,
  Option, none, some, ◌==◌, if◌then◌else◌, get_elem?, length, set, length-set, arith, Returns,
}
use dynalog.Cache.{Buffers, Cache, create_buffer, delete_buffer}

-- The buffers in the first `index` slots, the last one first.
abbrev pub with_slot : Option (Option ℕ) → List ℕ → List ℕ
with_slot none xs = xs
with_slot (some none) xs = xs
with_slot (some (some buffer)) xs = buffer ∷ xs

abbrev pub stack : ℕ → List (Option ℕ) → List ℕ
stack zero slots = []
stack (suc index) slots = with_slot (get_elem? slots index) (stack index slots)

abbrev pub cached : Cache → List ℕ
cached c = stack c.index c.slots

-- How often a buffer stands in a list.
abbrev pub times : ℕ → List ℕ → ℕ
times k [] = 0
times k (x ∷ xs) = (if k == x then 1 else 0) + times k xs

-- `out` lists the buffers that are held. Every allocated buffer has one owner, the cache or a holder,
-- and no other buffer has one; those of the cache have its size.
pub record IsValid (c : Cache) (b : Buffers) (out : List ℕ) : Type 0 where
  pub room : c.index ≤ length c.slots
  pub owned : (k : ℕ) → times k (cached c) + times k out ≡ (if b.live k then 1 else 0)
  pub numbered : (k : ℕ) → b.live k ≡ true → k < b.next
  pub sized : (k : ℕ) → b.live k ≡ true → b.recycled k ≡ true → b.size k ≡ c.capacity
  pub ours : (k : ℕ) → 0 < times k (cached c) → b.recycled k ≡ true

pub get_elem?-in :
    {A : Type 0} (xs : List A) (i : ℕ) → i < length xs → (a : A) × (get_elem? xs i ≡ some a)
get_elem?-in [] i h = absurd (omega arith)
get_elem?-in (x ∷ xs) zero h = (x, refl)
get_elem?-in (x ∷ xs) (suc i) h = get_elem?-in xs i (omega arith)

get_elem?-set_self :
    {A : Type 0} (xs : List A) (i : ℕ) (v : A) → i < length xs → get_elem? (set xs i v) i ≡ some v
get_elem?-set_self [] i v h = absurd (omega arith)
get_elem?-set_self (x ∷ xs) zero v h = refl
get_elem?-set_self (x ∷ xs) (suc i) v h = get_elem?-set_self xs i v (omega arith)

get_elem?-set_above :
    {A : Type 0} (xs : List A) (i j : ℕ) (v : A) → i < j → get_elem? (set xs j v) i ≡ get_elem? xs i
get_elem?-set_above [] i j v h = refl
get_elem?-set_above (x ∷ xs) i zero v h = absurd (omega arith)
get_elem?-set_above (x ∷ xs) zero (suc j) v h = refl
get_elem?-set_above (x ∷ xs) (suc i) (suc j) v h = get_elem?-set_above xs i j v (omega arith)

stack-set :
    (i j : ℕ) (slots : List (Option ℕ)) (v : Option ℕ)
    → i ≤ j
    → stack i (set slots j v) ≡ stack i slots
stack-set zero j slots v h = refl
stack-set (suc i) j slots v h =
    cc (get_elem?-set_above slots i j v (omega arith), stack-set i j slots v (omega arith))

-- A buffer that is created is new, and gets an owner.
pub created :
    (c : Cache) (b : Buffers) (out : List ℕ) (size : ℕ) (recycled : Bool)
    → IsValid c b out
    → (recycled ≡ true → size ≡ c.capacity)
    → IsValid c (create_buffer size recycled b).1 (b.next ∷ out) × (times b.next out ≡ 0)
unfolding create_buffer
created c b out size recycled v s = (
  record {
    room = v.room;
    owned = λ k. ground (arith, v.owned k, v.numbered k);
    numbered = λ k h. ground (arith, v.numbered k);
    sized = λ k h r. ground (arith, v.sized k, s);
    ours = λ k h. ground (arith, v.ours k h, v.owned k, v.numbered k);
  },
  ground (arith, v.owned b.next, v.numbered b.next),
)

-- The cache without its topmost slot, whose buffer is given to a holder if it has one.
pub taken_null :
    (c : Cache) (b : Buffers) (out : List ℕ) (i : ℕ)
    → IsValid c b out
    → c.index ≡ suc i
    → get_elem? c.slots i ≡ some none
    → IsValid (record c { index = i }) b out
taken_null c b out i v e g = record {
  room = omega (arith, v.room);
  owned = λ k. ap (λ xs. times k xs + times k out) (sym same) ∙ v.owned k;
  numbered = v.numbered;
  sized = v.sized;
  ours = λ k h. v.ours k (subst (λ xs. 0 < times k xs) (sym same) h);
}
  where
    same : cached c ≡ stack i c.slots
    same = ap (λ n. stack n c.slots) e ∙ ap (λ o. with_slot o (stack i c.slots)) g

pub taken_buffer :
    (c : Cache) (b : Buffers) (out : List ℕ) (i buffer : ℕ)
    → IsValid c b out
    → c.index ≡ suc i
    → get_elem? c.slots i ≡ some (some buffer)
    → IsValid (record c { index = i }) b (buffer ∷ out)
      × (times buffer out ≡ 0)
      × (b.size buffer ≡ c.capacity)
taken_buffer c b out i buffer v e g = (
  record {
    room = omega (arith, v.room);
    owned = λ k. ground (arith, at k, v.owned k);
    numbered = v.numbered;
    sized = v.sized;
    ours = λ k h. v.ours k (omega (arith, at k));
  },
  ground (arith, at buffer, v.owned buffer),
  ground (arith, at buffer, v.owned buffer, v.sized buffer, v.ours buffer),
)
  where
    at : (k : ℕ) → times k (cached c) ≡ (if k == buffer then 1 else 0) + times k (stack i c.slots)
    at k = ap (times k) (ap (λ n. stack n c.slots) e ∙ ap (λ o. with_slot o (stack i c.slots)) g)

-- What `delete` leaves of a buffer that only its holder owns.
pub deleted :
    (c : Cache) (b : Buffers) (out : List ℕ) (buffer : ℕ)
    → IsValid c b (buffer ∷ out)
    → Returns
        (delete_buffer buffer b)
        (λ b'. IsValid c b' out × ((k : ℕ) → b'.live k ≡ (if k == buffer then false else b.live k)))
unfolding delete_buffer
deleted c b out buffer v = rw held (
  _,
  refl,
  (
    record {
      room = v.room;
      owned = λ k. ground (arith, v.owned k, v.owned buffer);
      numbered = λ k h. ground (arith, v.numbered k);
      sized = λ k h r. ground (arith, v.sized k);
      ours = v.ours;
    },
    λ k. refl,
  ),
)
  where
    held : b.live buffer ≡ true
    held = ground (arith, v.owned buffer)

-- A buffer that goes to the cache stands above the others.
pub cached-set :
    (c : Cache) (buffer : ℕ)
    → c.index < length c.slots
    → cached (record c { slots = set c.slots c.index (some buffer); index = suc c.index })
      ≡ buffer ∷ cached c
cached-set c buffer h =
    ap (λ o. with_slot o (stack c.index (set c.slots c.index (some buffer))))
      (get_elem?-set_self c.slots c.index (some buffer) h)
    ∙ ap (λ xs. buffer ∷ xs) (stack-set c.index c.index c.slots (some buffer) (omega arith))

pub stacked :
    (c : Cache) (b : Buffers) (out : List ℕ) (buffer : ℕ)
    → IsValid c b (buffer ∷ out)
    → b.recycled buffer ≡ true
    → c.index < length c.slots
    → IsValid (record c { slots = set c.slots c.index (some buffer); index = suc c.index }) b out
stacked c b out buffer v r h = record {
  room = omega (arith, length-set c.slots c.index (some buffer));
  owned = λ k. ground (arith, at k, v.owned k);
  numbered = v.numbered;
  sized = v.sized;
  ours = λ k p. ground (arith, at k, v.ours k);
}
  where
    at :
        (k : ℕ)
        → times k (stack (suc c.index) (set c.slots c.index (some buffer)))
          ≡ (if k == buffer then 1 else 0) + times k (cached c)
    at k = ap (times k) (cached-set c buffer h)
