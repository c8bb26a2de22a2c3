-- ===== src/Cache/Operations.antt =====
-- The operations of source/Cache.cpp: each keeps one owner for every buffer.
use dynalog.Base.{
  ℕ, zero, suc, ◌≤◌, ◌<◌, ◌≡◌, refl, subst, Bool, true, false, List, [], ◌∷◌, Option, none, some,
  ltb, if◌then◌else◌, ◌==◌, ◌&&◌, get_elem?, length, ◌>>=◌, arith, Returns, Returns-bind,
  Bool-cases, inl, inr, ◌↔◌,
}
use dynalog.Cache.{
  Buffers, Cache, create_buffer, delete_buffer, create_cache, take_slot, remove, insert,
  delegate_delete, delete_loop, destroy_cache, supports,
}
use dynalog.Cache.Ownership.{
  IsValid, times, cached, get_elem?-in, created, taken_null, taken_buffer, deleted, stacked,
  cached-set,
}

-- What `remove` is to return.
abbrev Removed : ℕ → List ℕ → ℕ × Cache × Buffers → Type 0
Removed size out r = (times r.0 out ≡ 0) × (size ≤ r.2.size r.0) × IsValid r.1 r.2 (r.0 ∷ out)

size-create_buffer :
    (size : ℕ) (recycled : Bool) (b : Buffers)
    → (create_buffer size recycled b).1.size b.next ≡ size
unfolding create_buffer
size-create_buffer size recycled b = ground arith

buffer-create_buffer :
    (size : ℕ) (recycled : Bool) (b : Buffers) → (create_buffer size recycled b).0 ≡ b.next
unfolding create_buffer
buffer-create_buffer size recycled b = refl

Removed-created :
    (c : Cache) (b : Buffers) (out : List ℕ) (wanted size : ℕ) (recycled : Bool)
    → IsValid c b out
    → (recycled ≡ true → size ≡ c.capacity)
    → wanted ≤ size
    → Removed wanted out ((create_buffer size recycled b).0, c, (create_buffer size recycled b).1)
Removed-created c b out wanted size recycled v s h =
    let p = created c b out size recycled v s in
    rw (buffer-create_buffer size recycled b, size-create_buffer size recycled b)
      (p.1, omega arith, p.0)

remove_cached :
    (c : Cache) (b : Buffers) (out : List ℕ) (size i : ℕ) (o : Option ℕ)
    → IsValid c b out
    → c.index ≡ suc i
    → get_elem? c.slots i ≡ some o
    → size ≤ c.capacity
    → Returns
        (elim o [
          | some buffer ↦ some (buffer, record c { index = i }, b)
          | none ↦
              let (buffer, b') = create_buffer c.capacity true b in
              some (buffer, record c { index = i }, b')
        ])
        (Removed size out)
remove_cached c b out size i none v e g h = (
  _,
  refl,
  Removed-created (record c { index = i }) b out size c.capacity true (taken_null c b out i v e g)
      (λ r. refl) h,
)
remove_cached c b out size i (some buffer) v e g h =
    let p = taken_buffer c b out i buffer v e g in (_, refl, (p.1, omega (arith, p.2), p.0))

remove_stacked :
    (c : Cache) (b : Buffers) (out : List ℕ) (size n : ℕ)
    → IsValid c b out
    → c.index ≡ n
    → size ≤ c.capacity
    → Returns (remove size c b) (Removed size out)
unfolding remove take_slot
remove_stacked c b out size zero v e h =
    rw (e, not_above)
      (
        _,
        refl,
        Removed-created (record c { index = 0 }) b out size c.capacity true
            (subst (λ n. IsValid (record c { index = n }) b out) e v) (λ r. refl) h,
      )
  where
    not_above : ltb c.capacity size ≡ false
    not_above = ground arith
remove_stacked c b out size (suc i) v e h =
    let (o, g) = get_elem?-in c.slots i (omega (arith, v.room)) in
    rw (e, not_above, g) (remove_cached c b out size i o v e g h)
  where
    not_above : ltb c.capacity size ≡ false
    not_above = ground arith

-- `remove` returns a buffer of at least the size that was asked for, which nobody holds; afterwards it
-- has one owner, the caller, as every other buffer has one.
pub remove_lem :
    (size : ℕ) (c : Cache) (b : Buffers) (out : List ℕ)
    → IsValid c b out
    → Returns
        (remove size c b)
        (λ r. (times r.0 out ≡ 0) × (size ≤ r.2.size r.0) × IsValid r.1 r.2 (r.0 ∷ out))
unfolding remove
remove_lem size c b out v = elim (Bool-cases (ltb c.capacity size)) [
  | inl e ↦
      rw e (_, refl, Removed-created c b out size size false v (λ r. absurd (cc r)) (omega arith))
  | inr e ↦ remove_stacked c b out size c.index v refl (ground arith)
]

-- Whether the deleter of a buffer keeps it: it is one of the cache's, and there is a slot left.
abbrev pub keeps : ℕ → Cache → Buffers → Bool
keeps buffer c b = b.recycled buffer && ltb c.index (length c.slots)

-- What the deleter of a buffer is to leave.
abbrev Ended : Cache → Buffers → List ℕ → ℕ → Bool → Cache × Buffers → Type 0
Ended c b out buffer kept r =
    IsValid r.0 r.1 out
    × (r.0.capacity ≡ c.capacity)
    × (cached r.0 ≡ (if kept then buffer ∷ cached c else cached c))
    × ((k : ℕ) → r.1.live k ≡ (if k == buffer then kept else b.live k))

gone :
    (c : Cache) (b : Buffers) (out : List ℕ) (buffer : ℕ)
    → IsValid c b (buffer ∷ out)
    → Returns (delete_buffer buffer b >>= (λ b'. some (c, b'))) (Ended c b out buffer false)
gone c b out buffer v =
    let (b', e, p) = deleted c b out buffer v in rw e ((c, b'), refl, (p.0, refl, refl, p.1))

insert_lem :
    (c : Cache) (b : Buffers) (out : List ℕ) (buffer : ℕ)
    → IsValid c b (buffer ∷ out)
    → b.live buffer ≡ true
    → b.recycled buffer ≡ true
    → Returns (insert buffer c b) (Ended c b out buffer (ltb c.index (length c.slots)))
unfolding insert
insert_lem c b out buffer v l r = elim (Bool-cases (ltb c.index (length c.slots))) [
  | inl h ↦ rw h (
    _,
    refl,
    (
      stacked c b out buffer v r (ground arith),
      refl,
      cached-set c buffer (ground arith),
      λ k. ground (arith, l),
    ),
  )
  | inr h ↦ rw h (gone c b out buffer v)
]

-- When a holder's pointer ends, its buffer goes on top of those of the cache if it is one of the
-- cache's and there is a slot left, and is deleted otherwise. The cache keeps its other buffers, in
-- their order, and its capacity; every other buffer is allocated as it was; and of the allocated
-- buffers each still has one owner, the cache or a holder.
pub delegate_delete_lem :
    (buffer : ℕ) (c : Cache) (b : Buffers) (out : List ℕ)
    → IsValid c b (buffer ∷ out)
    → Returns (delegate_delete buffer c b) (λ r.
      IsValid r.0 r.1 out
      × (r.0.capacity ≡ c.capacity)
      × (cached r.0 ≡ (if keeps buffer c b then buffer ∷ cached c else cached c))
      × ((k : ℕ) → r.1.live k ≡ (if k == buffer then keeps buffer c b else b.live k)))
unfolding delegate_delete
delegate_delete_lem buffer c b out v = elim (Bool-cases (b.recycled buffer)) [
  | inl r ↦ rw (held, r) (insert_lem c b out buffer v held r)
  | inr r ↦ rw (held, r) (gone c b out buffer v)
]
  where
    held : b.live buffer ≡ true
    held = ground (arith, v.owned buffer)

-- The slots that are left of the destructor's loop, as the slots of a cache.
abbrev rest_of : Cache → ℕ → Cache
rest_of c i = record c { index = i }

delete_slot :
    (c : Cache) (b : Buffers) (out : List ℕ) (i : ℕ) (o : Option ℕ)
    → IsValid (rest_of c (suc i)) b out
    → get_elem? c.slots i ≡ some o
    → Returns
        (elim o [ none ↦ some b | some buffer ↦ delete_buffer buffer b ])
        (λ b'. IsValid (rest_of c i) b' out)
delete_slot c b out i none v g = (b, refl, taken_null (rest_of c (suc i)) b out i v refl g)
delete_slot c b out i (some buffer) v g =
    let (b', e, p) =
      deleted (rest_of c i) b out buffer
        (taken_buffer (rest_of c (suc i)) b out i buffer v refl g).0 in
    (b', e, p.0)

delete_loop_lem :
    (c : Cache) (b : Buffers) (out : List ℕ) (i : ℕ)
    → IsValid (rest_of c i) b out
    → Returns (delete_loop i c.slots b) (λ b'. IsValid (rest_of c 0) b' out)
unfolding delete_loop
delete_loop_lem c b out zero v = (b, refl, v)
delete_loop_lem c b out (suc i) v =
    let (o, g) = get_elem?-in c.slots i (omega (arith, v.room)) in
    rw g (
      Returns-bind _ _ (λ b'. IsValid (rest_of c i) b' out) _ (delete_slot c b out i o v g)
        (λ b' p. delete_loop_lem c b' out i p))

-- The destructor deletes the buffers of the cache, once each: afterwards the allocated buffers are
-- those that are held.
pub destroy_cache_lem :
    (c : Cache) (b : Buffers) (out : List ℕ)
    → IsValid c b out
    → Returns (destroy_cache c b) (λ b'. (k : ℕ) → times k out ≡ (if b'.live k then 1 else 0))
unfolding destroy_cache
destroy_cache_lem c b out v =
    let (b', e, p) = delete_loop_lem c b out c.index v in (b', e, λ k. ground (arith, p.owned k))

-- A new cache owns nothing, and has the size that it was made with.
pub create_cache_lem :
    (size qty : ℕ) (b : Buffers) (out : List ℕ)
    → ((k : ℕ) → times k out ≡ (if b.live k then 1 else 0))
    → ((k : ℕ) → b.live k ≡ true → k < b.next)
    → ((k : ℕ) → b.live k ≡ true → b.recycled k ≡ false)
    → IsValid (create_cache size qty) b out
      × (cached (create_cache size qty) ≡ [])
      × ((wanted : ℕ) → (supports wanted (create_cache size qty) ≡ true) ↔ (wanted ≤ size))
unfolding create_cache supports
create_cache_lem size qty b out o n r = (
  record {
    room = omega arith;
    owned = λ k. ground (arith, o k);
    numbered = n;
    sized = λ k h e. cc (r k h, e);
    ours = λ k h. absurd (omega arith);
  },
  refl,
  λ wanted. (λ h. ground arith, λ h. ground arith),
)
