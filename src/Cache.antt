-- ===== src/Cache.antt =====
-- include/Buffer.h `Buffer` and include/Cache.h, source/Cache.cpp `Cache`: a stack of free buffers.
-- A buffer is a number, and a null pointer is `none`. A buffer's `deleter` is either `delete`, or a
-- closure that returns the buffer to the cache. Deleting what is not allocated, or reading a slot
-- that is not there, is undefined behaviour, which is `none`. A mutex makes each access to the slots
-- one step; what `remove` does after its step touches only the buffer that it creates.
pub mod Ownership
pub mod Operations
mod Tests
use dynalog.Base.{
  ℕ, zero, suc, ◌+◌, Bool, true, false, List, [], ◌∷◌, Option, none, some, ltb, ◌==◌, if◌then◌else◌,
  get_elem?, length, set, replicate, ◌>>=◌,
}

-- The allocated buffers. `next` is the number that the next one gets.
pub record Buffers : Type 0 where
  pub next : ℕ
  pub live : ℕ → Bool
  pub size : ℕ → ℕ
  pub recycled : ℕ → Bool

pub record Cache : Type 0 where
  pub capacity : ℕ
  pub index : ℕ
  pub slots : List (Option ℕ)

-- `Buffer::create( size, deleter )`.
pub create_buffer : ℕ → Bool → Buffers → ℕ × Buffers
create_buffer size recycled b = (
  b.next,
  record {
    next = suc b.next;
    live = λ k. if k == b.next then true else b.live k;
    size = λ k. if k == b.next then size else b.size k;
    recycled = λ k. if k == b.next then recycled else b.recycled k;
  },
)

-- `delete buffer`.
pub delete_buffer : ℕ → Buffers → Option Buffers
delete_buffer buffer b =
    if b.live buffer
    then some (record b { live = λ k. if k == buffer then false else b.live k })
    else none

-- `Cache( size, qty )`: `resize` fills the slots with null pointers.
pub create_cache : ℕ → ℕ → Cache
create_cache size qty = record { capacity = size; index = 0; slots = replicate qty none }

pub supports : ℕ → Cache → Bool
supports size c = if ltb c.capacity size then false else true

-- `index ? slots[ --index ] : nullptr`.
pub take_slot : Cache → Option (Option ℕ × Cache)
take_slot c = elim c.index [
  | zero ↦ some (none, c)
  | suc i ↦ do result ← get_elem? c.slots i; some (result, record c { index = i })
]

pub remove : ℕ → Cache → Buffers → Option (ℕ × Cache × Buffers)
remove size c b =
    if ltb c.capacity size
    then (let (buffer, b') = create_buffer size false b in some (buffer, c, b'))
    else (do
      (cached, c') ← take_slot c
      elim cached [
        | some buffer ↦ some (buffer, c', b)
        | none ↦ let (buffer, b') = create_buffer c.capacity true b in some (buffer, c', b')
      ])

pub insert : ℕ → Cache → Buffers → Option (Cache × Buffers)
insert buffer c b =
    if ltb c.index (length c.slots)
    then some (record c { slots = set c.slots c.index (some buffer); index = suc c.index }, b)
    else (do b' ← delete_buffer buffer b; some (c, b'))

-- `DelegateDelete`: the end of a `Buffer::Pointer` calls the buffer's deleter.
pub delegate_delete : ℕ → Cache → Buffers → Option (Cache × Buffers)
delegate_delete buffer c b =
    if b.live buffer
    then (if b.recycled buffer
        then insert buffer c b
        else (do b' ← delete_buffer buffer b; some (c, b')))
    else none

-- `while( index ) delete slots[ --index ]` of the destructor; to delete a null pointer does nothing.
pub delete_loop : ℕ → List (Option ℕ) → Buffers → Option Buffers
delete_loop zero slots b = some b
delete_loop (suc index) slots b = do
  slot ← get_elem? slots index
  b' ← elim slot [ none ↦ some b | some buffer ↦ delete_buffer buffer b ]
  delete_loop index slots b'

pub destroy_cache : Cache → Buffers → Option Buffers
destroy_cache c b = delete_loop c.index c.slots b
