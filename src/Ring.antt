-- ===== src/Ring.antt =====
-- include/async/RingBuffer.h: the fixed-capacity ring of `RingBuffer<T>`, and its `Slots`.
-- Pointers into the storage are offsets from `storage`. A cell of the storage is raw memory, a live
-- object, or an object that was moved from and not yet destroyed. An operation that reads, moves
-- from or destroys a cell that holds no such object has undefined behaviour, which is `none`. A write
-- where there is no cell, as in a ring of capacity zero, is undefined too; the model writes nothing
-- then, and does not tell.
mod Bounds
pub mod Pointers
pub mod Holds
pub mod State
pub mod Fifo
pub mod Reshape
mod Tests
use dynalog.Base.{
  ℕ, zero, suc, ◌+◌, ◌-◌, ◌%◌, ◌^◌, Bool, true, false, ◌||◌, List, [], ◌∷◌, ◌++◌, Option, none,
  some, ltb, leb, ◌==◌, if◌then◌else◌, get_or, set, replicate, ◌>>=◌,
}

pub data Cell {ℓ} (A : Type ℓ) : Type ℓ where
  raw : Cell A
  live : A → Cell A
  moved : Cell A

-- `size_t` addition and subtraction.
abbrev add_size : ℕ → ℕ → ℕ
add_size a b = (a + b) % 2 ^ 64

abbrev pub sub_size : ℕ → ℕ → ℕ
sub_size a b = (a + 2 ^ 64 - b) % 2 ^ 64

pub record Slots {ℓ} (A : Type ℓ) : Type ℓ where
  pub storage : List (Cell A)
  pub begin : ℕ
  pub end : ℕ
  pub size : ℕ
  pub capacity : ℕ

module _ {ℓ} {A : Type ℓ} where
  -- What a move takes out of a cell.
  abbrev move_out : Cell A → Option A
  move_out raw = none
  move_out (live a) = some a
  move_out moved = none

  -- What a destructor destroys: a moved-from object is destroyed too, but holds no value.
  abbrev destroy : Cell A → Option (List A)
  destroy raw = none
  destroy (live a) = some (a ∷ [])
  destroy moved = some []

  abbrev pub cell : Slots A → ℕ → Cell A
  cell s ptr = get_or s.storage ptr raw

  pub advance : Slots A → ℕ → ℕ → ℕ
  advance s ptr count =
      if leb s.capacity (ptr + count) then ptr + count - s.capacity else ptr + count

  pub rewind : Slots A → ℕ → ℕ → ℕ
  rewind s ptr count = if ltb ptr count then ptr + s.capacity - count else ptr - count

  pub init : List (Cell A) → ℕ → Slots A
  init storage count = record { storage = storage; begin = 0; end = 0; size = 0; capacity = count }

  -- `RingBuffer( size_t capacity )`: raw storage for that many elements.
  pub create : ℕ → Slots A
  unfolding init
  create capacity = init (replicate capacity raw) capacity

  -- `RingBuffer( void )`.
  pub create_empty : Slots A
  unfolding init
  create_empty = init [] 0

  pub is_empty : Slots A → Bool
  is_empty s = s.size == 0

  pub is_full : Slots A → Bool
  is_full s = s.size == s.capacity

  -- The caller sees to it that there is room: that a cell is at `end`, and that it is free.
  pub emplace : Slots A → A → Slots A
  emplace s value =
      let t : Slots A = record s { storage = set s.storage s.end (live value) } in
      record t { end = advance t t.end 1; size = add_size t.size 1 }

  -- The end of a destructor call at `begin`: the cell is raw, and `begin` moves on.
  pub drop_begin : Slots A → Slots A
  drop_begin s = record s {
    storage = set s.storage s.begin raw;
    begin = advance s s.begin 1;
    size = sub_size s.size 1;
  }

  pub pop : Slots A → Option (A × Slots A)
  pop s = do result ← move_out (cell s s.begin); some (result, drop_begin s)

  -- The rounds left of the loop of `erase`.
  pub erase_loop : (A → Bool) → ℕ → Slots A → Option (Slots A)
  erase_loop predicate zero s = some s
  erase_loop predicate (suc rounds) s = do
    (value, t) ← pop s
    erase_loop predicate rounds (if predicate value then t else emplace t value)

  pub erase : (A → Bool) → Slots A → Option (ℕ × Slots A)
  erase predicate s = do t ← erase_loop predicate s.size s; some (sub_size s.size t.size, t)

  -- `while( size )` of `clear`, with a round for each element; the values destroyed, in order.
  pub clear_loop : ℕ → Slots A → Option (List A × Slots A)
  clear_loop zero s = some ([], s)
  clear_loop (suc rounds) s = do
    gone ← destroy (cell s s.begin)
    (rest, t) ← clear_loop rounds (drop_begin s)
    some (gone ++ rest, t)

  pub clear : Slots A → Option (List A × Slots A)
  clear s = clear_loop s.size s

  -- `begin` and `end` keep pointing into the storage that was given back.
  pub release : Slots A → Option (List A × Slots A)
  release s = do (gone, t) ← clear s; some (gone, record t { storage = []; size = 0; capacity = 0 })

  -- `RingBuffer( RingBuffer && other )`: the new buffer, and what `other` is left as.
  pub move_construct : Slots A → Slots A × Slots A
  move_construct other = (other, init [] 0)

  -- `*this = std::move( other )`: what is destroyed, `*this`, and what `other` is left as.
  pub move_assign : Slots A → Slots A → Option (List A × Slots A × Slots A)
  move_assign s other = do (gone, t) ← release s; some (gone, other, init [] 0)

  -- `while( ! empty() && ! other.full() ) other.emplace( pop() )`: at most `rounds` times.
  pub refill_loop : ℕ → Slots A → Slots A → Option (Slots A × Slots A)
  refill_loop zero s other = some (s, other)
  refill_loop (suc rounds) s other = elim (is_empty s || is_full other) [
    | true ↦ some (s, other)
    | false ↦ do (value, t) ← pop s; refill_loop rounds t (emplace other value)
  ]

  -- What is destroyed, and the buffer; the loop takes an element from it in each round.
  pub reshape : ℕ → Slots A → Option (List A × Slots A)
  reshape capacity s = do
    (s1, other) ← refill_loop s.size s (create capacity)
    (gone, s2) ← release s1
    (more, s3, left) ← move_assign s2 other
    some (gone ++ more, s3)
