-- ===== src/Levels.antt =====
-- include/util.h `EnumSet`, include/Core.h `Level` and `LevelSet`, include/Logger.h `Logger`.
-- A `std::bitset<Qty>` is the list of its bits, lowest first; a call that throws is `none`. An enum
-- value is the number that `static_cast<size_t>` gives; a pointer to an emitter is a number, and
-- null is `none`.
pub mod Laws
mod Tests
use Prim.Native.String.{String}
use dynalog.Base.{
  ℕ, zero, suc, ◌+◌, ◌/◌, ◌%◌, Bool, true, false, List, [], ◌∷◌, Option, none, some, ltb, ◌==◌,
  if◌then◌else◌, get_elem?, length, set, replicate, ◌>>=◌, ◌&&◌,
}

abbrev pub Bits : Type 0
Bits = List Bool

-- `std::bitset<qty>( value )`: the low bits of the number.
pub from_bits : ℕ → ℕ → Bits
from_bits zero value = []
from_bits (suc qty) value = (value % 2 == 1) ∷ from_bits qty (value / 2)

-- `set( bit, value )` throws out of range.
pub set_bit : Bits → ℕ → Bool → Option Bits
set_bit bits bit value = if ltb bit (length bits) then some (set bits bit value) else none

-- `set( All, value )`.
pub set_all : Bits → Bool → Bits
set_all bits value = replicate (length bits) value

-- `get( bit )`: `test` throws out of range.
unfoldable pub get : Bits → ℕ → Option Bool
get bits bit = get_elem? bits bit

-- The loop of the constructor from a list of values.
pub set_each : Bits → List ℕ → Option Bits
set_each bits [] = some bits
set_each bits (value ∷ rest) = do bits' ← set_bit bits value true; set_each bits' rest

pub from_list : ℕ → List ℕ → Option Bits
unfolding from_bits set_each
from_list qty values = set_each (from_bits qty 0) values

-- `operator +=` and `operator -=`.
pub add_assign : Bits → ℕ → Option Bits
add_assign bits bit = set_bit bits bit true

pub sub_assign : Bits → ℕ → Option Bits
sub_assign bits bit = set_bit bits bit true

-- `Level::LEVEL_QTY`, and the levels below it.
abbrev pub level_qty : ℕ
level_qty = 5

abbrev pub critical : ℕ
critical = 0

abbrev pub info : ℕ
info = 3

-- `LevelSet{ ~0u }`, the default of generated loggers.
pub default_levels : Bits
unfolding from_bits
default_levels = from_bits level_qty 0xffffffff

pub record Logger : Type 0 where
  pub emitter : Option ℕ
  pub levels : Bits
  pub location : String
  pub context : String
  pub tag : String

-- The test of `Logger::log`: where the message goes, if anywhere. `none` outside: `get` threw.
unfoldable pub route : Logger → ℕ → Option (Option ℕ)
route logger level = elim logger.emitter [
  | none ↦ some none
  | some destination ↦ do
    enabled ← get logger.levels level
    some (if enabled then some destination else none)
]
