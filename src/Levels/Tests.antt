-- ===== src/Levels/Tests.antt =====
-- Concrete level sets: the theorems at inputs that meet their hypotheses, and runs.
use dynalog.Base.{◌≡◌, refl, true, false, [], ◌∷◌, some}
use dynalog.Levels.{Bits, Logger, from_bits, set_all, default_levels}

abbrev some_levels : Bits
some_levels = true ∷ false ∷ false ∷ true ∷ false ∷ []

abbrev logger : Logger
logger = record {
  emitter = some 7;
  levels = some_levels;
  location = "a.cpp:1";
  context = "f";
  tag = "t";
}

default_levels_all : default_levels ≡ set_all some_levels true
unfolding default_levels from_bits set_all
default_levels_all = refl
