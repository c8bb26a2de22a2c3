-- ===== src/Config/Policy.antt =====
-- The interface `Configuration::Policy` of include/Configuration.h, with what `Configuration` relies
-- on: `match` appends the loggers of the set that the policy selects, and `update` writes the
-- policy's settings to the loggers to insert and to the managed ones, and to no other.
use dynalog.Base.{ℕ, ◌≡◌, Bool, ◌&&◌, ◌||◌, mem, if◌then◌else◌}
use dynalog.Levels.{Logger}
use dynalog.Config.Sets.{LoggerSet, LoggerVector}
use dynalog.Config.Changes.{ChangeSet}

-- The loggers, by their numbers.
abbrev pub Heap : Type 0
Heap = ℕ → Logger

pub record Policy : Type 0 where
  pub matches : LoggerSet → LoggerVector → LoggerVector
  pub update : ChangeSet → Heap → Heap
  pub selects : ℕ → Bool
  pub settings : Logger → Logger
  pub mem-matches :
      (set : LoggerSet) (found : LoggerVector) (k : ℕ)
      → mem k (matches set found) ≡ (mem k found || (mem k set && selects k))
  pub update_lem :
      (c : ChangeSet) (h : Heap) (k : ℕ)
      → update c h k ≡ (if mem k c.inserted || mem k c.manage then settings (h k) else h k)
  pub settings-settings : (l : Logger) → settings (settings l) ≡ settings l
