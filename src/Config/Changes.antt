-- ===== src/Config/Changes.antt =====
-- `Configuration::ChangeSet` of include/Configuration.h.
use dynalog.Base.{ℕ, ◌≡◌, Bool, not, ◌||◌, List, [], mem}
use dynalog.Config.Sets.{LoggerSet, insert_all, erase_all, is_empty, membership}

pub record ChangeSet : Type 0 where
  pub inserted : LoggerSet
  pub removed : LoggerSet
  pub manage : LoggerSet

abbrev pub no_changes : ChangeSet
no_changes = record { inserted = []; removed = []; manage = [] }

unfoldable pub apply : ChangeSet → ChangeSet
apply c = record { inserted = []; removed = []; manage = insert_all c.inserted c.manage }

pub reset : ChangeSet → ChangeSet
reset c = record { inserted = []; removed = []; manage = insert_all c.removed c.manage }

unfoldable pub pending : ChangeSet → Bool
pending c = not (is_empty c.removed) || not (is_empty c.inserted)

-- `update( Insert, loggers )` and `update( Remove, loggers )`.
unfoldable pub update_insert : List ℕ → ChangeSet → ChangeSet
update_insert loggers c = record c { inserted = insert_all loggers c.inserted }

unfoldable pub update_remove : List ℕ → ChangeSet → ChangeSet
update_remove loggers c = record c {
  removed = insert_all loggers c.removed;
  manage = erase_all loggers c.manage;
}

-- Taking pending removals back restores what was managed.
pub reset-update_remove :
    (loggers : List ℕ) (c : ChangeSet) (k : ℕ)
    → c.removed ≡ []
    → mem k (reset (update_remove loggers c)).manage ≡ (mem k loggers || mem k c.manage)
unfolding reset update_remove
reset-update_remove loggers c k e = rw e (grind membership)
