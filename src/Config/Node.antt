-- ===== src/Config/Node.antt =====
-- `Configuration::Node` of include/Configuration.h, with its member functions of
-- source/Configuration.cpp. A node's policy is a pointer, that is a number; `store` gives the policy
-- it points to. The scratch vector is passed through: each function ends with `scratch.clear()`.
use dynalog.Base.{ℕ, Bool, ◌||◌, [], if◌then◌else◌}
use dynalog.Config.Sets.{LoggerSet, LoggerVector, insert_all, erase_all}
use dynalog.Config.Changes.{ChangeSet, apply, pending, update_insert, update_remove}
use dynalog.Config.Policy.{Policy, Heap}

pub record Node : Type 0 where
  pub policy : ℕ
  pub changes : ChangeSet

module _ (store : ℕ → Policy) where
  -- The node, what is left of the offer, and the scratch vector.
  unfoldable pub adopt : Node → LoggerSet → LoggerVector → Node × LoggerSet × LoggerVector
  adopt n set scratch =
      let found = (store n.policy).matches set scratch in
      (record n { changes = update_insert found n.changes }, erase_all found set, [])

  -- `std::swap( changes.manage, changes.remove )`, then the matches go back to `manage`.
  unfoldable pub rescan : Node → LoggerVector → Node × LoggerVector
  rescan n scratch =
      let found = (store n.policy).matches n.changes.manage scratch in
      (
        record n {
          changes = record {
            inserted = n.changes.inserted;
            removed = erase_all found n.changes.manage;
            manage = insert_all found n.changes.removed;
          };
        },
        [],
      )

  unfoldable pub update : Bool → Node → Heap → Node × Heap
  update force n h =
      if pending n.changes || force
      then (record n { changes = apply n.changes }, (store n.policy).update n.changes h)
      else (n, h)

  -- The node, the other node, and the scratch vector.
  unfoldable pub assume : Node → Node → LoggerVector → Node × Node × LoggerVector
  assume n other scratch =
      let found = (store n.policy).matches other.changes.manage scratch in
      (
        record n { changes = update_insert found n.changes },
        record other { changes = update_remove found other.changes },
        [],
      )
