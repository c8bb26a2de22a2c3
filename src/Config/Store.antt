-- ===== src/Config/Store.antt =====
-- `Configuration` of include/Configuration.h, with its member functions of
-- source/Configuration.cpp. `std::map<int, Node, std::greater<int>>` is the list of its entries, the
-- highest priority first. The mutex makes each member function one step.
use dynalog.Base.{
  ℕ, Bool, true, false, List, [], ◌∷◌, ◌++◌, Option, none, some, ◌==◌, if◌then◌else◌, mem,
}
use dynalog.Base.Int.{ℤ, ltb_ℤ, eqb_ℤ}
use dynalog.Config.Sets.{LoggerSet, LoggerVector, insert, insert_all, erase, is_empty}
use dynalog.Config.Changes.{no_changes}
use dynalog.Config.Policy.{Policy, Heap}
use dynalog.Config.Node.{Node, adopt, rescan, update, assume}

pub record Entry : Type 0 where
  pub priority : ℤ
  pub node : Node

pub record Configuration : Type 0 where
  pub scratch : LoggerVector
  pub policies : List Entry

abbrev pub with_node : Entry → Node → Entry
with_node e n = record e { node = n }

-- An iterator into the map: the entries above it, its node, and the entries below it.
pub record Place : Type 0 where
  pub above : List Entry
  pub node : Node
  pub below : List Entry

-- `find( priority )`.
unfoldable pub find : ℤ → List Entry → Option Place
find priority [] = none
find priority (e ∷ es) =
    if eqb_ℤ e.priority priority
    then some (record { above = []; node = e.node; below = es })
    else elim (find priority es) [ none ↦ none | some p ↦ some (record p { above = e ∷ p.above }) ]

-- `emplace( priority, node )`: `none` where the key is there.
unfoldable pub emplace : ℤ → Node → List Entry → Option Place
emplace priority n [] = some (record { above = []; node = n; below = [] })
emplace priority n (e ∷ es) =
    if eqb_ℤ e.priority priority
    then none
    else if ltb_ℤ e.priority priority
    then some (record { above = []; node = n; below = e ∷ es })
    else elim (emplace priority n es) [
      | none ↦ none
      | some p ↦ some (record p { above = e ∷ p.above })
    ]

unfoldable pub rebuild : ℤ → Place → List Entry
rebuild priority p = p.above ++ record { priority = priority; node = p.node } ∷ p.below

module _ (store : ℕ → Policy) where
  -- The loop of `insert( logger )`: entries, what is left of the offer, scratch and loggers.
  unfoldable pub offer_loop :
      List Entry → LoggerSet → LoggerVector → Heap → List Entry × LoggerSet × LoggerVector × Heap
  offer_loop [] available scratch h = ([], available, scratch, h)
  offer_loop (e ∷ es) available scratch h =
      let (n, available', scratch') = adopt store e.node available scratch in
      let (es', left, scratch'', h') = offer_loop es available' scratch' h in
      if is_empty available'
      then (let (n', h'') = update store false n h in
          (with_node e n' ∷ es, available', scratch', h''))
      else (with_node e n ∷ es', left, scratch'', h')

  unfoldable pub insert_logger : ℕ → Configuration → Heap → Bool × Configuration × Heap
  insert_logger logger c h =
      let (es, left, scratch, h') = offer_loop c.policies (insert logger []) c.scratch h in
      (is_empty left, record { scratch = scratch; policies = es }, h')

  -- The loop of `remove( logger )`.
  unfoldable pub withdraw_loop : ℕ → List Entry → Heap → Bool × List Entry × Heap
  withdraw_loop logger [] h = (false, [], h)
  withdraw_loop logger (e ∷ es) h =
      let (result, es', h') = withdraw_loop logger es h in
      if mem logger e.node.changes.manage
      then (let changes = e.node.changes in
          let n = record (e.node) {
            changes = record changes {
              removed = insert logger changes.removed;
              manage = erase logger changes.manage;
            };
          } in
          let (n', h'') = update store false n h in (true, with_node e n' ∷ es, h''))
      else (result, e ∷ es', h')

  unfoldable pub remove_logger : ℕ → Configuration → Heap → Bool × Configuration × Heap
  remove_logger logger c h =
      let (result, es, h') = withdraw_loop logger c.policies h in
      (result, record c { policies = es }, h')

  -- `node.assume( iter->second, scratch )` over the entries below.
  unfoldable pub steal_loop : Node → List Entry → LoggerVector → Node × List Entry × LoggerVector
  steal_loop n [] scratch = (n, [], scratch)
  steal_loop n (e ∷ es) scratch =
      let (n', other, scratch') = assume store n e.node scratch in
      let (n'', es', scratch'') = steal_loop n' es scratch' in
      (n'', with_node e other ∷ es', scratch'')

  -- `iter->second.update()` over the entries below.
  unfoldable pub update_loop : List Entry → Heap → List Entry × Heap
  update_loop [] h = ([], h)
  update_loop (e ∷ es) h =
      let (n, h') = update store false e.node h in
      let (es', h'') = update_loop es h' in (with_node e n ∷ es', h'')

  -- What `insert( priority, policy )` does once the node has its place.
  unfoldable pub insert_at : ℤ → Place → LoggerVector → Heap → Configuration × Heap
  insert_at priority p scratch h =
      let (n, below, scratch') = steal_loop p.node p.below scratch in
      let (below', h') = update_loop below h in
      let (n', h'') = update store false n h' in
      (
        record {
          scratch = scratch';
          policies = rebuild priority (record { above = p.above; node = n'; below = below' });
        },
        h'',
      )

  unfoldable pub insert_policy : ℤ → ℕ → Configuration → Heap → Bool × Configuration × Heap
  insert_policy priority policy c h =
      elim (emplace priority (record { policy = policy; changes = no_changes }) c.policies) [
        | none ↦ (false, c, h)
        | some p ↦ let (c', h') = insert_at priority p c.scratch h in (true, c', h')
      ]

  -- `iter->second.assume( node, scratch )` over the entries below.
  unfoldable pub yield_loop : Node → List Entry → LoggerVector → Node × List Entry × LoggerVector
  yield_loop n [] scratch = (n, [], scratch)
  yield_loop n (e ∷ es) scratch =
      let (other, n', scratch') = assume store e.node n scratch in
      let (n'', es', scratch'') = yield_loop n' es scratch' in
      (n'', with_node e other ∷ es', scratch'')

  -- What `remove( priority, policy )` does once the policy is found.
  unfoldable pub remove_at : Place → LoggerVector → Heap → Configuration × Heap
  remove_at p scratch h =
      let (n, below, scratch') = yield_loop p.node p.below scratch in
      let changes = n.changes in
      let n' = record n {
        changes = record changes {
          removed = insert_all changes.manage changes.removed;
          manage = [];
        };
      } in
      let (n'', h') = update store false n' h in
      let (below', h'') = update_loop below h' in
      (record { scratch = scratch'; policies = p.above ++ below' }, h'')

  unfoldable pub remove_policy : ℤ → ℕ → Configuration → Heap → Bool × Configuration × Heap
  remove_policy priority policy c h = elim (find priority c.policies) [
    | none ↦ (false, c, h)
    | some p ↦
        if p.node.policy == policy
        then (let (c', h') = remove_at p c.scratch h in (true, c', h'))
        else (false, c, h)
  ]

  -- The scan of `rescan` over the entries below: each adopts orphans, then is stolen from.
  unfoldable pub scan_loop :
      Node → List Entry → LoggerSet → LoggerVector → Node × List Entry × LoggerVector
  scan_loop n [] orphans scratch = (n, [], scratch)
  scan_loop n (e ∷ es) orphans scratch =
      let (other, orphans', scratch') = adopt store e.node orphans scratch in
      let (n', other', scratch'') = assume store n other scratch' in
      let (n'', es', scratch3) = scan_loop n' es orphans' scratch'' in
      (n'', with_node e other' ∷ es', scratch3)

  -- What `rescan( priority )` does once the policy is found. `delayed` holds the inserts of the node
  -- while all are updated; a set that was moved from is taken to be empty.
  unfoldable pub rescan_at : ℤ → Place → LoggerVector → Heap → Configuration × Heap
  rescan_at priority p scratch h =
      let (n, scratch') = rescan store p.node scratch in
      let (n', below, scratch'') = scan_loop n p.below n.changes.removed scratch' in
      let changes = n'.changes in
      let delayed = changes.inserted in
      let (n1, h1) =
        update store false (record n' { changes = record changes { inserted = [] } }) h in
      let (below', h2) = update_loop below h1 in
      let changes1 = n1.changes in
      let (n2, h3) =
        update store true (record n1 { changes = record changes1 { inserted = delayed } }) h2 in
      (
        record {
          scratch = scratch'';
          policies = rebuild priority (record { above = p.above; node = n2; below = below' });
        },
        h3,
      )

  unfoldable pub rescan_policy : ℤ → Configuration → Heap → Bool × Configuration × Heap
  rescan_policy priority c h = elim (find priority c.policies) [
    | none ↦ (false, c, h)
    | some p ↦ let (c', h') = rescan_at priority p c.scratch h in (true, c', h')
  ]

  unfoldable pub update_policy : ℤ → Configuration → Heap → Bool × Configuration × Heap
  update_policy priority c h = elim (find priority c.policies) [
    | none ↦ (false, c, h)
    | some p ↦
        let (n, h') = update store true p.node h in
        (
          true,
          record c {
            policies = rebuild priority (record { above = p.above; node = n; below = p.below });
          },
          h',
        )
  ]
