-- ===== src/Async/Tests.antt =====
-- The theorems on concrete copies, tokens and workers.
use dynalog.Base.{
  replicate, ◌*◌, ℕ, suc, ◌<◌, ◌≡◌, refl, ◌∙◌, Bool, true, false, ◌||◌, List, [], ◌∷◌, ◌++◌, some,
  arith, length, map, replicate, leb, get_elem?, ◌==◌, if◌then◌else◌, Returns,
}
use dynalog.Ring.{create, emplace}
use dynalog.Ring.Holds.{create-Holds, emplace-Holds, capacity-emplace}
use dynalog.Ring.State.{capacity-create}
use dynalog.Latency.Writer.{Wake}
use dynalog.Latency.Loop.{Sound}
use dynalog.Latency.Create.{create_depo_lem}
use dynalog.Latency.Parts.{QueueCache, Depo, create_depo, Reader}
use dynalog.Latency.Holds.{Buffered, Drains}
use dynalog.Async.Replicated.{
  with_thread, with_thread_locked, from_tuple, from_tuple_recommended, from_generator, visit_all,
  effect, visit_all_lem, from_tuple_lem,
}
use dynalog.Util.{Tuple, Selects, apply_selected, all_indices}
use dynalog.Util.Tuples.{apply_selected-all_indices}
use dynalog.Async.Flush.{
  Flush, create_flush, pend, notify, token, copy_token, move_token, destroy_token, wait, Use,
  take_token, copy, move, destroy, perform, perform_all,
}
use dynalog.Async.FlushLaws.{holders, perform_all_lem}
use dynalog.Async.Dispatcher.{dispatch, Action, Dispatcher, handle, serve, work}
use dynalog.Async.DispatcherLaws.{action_of, dispatch-serve, serve-work}

abbrev copies : List ℕ
copies = 10 ∷ 20 ∷ 30 ∷ []

abbrev swap_in : ℕ → ℕ × ℕ
swap_in old = (old, 5)

-- Threads 7 and 4 use the second copy, and thread 0 the first.
abbrev visits : List (ℕ × (ℕ → ℕ × ℕ))
visits = (7, swap_in) ∷ (0, swap_in) ∷ (4, λ old. (old, 2 * old)) ∷ []

visit_all_lem_example :
    Returns (visit_all visits copies) (λ r.
      (length r.1 ≡ 3)
      × ((index : ℕ) (x : ℕ)
          → get_elem? copies index ≡ some x
          → get_elem? r.1 index ≡ some (effect 3 index visits x)))
    × ((thread : ℕ) (func : ℕ → ℕ × ℕ)
        → with_thread_locked thread func copies ≡ with_thread thread func copies)
visit_all_lem_example = visit_all_lem visits copies (omega arith)

-- A token, its copy, the move of the first, and the end of the copy.
abbrev uses : List Use
uses = take_token ∷ copy 0 ∷ move 0 ∷ destroy 1 ∷ []

abbrev left : Flush
left = record { pending = 1; tokens = false ∷ false ∷ true ∷ []; announced = 0 }

uses-left : perform_all uses create_flush ≡ some left
unfolding create_flush perform_all perform token copy_token move_token destroy_token pend notify
uses-left = refl

perform_all_lem_example :
    (left.pending ≡ holders left)
    × ((signalled : Bool) → wait signalled left ≡ (holders left == 0 || signalled))
    × ((index : ℕ)
        → get_elem? left.tokens index ≡ some true
        → Returns (destroy_token index left) (λ end_.
          end_.announced ≡ (if holders left == 1 then suc left.announced else left.announced)))
perform_all_lem_example = perform_all_lem uses left uses-left (omega arith)

abbrev dispatcher : Dispatcher ℕ
dispatcher = record {
  queue = record { latency = 0; caches = []; depos = []; readers_per_depo = 0 };
  timeout = 0;
  threads = [];
}

-- A reader with one action.
abbrev action : Action ℕ
action = record { emitter = 1; logger = 2; message = 3 }

abbrev reader : Reader (Action ℕ)
reader = record { occupied = true; drain = emplace (create 2) action; deadline = 0 }

reader-Drains : Drains 2 reader (action ∷ [])
reader-Drains =
    let v = create-Holds {A = Action ℕ} 2 (omega arith) in
    let at = capacity-create (Action ℕ) 2 in
    (
      emplace-Holds (create 2) [] action v (omega (arith, v.counted, at)),
      capacity-emplace (create 2) action ∙ at,
    )

serve-work_example :
    Returns
      (serve (replicate 1 false ++ true ∷ []) reader)
      (λ r. (r.0 ≡ leb 1 1) × (r.1 ≡ (1, 2, 3) ∷ []) × Drains 2 r.2 (map action_of []))
    × Returns
        (work 5 reader)
        (λ r. (r.0 ≡ true) × (r.1 ≡ []) × Drains 2 r.2 (map action_of ((1, 2, 3) ∷ [])))
serve-work_example = serve-work 2 1 5 [] reader ((1, 2, 3) ∷ []) reader-Drains

-- A cache and a depo without actions.
abbrev cache : QueueCache (Action ℕ)
cache = record { cache = create 2; tickets = create 8 }

abbrev depo : Depo (Action ℕ)
depo = create_depo 0 5 2 1 2 1

cache-Sound : Sound 2 2 cache depo
unfolding create_depo
cache-Sound = (
  [],
  [],
  [] ∷ [],
  (create-Holds 2 (omega arith), capacity-create (Action ℕ) 2),
  create_depo_lem 0 5 2 1 2 1 (omega arith) (omega arith),
  omega (arith, capacity-create ℕ 2),
)

abbrev times_out : List (Wake (Action ℕ))
times_out = record { woken = false; cache = cache; depo = depo } ∷ []

dispatch-serve_example : Returns (dispatch 3 0 times_out 1 2 3 cache depo) (λ r.
    r.0 ≡ false
    → (actions : List (Action ℕ)) × Buffered 2 r.1.cache (actions ++ action_of (1, 2, 3) ∷ [])
      × ((occupied : Bool) (deadline patience : ℕ) (stops : List Bool)
          → length actions < patience
          → let reader : Reader (Action ℕ) = record {
            occupied = occupied;
            drain = r.1.cache;
            deadline = deadline;
          } in
            Returns
              (serve (replicate patience false ++ true ∷ stops) reader)
              (λ s. s.1 ≡ map handle actions ++ (1, 2, 3) ∷ [])))
dispatch-serve_example =
    dispatch-serve 2 2 3 0 times_out 1 2 3 cache depo [] (omega arith) cache-Sound
      (create-Holds 8 (omega arith)) (cache-Sound, tt) (λ e. absurd (cc e)) (omega arith)

-- Type 0 is that of the numbers, and the others that of the truth values.
abbrev ValuesOf : ℕ → Type 0
ValuesOf type = if type == 0 then ℕ else Bool

-- The caches of a queue are made from a capacity; here a flag says whether to double it.
abbrev make_copy : Tuple ValuesOf (0 ∷ 1 ∷ []) → ℕ
make_copy args = if args.1.0 then 2 * args.0 else args.0

apply_selected-all_indices_example :
    (e : Selects (0 ∷ 1 ∷ []) (all_indices (0 ∷ 1 ∷ [])) (0 ∷ 1 ∷ [])) × ((value : Tuple ValuesOf
        (0 ∷ 1 ∷ []))
      → apply_selected ValuesOf
          (0 ∷ 1 ∷ [])
          (all_indices (0 ∷ 1 ∷ []))
          (0 ∷ 1 ∷ [])
          e
          value
          make_copy
        ≡ make_copy value)
apply_selected-all_indices_example = apply_selected-all_indices ValuesOf (0 ∷ 1 ∷ []) make_copy

from_tuple_lem_example :
    (e : Selects (0 ∷ 1 ∷ []) (all_indices (0 ∷ 1 ∷ [])) (0 ∷ 1 ∷ [])) × ((size concurrency : ℕ)
        (args : Tuple ValuesOf (0 ∷ 1 ∷ []))
      → (from_tuple ValuesOf (0 ∷ 1 ∷ []) e make_copy size args ≡ replicate size (make_copy args))
        × (from_tuple_recommended ValuesOf (0 ∷ 1 ∷ []) e make_copy concurrency args
            ≡ from_generator concurrency (λ index. make_copy args)))
from_tuple_lem_example = from_tuple_lem ValuesOf (0 ∷ 1 ∷ []) make_copy
