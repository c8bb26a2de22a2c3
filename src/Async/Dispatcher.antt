-- ===== src/Async/Dispatcher.antt =====
-- `Dispatcher` and `DeferredEmitter` of include/async/Emitter.h and source/async/Emitter.cpp. Emitters and
-- loggers are numbers. What emitters are called with is a list, in the order of the calls.
use dynalog.Base.{
  ℕ, zero, suc, Bool, not, true, false, List, [], ◌∷◌, Option, some, length, map, replicate, ◌==◌,
  if◌then◌else◌, ◌>>=◌,
}
use dynalog.Latency.Writer.{Wake, insert}
use dynalog.Latency.Parts.{QueueCache, Depo, Reader, LatencyQueue, create_queue}
use dynalog.Latency.Reader.{slots, drain_loop}

module _ {ℓ} (M : Type ℓ) where
  pub record Action : Type ℓ where
    pub emitter : ℕ
    pub logger : ℕ
    pub message : M

pub record Worker : Type 0 where
  pub stop : Bool
  pub index : ℕ

module _ {ℓ} (M : Type ℓ) where
  pub record Dispatcher : Type ℓ where
    pub queue : LatencyQueue (Action M)
    pub timeout : ℕ
    pub threads : List Worker

-- The loop of `run`: the rounds left, and the index.
unfoldable pub spawn_loop : ℕ → ℕ → List Worker
spawn_loop zero index = []
spawn_loop (suc rounds) index =
    record { stop = false; index = index } ∷ spawn_loop rounds (suc index)

-- `~Worker`, before it joins the thread.
abbrev pub stop_worker : Worker → Worker
stop_worker worker = record worker { stop = true }

module _ {ℓ} {M : Type ℓ} where
  -- The constructor: the scale of the queue is 4.
  abbrev pub create_dispatcher : ℕ → ℕ → ℕ → ℕ → ℕ → ℕ → ℕ → ℕ → Option (Dispatcher M)
  create_dispatcher n_caches stale now latency timeout capacity heads partitions = do
    queue ← create_queue n_caches stale now latency capacity 4 heads partitions
    some (record { queue = queue; timeout = timeout; threads = [] })

  -- `DeferredEmitter::emit`: the action that it inserts for its emitter.
  abbrev pub defer : ℕ → ℕ → M → Action M
  defer emitter logger message = record { emitter = emitter; logger = logger; message = message }

  -- `Dispatcher::insert`, on the cache and the depo that the thread uses: whether it warns that the
  -- message is dropped. The first arguments are those of the loop of `insert`.
  unfoldable pub dispatch :
      ℕ
      → ℕ
      → List (Wake (Action M))
      → ℕ
      → ℕ
      → M
      → QueueCache (Action M)
      → Depo (Action M)
      → Option (Bool × QueueCache (Action M) × Depo (Action M))
  dispatch rounds fresh waits emitter logger message c depo = do
    (success, c', depo') ← insert rounds fresh (defer emitter logger message) waits c depo
    some (not success, c', depo')

  -- The handler of an action: the call of its emitter.
  abbrev pub handle : Action M → ℕ × ℕ × M
  handle action = (action.emitter, action.logger, action.message)

  -- A pass of the inner loop of `remove` for a worker's thread, where `stops` is what its `stop` reads
  -- as: whether it ended, the calls of emitters, and the reader.
  unfoldable pub serve :
      List Bool → Reader (Action M) → Option (Bool × List (ℕ × ℕ × M) × Reader (Action M))
  serve stops reader = do
    (finished, actions, reader') ← drain_loop stops reader
    some (finished, map handle actions, reader')

  -- `work`, whose predicate is always true.
  unfoldable pub work : ℕ → Reader (Action M) → Option (Bool × List (ℕ × ℕ × M) × Reader (Action M))
  work calls reader = serve (replicate (suc calls) true) reader

  unfoldable pub run : Dispatcher M → Dispatcher M
  run dispatcher =
      if length dispatcher.threads == 0
      then record dispatcher { threads = spawn_loop (slots dispatcher.queue) 0 }
      else dispatcher
