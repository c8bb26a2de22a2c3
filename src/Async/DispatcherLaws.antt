-- ===== src/Async/DispatcherLaws.antt =====
-- What the threads of `Dispatcher` of source/async/Emitter.cpp do with messages.
use dynalog.Base.{
  ℕ, zero, suc, ◌+◌, ◌<◌, ◌≤◌, ◌≡◌, refl, ◌∙◌, ap, Bool, not, true, false, List, [], ◌∷◌, ◌++◌,
  arith, length, map, replicate, take, drop, leb, Returns, length-append, subst,
}
use dynalog.Ring.Holds.{Holds}
use dynalog.Latency.Writer.{Wake}
use dynalog.Latency.Loop.{Sound, AllSound, TimesOut, insert_lem}
use dynalog.Latency.Parts.{QueueCache, Depo, Reader}
use dynalog.Latency.Holds.{Buffered, Drains}
use dynalog.Latency.Drain.{drain_loop_lem}
use dynalog.Async.Dispatcher.{Action, defer, dispatch, handle, serve, work}

module _ {ℓ} {M : Type ℓ} where
  -- The action that is to call that emitter with that logger and message.
  abbrev pub action_of : ℕ × ℕ × M → Action M
  action_of (emitter, logger, message) = record {
    emitter = emitter;
    logger = logger;
    message = message;
  }

  map-handle :
      (n : ℕ) (calls : List (ℕ × ℕ × M)) → map handle (take n (map action_of calls)) ≡ take n calls
  map-handle zero [] = refl
  map-handle zero (c ∷ calls) = refl
  map-handle (suc n) [] = refl
  map-handle (suc n) (c ∷ calls) = ap (λ cs. c ∷ cs) (map-handle n calls)

  drop-map :
      (n : ℕ) (calls : List (ℕ × ℕ × M))
      → drop n (map action_of calls) ≡ map action_of (drop n calls)
  drop-map zero [] = refl
  drop-map zero (c ∷ calls) = refl
  drop-map (suc n) [] = refl
  drop-map (suc n) (c ∷ calls) = drop-map n calls

  length-actions : (calls : List (ℕ × ℕ × M)) → length (map action_of calls) ≡ length calls
  length-actions [] = refl
  length-actions (c ∷ calls) = ap suc (length-actions calls)

  -- The reader of a worker holds the actions for some calls. A pass of the inner loop of `remove`, in
  -- which `stop` reads false `patience` times and then true, makes that many of these calls, the oldest
  -- first, each of its emitter with its logger and message, or all of them if they are fewer, and
  -- keeps the actions for the others; it ends the loop exactly if there are at least `patience`. A pass
  -- of `work`, whose predicate is always true, ends the loop before it makes any, and keeps all.
  pub serve-work :
      (capacity patience rounds : ℕ) (stops : List Bool) (reader : Reader (Action M))
      (calls : List (ℕ × ℕ × M))
      → Drains capacity reader (map action_of calls)
      → Returns (serve (replicate patience false ++ true ∷ stops) reader) (λ r.
        (r.0 ≡ leb patience (length calls))
        × (r.1 ≡ take patience calls)
        × Drains capacity r.2 (map action_of (drop patience calls)))
        × Returns
            (work rounds reader)
            (λ r. (r.0 ≡ true) × (r.1 ≡ []) × Drains capacity r.2 (map action_of calls))
  unfolding serve work
  serve-work capacity patience rounds stops reader calls v =
      let actions = map action_of calls in
      let (r, e, h) = drain_loop_lem capacity patience stops reader actions v in
      let (t, f, k) = drain_loop_lem capacity 0 (replicate rounds true) reader actions v in
      (
        rw e (
          _,
          refl,
          (
            h.0 ∙ ap (leb patience) (length-actions calls),
            ap (map handle) h.1 ∙ map-handle patience calls,
            subst (Drains capacity r.2) (drop-map patience calls) h.2,
          ),
        ),
        rw f (_, refl, (k.0 ∙ ground arith, ap (map handle) k.1, k.2)),
      )

  map-append {κ} :
      {B : Type κ} (f : Action M → B) (xs ys : List (Action M))
      → map f (xs ++ ys) ≡ map f xs ++ map f ys
  map-append f [] ys = refl
  map-append f (x ∷ xs) ys = ap (λ zs. f x ∷ zs) (map-append f xs ys)

  take-actions : (n : ℕ) (xs : List (Action M)) → length xs ≤ n → take n xs ≡ xs
  take-actions zero [] h = refl
  take-actions zero (x ∷ xs) h = absurd (omega arith)
  take-actions (suc n) [] h = refl
  take-actions (suc n) (x ∷ xs) h = ap (λ ys. x ∷ ys) (take-actions n xs (omega arith))

  -- Where a reader has the buffer of the cache, the last call of a pass that comes to the end is that
  -- of the last action.
  last_call :
      (capacity patience : ℕ) (stops : List Bool) (reader : Reader (Action M))
      (actions : List (Action M)) (emitter logger : ℕ) (message : M)
      → Drains capacity reader (actions ++ defer emitter logger message ∷ [])
      → length actions < patience
      → Returns
          (serve (replicate patience false ++ true ∷ stops) reader)
          (λ s. s.1 ≡ map handle actions ++ (emitter, logger, message) ∷ [])
  unfolding serve
  last_call capacity patience stops reader actions emitter logger message v h =
      let all = actions ++ defer emitter logger message ∷ [] in
      let (r, e, k) = drain_loop_lem capacity patience stops reader all v in
      let l = length-append actions (defer emitter logger message ∷ []) in
      rw e (
        _,
        refl,
        ap (map handle) (k.1 ∙ take-actions patience all (omega (arith, h, l)))
            ∙ map-append handle actions (defer emitter logger message ∷ []),
      )

  -- Submitting a message for deferred processing by an emitter ends, after as many rounds as it waits
  -- and two more at most, on the conditions of `insert`. Where it does not warn, the cache holds some
  -- actions and one more at the end; and where a reader gets the buffer of that cache, a pass of its
  -- inner loop that is not stopped before it has made the calls for the other actions makes one more
  -- call at the end, of that emitter with that logger and message.
  pub dispatch-serve :
      (capacity n rounds fresh : ℕ) (waits : List (Wake (Action M))) (emitter logger : ℕ)
      (message : M) (c : QueueCache (Action M)) (d : Depo (Action M)) (ts : List ℕ)
      → 0 < capacity
      → Sound capacity n c d
      → Holds c.tickets ts
      → AllSound capacity n waits
      → TimesOut waits
      → 2 + length waits ≤ rounds
      → Returns (dispatch rounds fresh waits emitter logger message c d) (λ r.
        r.0 ≡ false
        → (actions : List (Action M)) × Buffered capacity r.1.cache
            (actions ++ action_of (emitter, logger, message) ∷ [])
          × ((occupied : Bool) (deadline patience : ℕ) (stops : List Bool)
              → length actions < patience
              → let reader : Reader (Action M) = record {
                occupied = occupied;
                drain = r.1.cache;
                deadline = deadline;
              } in
                Returns
                  (serve (replicate patience false ++ true ∷ stops) reader)
                  (λ s. s.1 ≡ map handle actions ++ (emitter, logger, message) ∷ [])))
  unfolding dispatch
  dispatch-serve capacity n rounds fresh waits emitter logger message c d ts p s k a t h =
      let action = defer emitter logger message in
      let (r, e, m) = insert_lem capacity n rounds fresh action waits c d ts p s k a t h in
      rw e (
        (not r.0, r.1, r.2),
        refl,
        λ q.
            let (actions, v) = m (not_false r.0 q) in
            (
              actions,
              v,
              λ occupied deadline patience stops u.
                  last_call capacity patience stops
                    (record { occupied = occupied; drain = r.1.cache; deadline = deadline }) actions
                    emitter logger message v u,
            ),
      )
    where
      not_false : (b : Bool) → not b ≡ false → b ≡ true
      not_false b e = ground (arith, e)
