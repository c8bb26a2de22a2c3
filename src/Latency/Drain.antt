-- ===== src/Latency/Drain.antt =====
-- The inner loop of `remove` of include/async/LatencyQueue.h.
use dynalog.Base.{
  ℕ, zero, suc, ◌≡◌, refl, ◌∙◌, ap, Bool, true, false, List, [], ◌∷◌, ◌++◌, arith, length,
  replicate, take, drop, leb, Returns,
}
use dynalog.Ring.State.{is_empty-Holds}
use dynalog.Ring.{is_empty}
use dynalog.Latency.Parts.{Reader}
use dynalog.Latency.Reader.{drain_loop}
use dynalog.Latency.Holds.{Drains}
use dynalog.Latency.Collect.{deliver_lem}

module _ {ℓ} {A : Type ℓ} where
  -- Where `pred` says no `patience` times and then yes, a reader passes on that many values, the oldest
  -- first, or all that it has if these are fewer, and keeps the others, in their order; `pred` ended
  -- the loop exactly if there were at least `patience` values.
  pub drain_loop_lem :
      (capacity patience : ℕ) (answers : List Bool) (reader : Reader A) (xs : List A)
      → Drains capacity reader xs
      → Returns (drain_loop (replicate patience false ++ true ∷ answers) reader) (λ r.
        (r.0 ≡ leb patience (length xs))
        × (r.1 ≡ take patience xs)
        × Drains capacity r.2 (drop patience xs)
        × (r.2.occupied ≡ reader.occupied))
  unfolding drain_loop
  drain_loop_lem capacity zero answers reader [] v = (_, refl, (refl, refl, v, refl))
  drain_loop_lem capacity zero answers reader (x ∷ xs) v = (_, refl, (ground arith, refl, v, refl))
  drain_loop_lem capacity (suc patience) answers reader [] v =
      let e : is_empty reader.drain ≡ true = is_empty-Holds reader.drain [] v.0 in
      rw e (_, refl, (ground arith, refl, v, refl))
  drain_loop_lem capacity (suc patience) answers reader (x ∷ xs) v =
      let e : is_empty reader.drain ≡ false =
        ground (arith, is_empty-Holds reader.drain (x ∷ xs) v.0) in
      let (r, q, h) = deliver_lem capacity reader x xs v in
      let (t, p, k) = drain_loop_lem capacity patience answers r.1 xs h.1 in
      rw (e, q, p)
        (
          _,
          refl,
          (k.0 ∙ ground arith, ap (λ y. y ∷ t.1) h.0 ∙ ap (λ ys. x ∷ ys) k.1, k.2, k.3 ∙ h.2),
        )
