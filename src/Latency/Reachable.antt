-- ===== src/Latency/Reachable.antt =====
-- `LatencyQueue` of include/async/LatencyQueue.h under all interleavings of its critical sections.
use dynalog.Base.{Bool, true, refl, ℕ, sym, subst, List, inl, inr}
use dynalog.Latency.System.{
  System, Step, begin_insert, round, give_up, end_insert, occupy, pass_on, get_more, sleep, wake,
  time_out, visit, vacate, Reach, here, next,
}
use dynalog.Latency.Abstract.{Stock, Conserved, Move-Conserved}
use dynalog.Latency.Books.{SystemHolds, contents}
use dynalog.Latency.Follows.{Allowed, Follows}
use dynalog.Latency.Simulation.{simulation}

module _ {ℓ} {A : Type ℓ} where
  abbrev anything : ℕ → A → Bool
  anything i value = true

  anything_lem : (s t : System A) (step : Step s t) → Allowed anything s t step
  anything_lem s t (begin_insert i fresh ticket c c' g e) = tt
  anything_lem s t (round i k ticket value c d r g b e) = refl
  anything_lem s t (give_up k ticket d d' g e) = tt
  anything_lem s t (end_insert i ticket c g) = tt
  anything_lem s t (occupy k head d reader g f) = tt
  anything_lem s t (pass_on k head d reader r g f e) = tt
  anything_lem s t (get_more k head d reader r g f e) = tt
  anything_lem s t (sleep k d g) = tt
  anything_lem s t (wake k d g) = tt
  anything_lem s t (time_out k head latency d reader g) = tt
  anything_lem s t (visit i k c d r g e) = tt
  anything_lem s t (vacate k head d reader g) = tt

  module _ (capacity n : ℕ) where
    following :
        (s t : System A) (cs : List (List A)) (ds : List (Stock A))
        → Conserved (contents s cs ds)
        → Follows anything capacity n s cs ds t
        → SystemHolds capacity n t
    following s t cs ds h (cs', ds', w, inl e) = record {
      in_caches = cs';
      in_depos = ds';
      cached = w.cached;
      stocked = w.stocked;
      conserved = subst Conserved (sym e) h;
    }
    following s t cs ds h (cs', ds', w, inr m) = record {
      in_caches = cs';
      in_depos = ds';
      cached = w.cached;
      stocked = w.stocked;
      conserved = Move-Conserved anything capacity n (contents s cs ds) (contents t cs' ds') h m;
    }

    -- A run from a state where nothing was inserted yet accounts for each value, in any interleaving.
    pub Reach-SystemHolds :
        (s t : System A) → SystemHolds capacity n s → Reach s t → SystemHolds capacity n t
    Reach-SystemHolds s t w here = w
    Reach-SystemHolds s t w (next {t = u} run step) =
        let v = Reach-SystemHolds s u w run in
        following u t v.in_caches v.in_depos v.conserved (
          simulation anything capacity n u t v.in_caches v.in_depos step (anything_lem u t step)
            (record { cached = v.cached; stocked = v.stocked }))
