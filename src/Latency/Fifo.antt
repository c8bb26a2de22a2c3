-- ===== src/Latency/Fifo.antt =====
-- Runs of a queue of include/async/LatencyQueue.h with one depo and one reader, as a dispatcher of
-- include/async/Emitter.h makes it.
use dynalog.Base.{
  concat, get_elem?-replicate, ℕ, ◌<◌, ◌^◌, ◌≡◌, refl, sym, ◌∙◌, ap, subst, List, [], ◌∷◌, ◌++◌,
  append_assoc, arith, length-set, length-replicate, length, replicate, ◌==◌, All, Returns, inl,
  inr,
}
use dynalog.Latency.Parts.{create_queue}
use dynalog.Latency.System.{System, start, Reach, here, next}
use dynalog.Latency.Abstract.{Stock, Contents, Move, accept, hand_on, take_up, hand_out}
use dynalog.Latency.Books.{Represents, contents}
use dynalog.Latency.Follows.{Allowed, Follows}
use dynalog.Latency.Simulation.{simulation}
use dynalog.Latency.Indices.{get_elem?-in}
use dynalog.Latency.Create.{places, create_queue-Represents}
use dynalog.Latency.Order.{oldest_first, mine, mine-last, Ordered, Move-Ordered}

module _ {ℓ} {A : Type ℓ} (from : A → ℕ) where
  length-Move :
      (capacity n : ℕ) (a b : Contents A)
      → Move (λ i value. from value == i) capacity n a b
      → length b.caches ≡ length a.caches
  length-Move capacity n a b (accept i xs value g l u) = length-set a.caches i _
  length-Move capacity n a b (hand_on i k xs y g f l) = length-set a.caches i []
  length-Move capacity n a b (take_up k head xs rs ds g f) = refl
  length-Move capacity n a b (hand_out k head x xs rs ds g f) = refl

  -- The values that a run inserts come to the caches that they name.
  abbrev pub Sourced : (s t : System A) → Reach s t → Type 0
  Sourced s t here = Unit
  Sourced s t (next {t = u} run step) =
      Sourced s u run × Allowed (λ i value. from value == i) u t step

  -- What is known of a state, next to the values that it holds.
  abbrev InOrder : ℕ → ℕ → ℕ → System A → Type ℓ
  InOrder capacity n n_caches s =
      (cs : List (List A)) × (ds : List (Stock A)) × Represents capacity n s cs ds
      × Ordered from (contents s cs ds)
      × (length cs ≡ n_caches)

  followed :
      (capacity n n_caches : ℕ) (s t : System A) (cs : List (List A)) (ds : List (Stock A))
      → Ordered from (contents s cs ds)
      → length cs ≡ n_caches
      → Follows (λ i value. from value == i) capacity n s cs ds t
      → InOrder capacity n n_caches t
  followed capacity n n_caches s t cs ds w l (cs', ds', v, inl e) =
      (cs', ds', v, subst (Ordered from) (sym e) w, ap (λ c. length (Contents.caches c)) e ∙ l)
  followed capacity n n_caches s t cs ds w l (cs', ds', v, inr m) = (
    cs',
    ds',
    v,
    Move-Ordered from capacity n (contents s cs ds) (contents t cs' ds') w m,
    length-Move capacity n (contents s cs ds) (contents t cs' ds') m ∙ l,
  )

  Reach-InOrder :
      (capacity n n_caches : ℕ) (s t : System A) (run : Reach s t)
      → InOrder capacity n n_caches s
      → Sourced s t run
      → InOrder capacity n n_caches t
  Reach-InOrder capacity n n_caches s t here w u = w
  Reach-InOrder capacity n n_caches s t (next {t = z} run step) w (us, u) =
      let (cs, ds, v, o, l) = Reach-InOrder capacity n n_caches s z run w us in
      followed capacity n n_caches z t cs ds o l
        (simulation (λ i value. from value == i) capacity n z t cs ds step u v)

  -- A new queue with one depo and one reader, a capacity below 2 ^ 64 and a place for a ready
  -- buffer at least, and any number of threads, in any interleaving, where each value is inserted
  -- into the cache that `from` says: the values of a cache that were passed on are the first ones
  -- that `insert` accepted there, in the order in which it accepted them.
  pub fifo :
      (n_caches stale now abs_latency capacity scale : ℕ)
      → capacity < 2 ^ 64
      → 0 < places n_caches 1 scale
      → Returns (create_queue {A = A} n_caches stale now abs_latency capacity scale 1 1) (λ q.
        (t : System A) (run : Reach (start q) t)
        → Sourced (start q) t run
        → (i : ℕ) → i < n_caches
        → (left : List A) × (mine from i (oldest_first t.taken)
            ≡ mine from i (oldest_first t.delivered) ++ left))
  fifo n_caches stale now abs_latency capacity scale b p =
      let (q, e, h) =
        create_queue-Represents n_caches stale now abs_latency capacity scale 1 1 b (omega arith)
          p in
      let none_yet : Ordered from
          (contents (start q) (replicate n_caches []) (([], [] ∷ []) ∷ [])) =
        record {
          ready = [];
          drain = [];
          alone = refl;
          own = λ i xs g.
              subst (All (λ x. from x ≡ i)) (sym (get_elem?-replicate n_caches i xs [] g)) tt;
          order = λ i xs g. sym (get_elem?-replicate n_caches i xs [] g);
        } in
      (
        q,
        e,
        λ t run u i l.
            let (cs, ds, v, o, k) =
              Reach-InOrder capacity (places n_caches 1 scale) n_caches (start q) t run
                (_, _, h, none_yet, length-replicate n_caches []) u in
            let (xs, g) = get_elem?-in cs i (omega (arith, k, l)) in
            (
              mine from i (o.drain ++ concat o.ready) ++ xs,
              o.order i xs g
                  ∙ ap (λ z. z ++ xs)
                      (mine-last from i (oldest_first t.delivered) (o.drain ++ concat o.ready))
                  ∙ append_assoc (mine from i (oldest_first t.delivered))
                      (mine from i (o.drain ++ concat o.ready)) xs,
            ),
      )
