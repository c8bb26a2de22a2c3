-- ===== src/Latency/Tests.antt =====
-- Concrete queues: the theorems at inputs that meet their hypotheses, and runs.
use dynalog.Base.{
  ℕ, ◌^◌, ◌<◌, ◌≡◌, refl, ◌∙◌, Bool, true, false, not, ◌&&◌, List, [], ◌∷◌, none, some, arith,
  length, get_elem?, ◌==◌, ltb, ◌%◌, ◌/◌, if◌then◌else◌, Returns, Each,
}
use dynalog.Ring.{create, emplace, is_empty}
use dynalog.Ring.Holds.{Holds, create-Holds, emplace-Holds, capacity-emplace}
use dynalog.Ring.State.{capacity-create}
use dynalog.Latency.Parts.{
  QueueCache, Reader, Depo, LatencyQueue, readers_loop, create_depo, create_queue,
}
use dynalog.Latency.Writer.{Wake, insert, attempt, unwait, take_ticket}
use dynalog.Latency.Reader.{slots, enter, deliver, fetch, collect_one, collect_indices, collect}
use dynalog.Latency.Holds.{Buffered, Vacant, DepoHolds}
use dynalog.Latency.Loop.{Sound, Inserted, insert_lem}
use dynalog.Latency.Indices.{enter_lem, occurrences, collect_indices_lem}
use dynalog.Latency.System.{System, start, Reach}
use dynalog.Latency.Abstract.{Stock, worth}
use dynalog.Latency.Books.{CacheHolds, StockHolds, SystemHolds}
use dynalog.Latency.Create.{create_depo_lem, places, conservation}
use dynalog.Latency.Faults.{Ends, no_fault}
use dynalog.Latency.Visits.{collect_lem}

-- A cache of one place, which is taken, and a depo with two spare buffers.
abbrev pub full_cache : QueueCache ℕ
full_cache = record { cache = emplace (create 1) 7; tickets = create 8 }

abbrev pub depo : Depo ℕ
depo = create_depo 0 5 1 1 2 1

pub full_cache-Buffered : Buffered 1 full_cache.cache (7 ∷ [])
full_cache-Buffered =
    let v = create-Holds {A = ℕ} 1 (omega arith) in
    let at = capacity-create ℕ 1 in
    (
      emplace-Holds (create 1) [] 7 v (omega (arith, v.counted, at)),
      capacity-emplace (create 1) 7 ∙ at,
    )

pub depo-Holds : DepoHolds 1 2 depo [] ([] ∷ [])
depo-Holds = create_depo_lem 0 5 1 1 2 1 (omega arith) (omega arith)

pub depo-waiting : Holds depo.waiting []
unfolding create_depo
depo-waiting = create-Holds 2 (omega arith)

pub depo_room : depo.waiting.capacity < 2 ^ 63
unfolding create_depo
depo_room = omega (arith, capacity-create ℕ 2)

-- The reader of the depo, whose drain is empty, at a depo with one ready buffer.
abbrev pub idle : Reader ℕ
idle = record { occupied = false; drain = create 1; deadline = 0 }

idle_there : get_elem? depo.readers 0 ≡ some idle
unfolding create_depo readers_loop
idle_there = refl

pub idle-Vacant : Vacant 1 idle.drain
idle-Vacant = (create-Holds 1 (omega arith), capacity-create ℕ 1)

abbrev queue : LatencyQueue ℕ
queue = record {
  latency = 5;
  caches = full_cache ∷ full_cache ∷ [];
  depos = depo ∷ [];
  readers_per_depo = 1;
}

one_reader : length depo.readers ≡ 1
unfolding create_depo readers_loop
one_reader = refl

enter_lem_example :
    (slots queue < 0 → enter 0 queue ≡ some (false, queue))
    × (0 < slots queue
        → (d : Depo ℕ) × (reader : Reader ℕ) × (get_elem? queue.depos (0 % length queue.depos)
            ≡ some d)
          × (get_elem? d.readers (0 / length queue.depos) ≡ some reader)
          × Returns (enter 0 queue) (λ r. r.0 ≡ not reader.occupied))
    × (0 ≡ slots queue → enter 0 queue ≡ none)
enter_lem_example = enter_lem 0 queue (omega arith) (one_reader, tt) (omega arith)

collect_indices_lem_example :
    (occurrences 4 (collect_indices 7 7 3 1) ≡ (if ltb 4 7 && (4 % 3 == 1) then 1 else 0))
    × (occurrences 4 (collect_indices 7 7 3 1) ≡ occurrences 4 (collect_indices 7 7 3 1))
collect_indices_lem_example =
    collect_indices_lem 7 3 1 7 (omega arith) (omega arith) (omega arith) 4

pub queue-caches : Each (CacheHolds 1) queue.caches ((7 ∷ []) ∷ (7 ∷ []) ∷ [])
queue-caches = (held, (held, tt))
  where
    held : CacheHolds 1 full_cache (7 ∷ [])
    held = (full_cache-Buffered, [], create-Holds 8 (omega arith))

pub queue-depos : Each (StockHolds 1 2) queue.depos (([], [] ∷ []) ∷ [])
queue-depos = (depo-Holds, tt)

collect_lem_example : Returns (collect 0 queue) (λ r.
    (xs : List (List ℕ)) × (zs : List (Stock ℕ)) × Each (CacheHolds 1) r.caches xs
    × Each (StockHolds 1 2) r.depos zs
    × ((p : ℕ → Bool) → worth p xs zs ≡ worth p ((7 ∷ []) ∷ (7 ∷ []) ∷ []) (([], [] ∷ []) ∷ [])))
collect_lem_example =
    collect_lem 1 2 0 queue ((7 ∷ []) ∷ (7 ∷ []) ∷ []) (([], [] ∷ []) ∷ []) queue-caches queue-depos
      (omega arith)

conservation_example :
    Returns
      (create_queue {A = ℕ} 4 0 0 5 128 4 1 1)
      (λ q. (t : System ℕ) → Reach (start q) t → SystemHolds 128 (places 4 1 4) t)
conservation_example = conservation 4 0 0 5 128 4 1 1 (omega arith) (omega arith) (omega arith)

abbrev pub system : System ℕ
system = record { caches = queue.caches; depos = queue.depos; taken = 7 ∷ 7 ∷ []; delivered = [] }

system-Holds : SystemHolds 1 2 system
system-Holds = record {
  in_caches = (7 ∷ []) ∷ (7 ∷ []) ∷ [];
  in_depos = ([], [] ∷ []) ∷ [];
  cached = queue-caches;
  stocked = queue-depos;
  conserved = λ p. ground arith;
}

no_fault_example :
    Ends (take_ticket 3 full_cache)
    × Ends (attempt 8 3 full_cache depo)
    × Ends (unwait 3 depo)
    × Ends (collect_one full_cache depo)
    × (is_empty idle.drain ≡ true → Ends (fetch 0 depo))
    × (is_empty idle.drain ≡ false → Ends (deliver idle))
no_fault_example =
    no_fault 1 2 system system-Holds 0 0 0 3 8 full_cache depo idle (refl, refl) idle_there
      depo_room

-- The cache stays full, and the one wait times out.
abbrev gives_up : List (Wake ℕ)
gives_up = record { woken = false; cache = full_cache; depo = depo } ∷ []

full_cache-Sound : Sound 1 2 full_cache depo
full_cache-Sound = (7 ∷ [], [], [] ∷ [], full_cache-Buffered, depo-Holds, depo_room)

insert_lem_example : Returns (insert 3 0 8 gives_up full_cache depo) (Inserted 1 8)
insert_lem_example =
    insert_lem 1 2 3 0 8 gives_up full_cache depo [] (omega arith) full_cache-Sound
      (create-Holds 8 (omega arith)) (full_cache-Sound, tt) (λ e. absurd (cc e)) (omega arith)
