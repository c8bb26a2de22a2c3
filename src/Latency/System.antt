-- ===== src/Latency/System.antt =====
-- The threads of a `LatencyQueue` of include/async/LatencyQueue.h, a critical section at a time. A
-- lock that is held over several steps only rules interleavings out. `taken` and `delivered` record
-- the values that `insert` accepted and that readers passed on, the last ones first.
use dynalog.Base.{
  ℕ, ◌^◌, ◌<◌, ◌≡◌, Bool, true, false, List, [], ◌∷◌, Option, some, get_elem?, set, if◌then◌else◌,
}
use dynalog.Ring.{is_empty}
use dynalog.Latency.Parts.{QueueCache, Reader, Depo, LatencyQueue}
use dynalog.Latency.Writer.{
  Attempt, accepted, handed_over, must_wait, attempt, unwait, take_ticket, keep_ticket,
}
use dynalog.Latency.Reader.{
  with_readers, deliver, fetch, fall_asleep, rise, postpone, leave, collect_one,
}

pub record System {ℓ} (A : Type ℓ) : Type ℓ where
  pub caches : List (QueueCache A)
  pub depos : List (Depo A)
  pub taken : List A
  pub delivered : List A

abbrev pub is_accepted : Attempt → Bool
is_accepted accepted = true
is_accepted handed_over = false
is_accepted must_wait = false

module _ {ℓ} {A : Type ℓ} where
  abbrev pub start : LatencyQueue A → System A
  start q = record { caches = q.caches; depos = q.depos; taken = []; delivered = [] }

  abbrev pub with_cache : System A → ℕ → QueueCache A → System A
  with_cache s i c = record s { caches = set s.caches i c }

  abbrev pub with_depo : System A → ℕ → Depo A → System A
  with_depo s k d = record s { depos = set s.depos k d }

  -- A cache and a depo that a step uses.
  abbrev pub At : System A → ℕ → QueueCache A → ℕ → Depo A → Type ℓ
  At s i c k d = (get_elem? s.caches i ≡ some c) × (get_elem? s.depos k ≡ some d)

  -- A reader that a step uses.
  abbrev pub ReaderAt : System A → ℕ → Depo A → ℕ → Reader A → Type ℓ
  ReaderAt s k d head reader =
      (get_elem? s.depos k ≡ some d) × (get_elem? d.readers head ≡ some reader)

  pub data Step (s : System A) : System A → Type ℓ where
    -- `insert` takes a ticket, makes a round of its loop, gives up after a timeout, and ends.
    begin_insert :
        (i fresh ticket : ℕ) (c c' : QueueCache A)
        → get_elem? s.caches i ≡ some c
        → take_ticket fresh c ≡ some (ticket, c')
        → Step s (with_cache s i c')
    round :
        (i k ticket : ℕ) (value : A) (c : QueueCache A) (d : Depo A)
        (r : Attempt × QueueCache A × Depo A)
        → At s i c k d
        → d.waiting.capacity < 2 ^ 63
        → attempt value ticket c d ≡ some r
        → Step s (record (with_depo (with_cache s i r.1) k r.2) {
          taken = if is_accepted r.0 then value ∷ s.taken else s.taken;
        })
    give_up :
        (k ticket : ℕ) (d d' : Depo A)
        → get_elem? s.depos k ≡ some d
        → unwait ticket d ≡ some d'
        → Step s (with_depo s k d')
    end_insert :
        (i ticket : ℕ) (c : QueueCache A)
        → get_elem? s.caches i ≡ some c
        → Step s (with_cache s i (keep_ticket ticket c))
    -- `remove` occupies a reader, passes values on, fetches when its drain is used up, collects after
    -- a timeout, and leaves.
    occupy :
        (k head : ℕ) (d : Depo A) (reader : Reader A)
        → ReaderAt s k d head reader
        → reader.occupied ≡ false
        → Step s (with_depo s k (with_readers d head (record reader { occupied = true })))
    pass_on :
        (k head : ℕ) (d : Depo A) (reader : Reader A) (r : A × Reader A)
        → ReaderAt s k d head reader
        → is_empty reader.drain ≡ false
        → deliver reader ≡ some r
        → Step s
            (record (with_depo s k (with_readers d head r.1)) { delivered = r.0 ∷ s.delivered })
    get_more :
        (k head : ℕ) (d : Depo A) (reader : Reader A) (r : Option ℕ × Depo A)
        → ReaderAt s k d head reader
        → is_empty reader.drain ≡ true
        → fetch head d ≡ some r
        → Step s (with_depo s k r.1)
    sleep :
        (k : ℕ) (d : Depo A) → get_elem? s.depos k ≡ some d → Step s (with_depo s k (fall_asleep d))
    wake : (k : ℕ) (d : Depo A) → get_elem? s.depos k ≡ some d → Step s (with_depo s k (rise d))
    time_out :
        (k head latency : ℕ) (d : Depo A) (reader : Reader A)
        → ReaderAt s k d head reader
        → Step s (with_depo s k (with_readers d head (postpone latency reader)))
    visit :
        (i k : ℕ) (c : QueueCache A) (d : Depo A) (r : QueueCache A × Depo A)
        → At s i c k d
        → collect_one c d ≡ some r
        → Step s (with_depo (with_cache s i r.0) k r.1)
    vacate :
        (k head : ℕ) (d : Depo A) (reader : Reader A)
        → ReaderAt s k d head reader
        → Step s (with_depo s k (with_readers d head (leave reader)))

  pub data Reach (s : System A) : System A → Type ℓ where
    here : Reach s s
    next : {t u : System A} → Reach s t → Step t u → Reach s u
