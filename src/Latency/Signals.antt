-- ===== src/Latency/Signals.antt =====
-- `Ticket` of include/async/LatencyQueue.h: how a call of `insert` that waits is woken up. The tickets
-- are numbers, and their flags, the wake-ups that readers owe and the calls that wait are a state next
-- to that of the queue.
use dynalog.Base.{
  ℕ, ◌≡◌, Bool, true, false, not, List, [], ◌∷◌, Option, none, some, mem, keep, ◌==◌, if◌then◌else◌,
}
use dynalog.Ring.{is_empty, is_full}
use dynalog.Latency.Writer.{Attempt, accepted, handed_over, must_wait}
use dynalog.Latency.System.{System, Step, begin_insert, round, give_up, end_insert, get_more}

-- `ready` of each ticket; the tickets that a reader took out of `waiting` and is to wake; and those of
-- the calls that are in `Ticket::wait`.
pub record Signals : Type 0 where
  pub ready : ℕ → Bool
  pub owed : List ℕ
  pub blocked : List ℕ

abbrev pub without : ℕ → List ℕ → List ℕ
without ticket = keep (λ other. not (ticket == other))

abbrev pub remove_one : ℕ → List ℕ → List ℕ
remove_one ticket [] = []
remove_one ticket (other ∷ rest) = if other == ticket then rest else other ∷ remove_one ticket rest

-- `ready.store( true )` of `Ticket::wake`, and `ready.store( false )` of `Ticket::reset`.
abbrev pub wake_ticket : ℕ → Signals → Signals
wake_ticket ticket g = record g { ready = λ t. if t == ticket then true else g.ready t }

abbrev pub reset_ticket : ℕ → Signals → Signals
reset_ticket ticket g = record g { ready = λ t. if t == ticket then false else g.ready t }

-- What `Ticket::wait` returns, if it ends: whether it is ready then.
unfoldable pub end_wait : ℕ → Bool → Signals → Option Bool
end_wait ticket timed_out g =
    if g.ready ticket then some true else if timed_out then some false else none

-- What a round of `insert` comes to.
abbrev pub after_round : ℕ → Attempt → Signals → Signals
after_round ticket accepted g = g
after_round ticket handed_over g = g
after_round ticket must_wait g = record g { blocked = ticket ∷ g.blocked }

-- What a fetch by a reader comes to.
abbrev pub after_fetch : Option ℕ → Signals → Signals
after_fetch none g = g
after_fetch (some ticket) g = record g { owed = ticket ∷ g.owed }

module _ {ℓ} {A : Type ℓ} where
  -- What a step of the queue does to the signals.
  abbrev pub signal : (s t : System A) → Step s t → Signals → Signals
  signal s t (begin_insert i fresh ticket c c' e f) g =
      if is_empty c.tickets then reset_ticket ticket g else g
  signal s t (round i k ticket value c d r e b f) g = after_round ticket r.0 g
  signal s t (give_up k ticket d d' e f) g = record g { blocked = without ticket g.blocked }
  signal s t (end_insert i ticket c e) g = if is_full c.tickets then g else reset_ticket ticket g
  signal s t (get_more k head d reader r e f h) g = after_fetch r.0 g
  signal s t step g = g

  -- A call has a ticket of its own, does nothing while it waits, and gives up after it timed out.
  abbrev pub Permitted : (s t : System A) → Step s t → Signals → Type 0
  Permitted s t (begin_insert i fresh ticket c c' e f) g = mem ticket g.blocked ≡ false
  Permitted s t (round i k ticket value c d r e b f) g = mem ticket g.blocked ≡ false
  Permitted s t (give_up k ticket d d' e f) g =
      (mem ticket g.blocked ≡ true) × (end_wait ticket true g ≡ some false)
  Permitted s t (end_insert i ticket c e) g = mem ticket g.blocked ≡ false
  Permitted s t step g = Unit

  -- A step of the queue with its signals; a wake-up that was owed; or the end of a wait, after which
  -- the ticket is reset.
  pub data Signalled (s : System A) (g : Signals) : System A → Signals → Type ℓ where
    acts :
        (t : System A) (step : Step s t)
        → Permitted s t step g
        → Signalled s g t (signal s t step g)
    wakes :
        (ticket : ℕ)
        → mem ticket g.owed ≡ true
        → Signalled s g s (wake_ticket ticket (record g { owed = remove_one ticket g.owed }))
    resumes :
        (ticket : ℕ) (timed_out : Bool)
        → mem ticket g.blocked ≡ true
        → end_wait ticket timed_out g ≡ some true
        → Signalled s g s (reset_ticket ticket (record g { blocked = without ticket g.blocked }))

  pub data Signalling (s : System A) (g : Signals) : System A → Signals → Type ℓ where
    still : Signalling s g s g
    then_ :
        {t u : System A} {g' g'' : Signals}
        → Signalling s g t g'
        → Signalled t g' u g''
        → Signalling s g u g''

-- No call has started.
abbrev pub silent : Signals
silent = record { ready = λ t. false; owed = []; blocked = [] }
