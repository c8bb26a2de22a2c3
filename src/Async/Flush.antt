-- ===== src/Async/Flush.antt =====
-- `Flush` of include/async/Flush.h and source/async/Flush.cpp: one `FlushImpl`, with all the tokens that
-- were made for it. `pending` is an `int` with 32 bits, kept modulo 2 ^ 32. Use of a token that was moved
-- from is undefined behaviour where it follows the pointer, which is `none`.
use dynalog.Base.{
  ℕ, suc, ◌+◌, ◌-◌, ◌%◌, ◌^◌, Bool, true, false, ◌||◌, List, [], ◌∷◌, ◌++◌, Option, none, some,
  get_elem?, set, ◌==◌, if◌then◌else◌, ◌>>=◌,
}

-- `tokens` says of each token whether it holds the flush; `announced` counts the calls of `notify_all`.
pub record Flush : Type 0 where
  pub pending : ℕ
  pub tokens : List Bool
  pub announced : ℕ

unfoldable pub create_flush : Flush
create_flush = record { pending = 0; tokens = []; announced = 0 }

unfoldable pub pend : Flush → Flush
pend flush = record flush { pending = (flush.pending + 1) % 2 ^ 32 }

unfoldable pub notify : Flush → Flush
notify flush = record flush {
  pending = (flush.pending + 2 ^ 32 - 1) % 2 ^ 32;
  announced = if flush.pending == 1 then suc flush.announced else flush.announced;
}

abbrev pub add_token : Bool → Flush → Flush
add_token holds flush = record flush { tokens = flush.tokens ++ holds ∷ [] }

-- `Flush::token`, which constructs a token.
unfoldable pub token : Flush → Flush
token flush = add_token true (pend flush)

-- The copy of a token, its move, and its destructor.
unfoldable pub copy_token : ℕ → Flush → Option Flush
copy_token index flush = do
  holds ← get_elem? flush.tokens index
  if holds then some (add_token true (pend flush)) else none

unfoldable pub move_token : ℕ → Flush → Option Flush
move_token index flush = do
  holds ← get_elem? flush.tokens index
  some (add_token holds (record flush { tokens = set flush.tokens index false }))

unfoldable pub destroy_token : ℕ → Flush → Option Flush
destroy_token index flush = do
  holds ← get_elem? flush.tokens index
  let left : Flush = record flush { tokens = set flush.tokens index false } in
      some (if holds then notify left else left)

-- `wait`, where `signalled` says that the condition variable did not time out.
unfoldable pub wait : Bool → Flush → Bool
wait signalled flush = flush.pending == 0 || signalled

pub data Use : Type 0 where
  take_token : Use
  copy : ℕ → Use
  move : ℕ → Use
  destroy : ℕ → Use

unfoldable pub perform : Use → Flush → Option Flush
perform take_token flush = some (token flush)
perform (copy index) flush = copy_token index flush
perform (move index) flush = move_token index flush
perform (destroy index) flush = destroy_token index flush

-- What threads do with the tokens of a flush, in their order.
unfoldable pub perform_all : List Use → Flush → Option Flush
perform_all [] flush = some flush
perform_all (use_ ∷ uses) flush = do flush' ← perform use_ flush; perform_all uses flush'
