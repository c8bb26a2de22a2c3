-- ===== src/Async/FlushLaws.antt =====
-- The count of include/async/Flush.h is that of the tokens.
use dynalog.Base.{
  ℕ, suc, ◌+◌, ◌%◌, ◌^◌, ◌<◌, ◌≡◌, refl, ◌∙◌, ap, Bool, true, false, ◌||◌, List, [], ◌∷◌, Option,
  none, some, arith, get_elem?, set, ◌==◌, if◌then◌else◌, ◌>>=◌, Returns, subst, total, total-set,
  total-append,
}
use native.Mathlib.Nat.{mod-eq_of_lt}
use dynalog.Async.Flush.{
  Flush, create_flush, pend, notify, add_token, token, copy_token, move_token, destroy_token, wait,
  Use, take_token, copy, move, destroy, perform, perform_all,
}

abbrev one_if : Bool → ℕ
one_if holds = if holds then 1 else 0

-- The tokens that hold the flush.
abbrev pub holders : Flush → ℕ
holders flush = total one_if flush.tokens

abbrev Counted : Flush → Type 0
Counted flush = flush.pending ≡ holders flush % 2 ^ 32

-- What a step that may fail leaves.
abbrev Keeps : Option Flush → Type 0
Keeps none = Unit
Keeps (some flush) = Counted flush

new : Counted create_flush
unfolding create_flush
new = refl

pended : (flush : Flush) → Counted flush → Counted (add_token true (pend flush))
unfolding pend
pended flush h = let a = total-append one_if flush.tokens (true ∷ []) in omega (arith, a, h)

token-Counted : (flush : Flush) → Counted flush → Counted (token flush)
unfolding token
token-Counted flush h = pended flush h

after_use :
    (index : ℕ) (flush : Flush) (holds : Bool)
    → get_elem? flush.tokens index ≡ some holds
    → total one_if (set flush.tokens index false) + one_if holds ≡ holders flush
after_use index flush holds g =
    let s = total-set one_if flush.tokens index holds false g in omega (arith, s)

copy-Keeps : (index : ℕ) (flush : Flush) → Counted flush → Keeps (copy_token index flush)
unfolding copy_token
copy-Keeps index flush h = go (get_elem? flush.tokens index)
  where
    go :
        (o : Option Bool)
        → Keeps (o >>= λ holds. if holds then some (add_token true (pend flush)) else none)
    go none = tt
    go (some true) = pended flush h
    go (some false) = tt

move-Keeps : (index : ℕ) (flush : Flush) → Counted flush → Keeps (move_token index flush)
unfolding move_token
move-Keeps index flush h = go (get_elem? flush.tokens index) refl
  where
    go :
        (o : Option Bool)
        → get_elem? flush.tokens index ≡ o
        → Keeps (
            o >>= λ holds.
            some (add_token holds (record flush { tokens = set flush.tokens index false })))
    go none g = tt
    go (some holds) g =
        let a = after_use index flush holds g in
        let l = total-append one_if (set flush.tokens index false) (holds ∷ []) in
        omega (arith, a, l, h)

notify-Counted :
    (index : ℕ) (flush : Flush)
    → Counted flush
    → get_elem? flush.tokens index ≡ some true
    → Counted (notify (record flush { tokens = set flush.tokens index false }))
unfolding notify
notify-Counted index flush h g = let a = after_use index flush true g in omega (arith, a, h)

destroy-Keeps : (index : ℕ) (flush : Flush) → Counted flush → Keeps (destroy_token index flush)
unfolding destroy_token
destroy-Keeps index flush h = go (get_elem? flush.tokens index) refl
  where
    go :
        (o : Option Bool)
        → get_elem? flush.tokens index ≡ o
        → Keeps (
            o >>= λ holds.
            let left : Flush = record flush { tokens = set flush.tokens index false } in
            some (if holds then notify left else left))
    go none g = tt
    go (some true) g = notify-Counted index flush h g
    go (some false) g = let a = after_use index flush false g in omega (arith, a, h)

perform-Keeps : (use_ : Use) (flush : Flush) → Counted flush → Keeps (perform use_ flush)
unfolding perform
perform-Keeps take_token flush h = token-Counted flush h
perform-Keeps (copy index) flush h = copy-Keeps index flush h
perform-Keeps (move index) flush h = move-Keeps index flush h
perform-Keeps (destroy index) flush h = destroy-Keeps index flush h

bind-Keeps :
    (o : Option Flush) (f : Flush → Option Flush)
    → Keeps o
    → ((flush : Flush) → Counted flush → Keeps (f flush))
    → Keeps (o >>= f)
bind-Keeps none f k g = tt
bind-Keeps (some flush) f k g = g flush k

perform_all-Keeps :
    (uses : List Use) (flush : Flush) → Counted flush → Keeps (perform_all uses flush)
unfolding perform_all
perform_all-Keeps [] flush h = h
perform_all-Keeps (use_ ∷ uses) flush h =
    bind-Keeps (perform use_ flush) (perform_all uses) (perform-Keeps use_ flush h)
      (λ flush' k. perform_all-Keeps uses flush' k)

-- After any uses of the tokens of a new flush, as long as fewer than 2 ^ 32 tokens hold it, the count is
-- the number of those that do. So `wait` returns at once exactly if none holds it, and else when the
-- condition variable is signalled; and a token that holds it announces the end, when it is
-- destroyed, exactly if it is the last one.
pub perform_all_lem :
    (uses : List Use) (flush : Flush)
    → perform_all uses create_flush ≡ some flush
    → holders flush < 2 ^ 32
    → (flush.pending ≡ holders flush)
      × ((signalled : Bool) → wait signalled flush ≡ (holders flush == 0 || signalled))
      × ((index : ℕ)
          → get_elem? flush.tokens index ≡ some true
          → Returns (destroy_token index flush) (λ left.
            left.announced ≡ (if holders flush == 1 then suc flush.announced else flush.announced)))
unfolding wait destroy_token notify
perform_all_lem uses flush e b =
    let count : flush.pending ≡ holders flush =
      subst Keeps e (perform_all-Keeps uses create_flush new) ∙ mod-eq_of_lt b in
    (
      count,
      λ signalled. ap (λ n. n == 0 || signalled) count,
      λ index g.
          rw g (_, refl, ap (λ n. if n == 1 then suc flush.announced else flush.announced) count),
    )
