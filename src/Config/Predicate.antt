-- ===== src/Config/Predicate.antt =====
-- `PredicatePolicy`, `MatchAll` and `DefaultPolicy` of include/Configuration.h.
use dynalog.Base.{
  ℕ, ◌≡◌, refl, Bool, true, ◌&&◌, ◌||◌, List, [], ◌∷◌, ◌++◌, Option, mem, if◌then◌else◌, ◌==◌,
  arith, mem-append,
}
use dynalog.Levels.{Logger, Bits}
use dynalog.Config.Sets.{LoggerSet, LoggerVector}
use dynalog.Config.Changes.{ChangeSet}
use dynalog.Config.Policy.{Heap, Policy}

-- `emplace_back` appends to the vector of matches.
abbrev push_back : LoggerVector → ℕ → LoggerVector
push_back v logger = v ++ logger ∷ []

pub record PredicatePolicy : Type 0 where
  pub predicate : ℕ → Bool
  pub emitter : Option ℕ
  pub levels : Bits

unfoldable pub match_loop : (ℕ → Bool) → LoggerSet → LoggerVector → LoggerVector
match_loop predicate [] found = found
match_loop predicate (logger ∷ loggers) found =
    match_loop predicate loggers (if predicate logger then push_back found logger else found)

-- The two stores of a round of `update`.
abbrev pub write : PredicatePolicy → Logger → Logger
write p l = record l { emitter = p.emitter; levels = p.levels }

unfoldable pub update_loop : PredicatePolicy → List ℕ → Heap → Heap
update_loop p [] h = h
update_loop p (logger ∷ loggers) h =
    update_loop p loggers (λ k. if k == logger then write p (h k) else h k)

unfoldable pub update : PredicatePolicy → ChangeSet → Heap → Heap
unfolding update_loop
update p changes h = update_loop p changes.manage (update_loop p changes.inserted h)

-- `configure( Emitter * )` and `configure( const LevelSet & )`.
unfoldable pub configure_emitter : Option ℕ → PredicatePolicy → PredicatePolicy
configure_emitter instance_ p = record p { emitter = instance_ }

unfoldable pub configure_levels : Bits → PredicatePolicy → PredicatePolicy
configure_levels enabled p = record p { levels = enabled }

unfoldable pub match_all : ℕ → Bool
match_all logger = true

pub mem-match_loop :
    (predicate : ℕ → Bool) (set : LoggerSet) (found : LoggerVector) (k : ℕ)
    → mem k (match_loop predicate set found) ≡ (mem k found || (mem k set && predicate k))
unfolding match_loop
mem-match_loop predicate [] found k = ground arith
mem-match_loop predicate (x ∷ set) found k = ground (
  arith,
  mem-match_loop predicate set (if predicate x then push_back found x else found) k,
  mem-append k found (x ∷ []),
)

update_loop_lem :
    (p : PredicatePolicy) (loggers : List ℕ) (h : Heap) (k : ℕ)
    → update_loop p loggers h k ≡ (if mem k loggers then write p (h k) else h k)
unfolding update_loop
update_loop_lem p [] h k = refl
update_loop_lem p (x ∷ loggers) h k =
    ground (arith, update_loop_lem p loggers (λ j. if j == x then write p (h j) else h j) k)

pub update-eq :
    (p : PredicatePolicy) (c : ChangeSet) (h : Heap) (k : ℕ)
    → update p c h k ≡ (if mem k c.inserted || mem k c.manage then write p (h k) else h k)
unfolding update
update-eq p c h k = ground (
  arith,
  update_loop_lem p c.manage (update_loop p c.inserted h) k,
  update_loop_lem p c.inserted h k,
)

-- `PredicatePolicy` keeps the promises of the interface.
abbrev pub predicate_policy : PredicatePolicy → Policy
predicate_policy p = record {
  matches = match_loop p.predicate;
  update = update p;
  selects = p.predicate;
  settings = write p;
  mem-matches = mem-match_loop p.predicate;
  update_lem = update-eq p;
  settings-settings = λ l. refl;
}
