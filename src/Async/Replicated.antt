-- ===== src/Async/Replicated.antt =====
-- `Replicated` of include/async/Replicated.h, with `Synchronized` of include/async/Synchronized.h. A copy
-- of the object is used under its lock, which is one step; a division by zero is undefined behaviour,
-- which is `none`.
use dynalog.Base.{
  ℕ, zero, suc, ◌+◌, ◌*◌, ◌%◌, ◌^◌, ◌<◌, ◌≡◌, refl, sym, ◌∙◌, ap, false, List, [], ◌∷◌, Option,
  none, some, arith, length, length-set, replicate, Bool-cases, inl, inr, get_elem?, get_elem?-set,
  set, ◌==◌, if◌then◌else◌, ◌>>=◌, Returns,
}
use dynalog.Util.{Tuple, Selects, apply_selected, all_indices, thread_modulo}
use dynalog.Util.Tuples.{apply_selected-all_indices}
use native.Mathlib.Nat.{mod-lt, mod-mod}

-- How many copies there are by default, where the library knows of `concurrency` threads: a product of
-- two `unsigned int`.
pub recommended : ℕ → ℕ
recommended concurrency = 2 * concurrency % 2 ^ 32

module _ {ℓ κ} {T : Type ℓ} {R : Type κ} where
  -- `Synchronized::with` of a visitor that returns a result and may change the object.
  pub visit : (T → R × T) → T → R × T
  visit func variable = func variable

  -- `with`, of a hash.
  pub with_hash : ℕ → (T → R × T) → List T → Option (R × List T)
  with_hash hash func instances = if length instances == 0 then none else (do
    instance_ ← get_elem? instances (hash % length instances)
    let (result, changed) = visit func instance_ in
        some (result, set instances (hash % length instances) changed))

-- The loop of the constructor that has a generator: the rounds left, and the index.
pub generate_loop {ℓ} : {T : Type ℓ} → (ℕ → T) → ℕ → ℕ → List T
generate_loop generator zero index = []
generate_loop generator (suc rounds) index =
    generator index ∷ generate_loop generator rounds (suc index)

-- `with` of the copy of the current thread, which hashes to `thread`, and `with` of a
-- visitor that has the lock, where the thread's index is taken modulo the number of copies first.
pub with_thread {ℓ κ} : {T : Type ℓ} {R : Type κ} → ℕ → (T → R × T) → List T → Option (R × List T)
with_thread thread func instances = with_hash thread func instances

pub with_thread_locked {ℓ κ} :
    {T : Type ℓ} {R : Type κ} → ℕ → (T → R × T) → List T → Option (R × List T)
with_thread_locked thread func instances = do
  hash ← thread_modulo thread (length instances)
  with_hash hash func instances

-- The constructors: from a generator and from a tuple of arguments, of which `make_instance` makes an
-- object, with a size or the recommended one.
pub from_generator {ℓ} : {T : Type ℓ} → ℕ → (ℕ → T) → List T
from_generator concurrency generator = generate_loop generator (recommended concurrency) 0

pub from_tuple {ℓ κ} :
    {T : Type κ} (Values : ℕ → Type ℓ) (types : List ℕ)
    → Selects types (all_indices types) types
    → (Tuple Values types → T)
    → ℕ
    → Tuple Values types
    → List T
from_tuple Values types e make_instance size args =
    generate_loop
      (λ index. apply_selected Values types (all_indices types) types e args make_instance) size 0

pub from_tuple_recommended {ℓ κ} :
    {T : Type κ} (Values : ℕ → Type ℓ) (types : List ℕ)
    → Selects types (all_indices types) types
    → (Tuple Values types → T)
    → ℕ
    → Tuple Values types
    → List T
from_tuple_recommended Values types e make_instance concurrency args =
    from_tuple Values types e make_instance (recommended concurrency) args

module _ {ℓ} {T : Type ℓ} where
  get_elem?-some : (xs : List T) (i : ℕ) → i < length xs → (x : T) × (get_elem? xs i ≡ some x)
  get_elem?-some [] i h = absurd (omega arith)
  get_elem?-some (x ∷ xs) zero h = (x, refl)
  get_elem?-some (x ∷ xs) (suc i) h = get_elem?-some xs i (omega arith)

  get_elem?-generate_loop :
      (generator : ℕ → T) (rounds index k : ℕ)
      → k < rounds
      → get_elem? (generate_loop generator rounds index) k ≡ some (generator (index + k))
  unfolding generate_loop
  get_elem?-generate_loop generator zero index k h = absurd (omega arith)
  get_elem?-generate_loop generator (suc rounds) index zero h =
      ap (λ i. some (generator i)) (omega arith)
  get_elem?-generate_loop generator (suc rounds) index (suc k) h =
      get_elem?-generate_loop generator rounds (suc index) k (omega arith)
      ∙ ap (λ i. some (generator i)) (omega arith)

same_copy {ℓ κ} :
    {T : Type ℓ} {R : Type κ} (thread : ℕ) (func : T → R × T) (instances : List T)
    → with_thread_locked thread func instances ≡ with_thread thread func instances
unfolding with_thread with_thread_locked with_hash thread_modulo
same_copy thread func instances = elim (Bool-cases (length instances == 0)) [
  | inl e ↦ rw e refl
  | inr e ↦ rw (e, mod-mod thread (length instances)) refl
]

-- Visitors one after the other, each of a thread, by its hash; their results.
pub visit_all {ℓ κ} :
    {T : Type ℓ} {R : Type κ} → List (ℕ × (T → R × T)) → List T → Option (List R × List T)
visit_all [] instances = some ([], instances)
visit_all ((thread, func) ∷ visits) instances = do
  (result, changed) ← with_thread thread func instances
  (results, end_) ← visit_all visits changed
  some (result ∷ results, end_)

-- What the visitors make of the copy at `index`, of `size` copies.
abbrev pub effect {ℓ κ} : {T : Type ℓ} {R : Type κ} → ℕ → ℕ → List (ℕ × (T → R × T)) → T → T
effect size index [] x = x
effect size index ((thread, func) ∷ visits) x =
    effect size index visits (if index == thread % size then (func x).1 else x)

-- The copy that a hash selects is visited, and no other changes.
with_hash-eq {ℓ κ} :
    {T : Type ℓ} {R : Type κ} (hash : ℕ) (func : T → R × T) (instances : List T) (x : T)
    → 0 < length instances
    → get_elem? instances (hash % length instances) ≡ some x
    → with_hash hash func instances
      ≡ some ((func x).0, set instances (hash % length instances) (func x).1)
unfolding with_hash visit
with_hash-eq hash func instances x p g =
    let some_copy : (length instances == 0) ≡ false = ground arith in rw (some_copy, g) refl

-- What a run of visitors comes to.
abbrev Visited {ℓ κ} :
    {T : Type ℓ} {R : Type κ} → List (ℕ × (T → R × T)) → List T → List R × List T → Type ℓ
Visited {T = T} visits instances r =
    (length r.1 ≡ length instances)
    × ((index : ℕ) (x : T)
        → get_elem? instances index ≡ some x
        → get_elem? r.1 index ≡ some (effect (length instances) index visits x))

-- The copy at an index after one was replaced.
replaced {ℓ} :
    {T : Type ℓ} (f : T → T) (instances : List T) (i index : ℕ) (x y : T)
    → get_elem? instances i ≡ some x
    → get_elem? instances index ≡ some y
    → (if index == i then some (f x) else get_elem? instances index)
      ≡ some (if index == i then f y else y)
replaced f instances i index x y g q = elim (Bool-cases (index == i)) [
  | inl e ↦
      let same : index ≡ i = ground arith in
      let z : some x ≡ some y = sym g ∙ ap (get_elem? instances) (sym same) ∙ q in rw e (cc z)
  | inr e ↦ rw e q
]

visit_all-Visited {ℓ κ} :
    {T : Type ℓ} {R : Type κ} (visits : List (ℕ × (T → R × T))) (instances : List T)
    → 0 < length instances
    → Returns (visit_all visits instances) (Visited visits instances)
unfolding visit_all with_thread
visit_all-Visited [] instances p = (_, refl, (refl, λ index x g. g))
visit_all-Visited {T = T} ((thread, func) ∷ visits) instances p =
    let i = thread % length instances in
    let h = mod-lt thread p in
    let (x, g) = get_elem?-some instances i h in
    let changed = set instances i (func x).1 in
    let l : length changed ≡ length instances = length-set instances i (func x).1 in
    let (r, e, m) = visit_all-Visited visits changed (omega (arith, p, l)) in
    let at : (index : ℕ) (y : T)
        → get_elem? instances index ≡ some y
        → get_elem? changed index ≡ some (if index == i then (func y).1 else y) =
      λ index y q.
        get_elem?-set instances i index (func x).1 h
        ∙ replaced (λ z. (func z).1) instances i index x y g q in
    rw (with_hash-eq thread func instances x p g, e)
      (
        _,
        refl,
        (
          m.0 ∙ l,
          λ index y q.
              m.1 index _ (at index y q)
              ∙ ap (λ n. some (effect n index visits (if index == i then (func y).1 else y))) l,
        ),
      )

-- Where there is a copy, each visitor of a run runs on the copy whose index is the hash of its thread
-- modulo their number: every copy ends as those visitors leave it whose threads select it, in their
-- order, and as many copies are left. A thread uses the same copy whether or not the visitor has the
-- lock, where its index is taken modulo their number twice.
pub visit_all_lem {ℓ κ} :
    {T : Type ℓ} {R : Type κ} (visits : List (ℕ × (T → R × T))) (instances : List T)
    → 0 < length instances
    → Returns (visit_all visits instances) (λ r.
      (length r.1 ≡ length instances)
      × ((index : ℕ) (x : T)
          → get_elem? instances index ≡ some x
          → get_elem? r.1 index ≡ some (effect (length instances) index visits x)))
      × ((thread : ℕ) (func : T → R × T)
          → with_thread_locked thread func instances ≡ with_thread thread func instances)
visit_all_lem visits instances p =
    (visit_all-Visited visits instances p, λ thread func. same_copy thread func instances)

generate_loop-replicate {ℓ} :
    {T : Type ℓ} (x : T) (rounds index : ℕ)
    → generate_loop (λ k. x) rounds index ≡ replicate rounds x
unfolding generate_loop
generate_loop-replicate x zero index = refl
generate_loop-replicate x (suc rounds) index =
    ap (λ xs. x ∷ xs) (generate_loop-replicate x rounds (suc index))

-- The constructors that take a tuple make each copy from the whole tuple, whose elements the maker
-- receives once each, in order; with the recommended size they are as a generator would make them.
pub from_tuple_lem {ℓ κ} :
    {T : Type κ} (Values : ℕ → Type ℓ) (types : List ℕ) (make : Tuple Values types → T)
    → (e : Selects types (all_indices types) types) × ((size concurrency : ℕ)
          (args : Tuple Values types)
        → (from_tuple Values types e make size args ≡ replicate size (make args))
          × (from_tuple_recommended Values types e make concurrency args
              ≡ from_generator concurrency (λ index. make args)))
unfolding from_tuple from_tuple_recommended from_generator
from_tuple_lem Values types make =
    let (e, h) = apply_selected-all_indices Values types make in
    (
      e,
      λ size concurrency args. (
        ap (λ x. generate_loop (λ index. x) size 0) (h args)
            ∙ generate_loop-replicate (make args) size 0,
        ap (λ x. generate_loop (λ index. x) (recommended concurrency) 0) (h args),
      ),
    )
