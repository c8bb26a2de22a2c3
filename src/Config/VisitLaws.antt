-- ===== src/Config/VisitLaws.antt =====
-- What `visit` of include/Configuration.h does and leaves.
use dynalog.Base.{
  mem-append, ℕ, ◌≡◌, refl, sym, ◌∙◌, ap, subst, true, false, not, ◌&&◌, ◌||◌, List, [], ◌∷◌, ◌++◌,
  Option, none, some, mem, ◌==◌, All, arith, Option-cases, inl, inr,
}
use dynalog.Base.Int.{ℤ, ltb_ℤ}
use dynalog.Levels.{Bits}
use dynalog.Config.Sets.{LoggerSet, insert_all, erase_all, is_empty}
use dynalog.Config.Changes.{no_changes, pending, update_insert, update_remove}
use dynalog.Config.Policy.{Policy, Heap}
use dynalog.Config.Predicate.{predicate_policy}
use dynalog.Config.Node.{Node, assume, update}
use dynalog.Config.Store.{
  Entry, Place, Configuration, find, emplace, rebuild, steal_loop, yield_loop, update_loop,
  insert_at, insert_policy, remove_at, remove_policy,
}
use dynalog.Config.Arbitration.{managed, IsQuiet, AllQuiet, IsValid, keys, Below}
use dynalog.Config.Keys.{has_key, eqb_refl}
use dynalog.Config.Places.{Emplaced, EmplaceResult, emplace_lem}
use dynalog.Config.Visit.{int_max, visitor, match_action, steal_action, visit}

empty_of_mem : (xs : List ℕ) → ((k : ℕ) → mem k xs ≡ false) → xs ≡ []
empty_of_mem [] h = refl
empty_of_mem (x ∷ xs) h = absurd (let q = h x in ground (arith, q))

none_matched :
    (p : Policy) (set : LoggerSet)
    → ((k : ℕ) → mem k set && p.selects k ≡ false)
    → p.matches set [] ≡ []
none_matched p set h = empty_of_mem (p.matches set []) (λ k. p.mem-matches set [] k ∙ h k)

module _ (store : ℕ → Policy) where
  idle : (n : Node) (h : Heap) → IsQuiet n → update store false n h ≡ (n, h)
  unfolding update pending is_empty
  idle n h q = rw (q.no_insert, q.no_remove) refl

  update_nothing : (es : List Entry) (h : Heap) → AllQuiet es → update_loop store es h ≡ (es, h)
  unfolding update_loop
  update_nothing [] h q = refl
  update_nothing (e ∷ es) h q = rw (idle e.node h q.0, update_nothing es h q.1) refl

  steal_nothing :
      (n : Node) (es : List Entry)
      → ((k : ℕ) → (store n.policy).selects k ≡ false)
      → steal_loop store n es [] ≡ (n, es, [])
  unfolding steal_loop assume update_insert update_remove insert_all erase_all
  steal_nothing n [] f = refl
  steal_nothing n (e ∷ es) f =
      let m = none_matched (store n.policy) e.node.changes.manage (λ k. ground (arith, f k)) in
      rw (m, steal_nothing n es f) refl

  yield_nothing :
      (n : Node) (es : List Entry) → n.changes.manage ≡ [] → yield_loop store n es [] ≡ (n, es, [])
  unfolding yield_loop assume update_insert update_remove insert_all erase_all
  yield_nothing n [] f = refl
  yield_nothing n (e ∷ es) f =
      let m : (store e.node.policy).matches n.changes.manage [] ≡ [] =
        none_matched (store e.node.policy) n.changes.manage (λ k. rw f refl) in
      rw (m, yield_nothing n es f) refl

  -- The visitor's node.
  abbrev fresh_node : ℕ → Node
  fresh_node policy = record { policy = policy; changes = no_changes }

  abbrev on_top : ℕ → List Entry → Configuration
  on_top policy es = record {
    scratch = [];
    policies = record { priority = int_max; node = fresh_node policy } ∷ es;
  }

  insert_at_top :
      (policy : ℕ) (es : List Entry) (h : Heap)
      → AllQuiet es
      → ((k : ℕ) → (store policy).selects k ≡ false)
      → insert_at store int_max (record { above = []; node = fresh_node policy; below = es }) [] h
        ≡ (on_top policy es, h)
  unfolding insert_at rebuild
  insert_at_top policy es h q f =
      rw
        (
          steal_nothing (fresh_node policy) es f,
          update_nothing es h q,
          idle (fresh_node policy) h (record { no_insert = refl; no_remove = refl }),
        )
        refl

  remove_at_top :
      (policy : ℕ) (es : List Entry) (h : Heap)
      → AllQuiet es
      → remove_policy store int_max policy (on_top policy es) h
        ≡ (true, record { scratch = []; policies = es }, h)
  unfolding remove_policy remove_at find insert_all
  remove_at_top policy es h q =
      let same : (policy == policy) ≡ true = ground arith in
      rw
        (
          eqb_refl int_max,
          same,
          yield_nothing (fresh_node policy) es refl,
          idle (fresh_node policy) h (record { no_insert = refl; no_remove = refl }),
          update_nothing es h q,
        )
        refl

  -- Above all priorities that an `int` can have, there is nothing.
  nothing_above :
      (top : Option ℤ) (above below : List Entry)
      → All (λ k. ltb_ℤ int_max k ≡ false) (keys (above ++ below))
      → Below top (keys above ++ int_max ∷ keys below)
      → above ≡ []
  nothing_above top [] below b w = refl
  nothing_above top (a ∷ rest) below b w =
      let e = nothing_above (some a.priority) rest below b.1 w.1 in
      let q : ltb_ℤ int_max a.priority ≡ true =
        (subst (λ r. Below (some a.priority) (keys r ++ int_max ∷ keys below)) e w.1).0 in
      absurd (ground (arith, q, b.0))

  first_place :
      (n : Node) (es : List Entry) (p : Place)
      → All (λ k. ltb_ℤ int_max k ≡ false) (keys es)
      → Emplaced none int_max n es p
      → p ≡ record { above = []; node = n; below = es }
  first_place n es p b x =
      let e =
        nothing_above none p.above p.below
          (subst (λ es. All (λ k. ltb_ℤ int_max k ≡ false) (keys es)) x.split b) x.sorted in
      ap (λ a. record p { above = a }) e
      ∙ ap (λ m. record p { above = []; node = m }) x.node
      ∙ ap (λ bs. record { above = []; node = n; below = bs })
          (sym (x.split ∙ ap (λ a. a ++ p.below) e))

  insert_at_none :
      (policy : ℕ) (c : Configuration) (h : Heap)
      → emplace int_max (fresh_node policy) c.policies ≡ none
      → insert_policy store int_max policy c h ≡ (false, c, h)
  unfolding insert_policy
  insert_at_none policy c h e = rw (insert_policy, e) refl

  insert_on_top :
      (policy : ℕ) (c : Configuration) (h : Heap)
      → IsValid store c
      → ((k : ℕ) → (store policy).selects k ≡ false)
      → emplace int_max (fresh_node policy) c.policies
        ≡ some (record { above = []; node = fresh_node policy; below = c.policies })
      → insert_policy store int_max policy c h ≡ (true, on_top policy c.policies, h)
  unfolding insert_policy
  insert_on_top policy c h v f e =
      rw (insert_policy, e, v.clean, insert_at_top policy c.policies h v.quiet f) refl

-- The loggers that are managed, an entry after the other.
abbrev pub all_managed : List Entry → List ℕ
all_managed [] = []
all_managed (e ∷ es) = e.node.changes.manage ++ all_managed es

mem-all_managed : (es : List Entry) (k : ℕ) → mem k (all_managed es) ≡ managed k es
mem-all_managed [] k = refl
mem-all_managed (e ∷ es) k =
    mem-append k e.node.changes.manage (all_managed es)
    ∙ ap (λ b. mem k e.node.changes.manage || b) (mem-all_managed es k)

module _ {ℓ} {S : Type ℓ} (action : ℕ → S → S) where
  match_action-append :
      (xs ys : List ℕ) (s : S)
      → match_action action (xs ++ ys) s ≡ match_action action ys (match_action action xs s)
  unfolding match_action
  match_action-append [] ys s = refl
  match_action-append (x ∷ xs) ys s = match_action-append xs ys (action x s)

  steal_action_lem :
      (es : List Entry) (s : S) → steal_action action es s ≡ match_action action (all_managed es) s
  unfolding steal_action match_action
  steal_action_lem [] s = refl
  steal_action_lem (e ∷ es) s =
      steal_action_lem es (match_action action e.node.changes.manage s)
      ∙ sym (match_action-append e.node.changes.manage (all_managed es) s)

  -- In a valid configuration whose priorities are those of an `int`, with a visitor for the policy:
  -- visiting succeeds exactly if the highest priority of an `int` is free. Then the action ran on
  -- the loggers of a list that has exactly the managed ones, one call after the other; otherwise it
  -- did not run. Either way the configuration and all loggers are as before.
  pub visit_lem :
      (store : ℕ → Policy) (policy : ℕ) (no_levels : Bits) (c : Configuration) (h : Heap) (s : S)
      → store policy ≡ predicate_policy (visitor no_levels)
      → All (λ k. ltb_ℤ int_max k ≡ false) (keys c.policies)
      → IsValid store c
      → let (result, s', c', h') = visit action store policy c h s in
        (result ≡ not (has_key int_max (keys c.policies)))
        × (result ≡ true → s' ≡ match_action action (all_managed c.policies) s)
        × ((k : ℕ) → mem k (all_managed c.policies) ≡ managed k c.policies)
        × (result ≡ false → s' ≡ s)
        × (c' ≡ c)
        × (h' ≡ h)
  unfolding visit
  visit_lem store policy no_levels c h s same b v =
      let n : Node = record { policy = policy; changes = no_changes } in
      let x = emplace_lem none int_max n c.policies refl v.sorted in
      elim (Option-cases (emplace int_max n c.policies)) [
        | inl e ↦
            let y : has_key int_max (keys c.policies) ≡ true =
              subst (EmplaceResult none int_max n c.policies) e x in
            rw (e, y, insert_at_none store policy c h e)
              (refl, λ t. cc, mem-all_managed c.policies, λ t. refl, refl, refl)
        | inr (p, e) ↦
            let y : Emplaced none int_max n c.policies p =
              subst (EmplaceResult none int_max n c.policies) e x in
            let e' = e ∙ ap some (first_place store n c.policies p b y) in
            let unselecting : (k : ℕ) → (store policy).selects k ≡ false =
              λ k. ap (λ (z : Policy). z.selects k) same in
            rw
              (
                e',
                y.fresh,
                insert_on_top store policy c h v unselecting e',
                remove_at_top store policy c.policies h v.quiet,
              )
              (
                refl,
                λ t. steal_action_lem c.policies s,
                mem-all_managed c.policies,
                λ t. cc,
                ap (λ z. record { scratch = z; policies = c.policies }) (sym v.clean),
                refl,
              )
      ]
