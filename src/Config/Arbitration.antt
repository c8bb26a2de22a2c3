-- ===== src/Config/Arbitration.antt =====
-- What include/Configuration.h promises of a `Configuration`: loggers are configured by the highest
-- priority policy that matches them. The predicates speak of one logger at a time.
use dynalog.Base.{
  ℕ, ◌≡◌, Bool, true, false, ◌||◌, List, [], ◌∷◌, Option, none, some, mem, if◌then◌else◌,
}
use dynalog.Base.Int.{ℤ, ltb_ℤ, eqb_ℤ}
use dynalog.Levels.{Logger}
use dynalog.Config.Policy.{Policy, Heap}
use dynalog.Config.Node.{Node}
use dynalog.Config.Store.{Entry, Configuration}

abbrev pub manages : ℕ → Node → Bool
manages l n = mem l n.changes.manage

abbrev pub managed : ℕ → List Entry → Bool
managed l [] = false
managed l (e ∷ es) = manages l e.node || managed l es

-- Whether the node will manage the logger when its changes are applied.
abbrev pub takes : ℕ → Node → Bool
takes l n = mem l n.changes.inserted || manages l n

abbrev pub taken : ℕ → List Entry → Bool
taken l [] = false
taken l (e ∷ es) = takes l e.node || taken l es

abbrev pub inserting : ℕ → List Entry → Bool
inserting l [] = false
inserting l (e ∷ es) = mem l e.node.changes.inserted || inserting l es

-- The priority of the first entry that manages the logger.
abbrev pub holder : ℕ → List Entry → Option ℤ
holder l [] = none
holder l (e ∷ es) = if manages l e.node then some e.priority else holder l es

-- No change waits to be applied.
pub record IsQuiet (n : Node) : Type 0 where
  pub no_insert : n.changes.inserted ≡ []
  pub no_remove : n.changes.removed ≡ []

abbrev pub AllQuiet : List Entry → Type 0
AllQuiet [] = Unit {0}
AllQuiet (e ∷ es) = IsQuiet e.node × AllQuiet es

abbrev pub keys : List Entry → List ℤ
keys [] = []
keys (e ∷ es) = e.priority ∷ keys es

abbrev pub under : ℤ → Option ℤ → Bool
under k none = true
under k (some top) = ltb_ℤ k top

-- The priorities fall, from below `top`.
abbrev pub Below : Option ℤ → List ℤ → Type 0
Below top [] = Unit {0}
Below top (k ∷ ks) = (under k top ≡ true) × Below (some k) ks

abbrev pub IsSorted : List ℤ → Type 0
IsSorted ks = Below none ks

module _ (store : ℕ → Policy) where
  abbrev pub selects : ℕ → Node → Bool
  selects l n = (store n.policy).selects l

  abbrev pub selected : ℕ → List Entry → Bool
  selected l [] = false
  selected l (e ∷ es) = selects l e.node || selected l es

  -- The priority of the first entry whose policy selects the logger.
  abbrev pub owner : ℕ → List Entry → Option ℤ
  owner l [] = none
  owner l (e ∷ es) = if selects l e.node then some e.priority else owner l es

  -- Whoever manages the logger selects it, and nobody above does.
  abbrev pub Arbitrated : ℕ → List Entry → Type 0
  Arbitrated l [] = Unit {0}
  Arbitrated l (e ∷ es) =
      (manages l e.node ≡ true → selects l e.node ≡ true)
      × (managed l es ≡ true → selects l e.node ≡ false)
      × Arbitrated l es

  -- The same of who will manage it when all changes are applied.
  abbrev pub WillBeArbitrated : ℕ → List Entry → Type 0
  WillBeArbitrated l [] = Unit {0}
  WillBeArbitrated l (e ∷ es) =
      (takes l e.node ≡ true → selects l e.node ≡ true)
      × (taken l es ≡ true → selects l e.node ≡ false)
      × WillBeArbitrated l es

  -- The same, where nothing is asked of the policy at one priority: it may have changed what it
  -- selects, but no logger has two managers.
  abbrev pub ArbitratedBut : ℤ → ℕ → List Entry → Type 0
  ArbitratedBut priority l [] = Unit {0}
  ArbitratedBut priority l (e ∷ es) =
      (eqb_ℤ e.priority priority ≡ false → manages l e.node ≡ true → selects l e.node ≡ true)
      × (eqb_ℤ e.priority priority ≡ false → managed l es ≡ true → selects l e.node ≡ false)
      × (manages l e.node ≡ true → managed l es ≡ false)
      × ArbitratedBut priority l es

  -- The logger has the settings of every policy that manages it.
  abbrev pub Configured : ℕ → List Entry → Logger → Type 0
  Configured l [] v = Unit {0}
  Configured l (e ∷ es) v =
      (manages l e.node ≡ true → (store e.node.policy).settings v ≡ v) × Configured l es v

  -- The same of all policies but the one at that priority.
  abbrev pub ConfiguredBut : ℤ → ℕ → List Entry → Logger → Type 0
  ConfiguredBut priority l [] v = Unit {0}
  ConfiguredBut priority l (e ∷ es) v =
      (eqb_ℤ e.priority priority ≡ false
        → manages l e.node ≡ true
        → (store e.node.policy).settings v ≡ v)
      × ConfiguredBut priority l es v

  -- Between two calls of member functions.
  pub record IsValid (c : Configuration) : Type 0 where
    pub clean : c.scratch ≡ []
    pub sorted : IsSorted (keys c.policies)
    pub quiet : AllQuiet c.policies
    pub arbitrated : (l : ℕ) → Arbitrated l c.policies

  abbrev pub IsConfigured : Configuration → Heap → Type 0
  IsConfigured c h = (l : ℕ) → Configured l c.policies (h l)

  -- Between two calls, when the policy at one priority was changed meanwhile.
  pub record IsValidBut (priority : ℤ) (c : Configuration) : Type 0 where
    pub clean : c.scratch ≡ []
    pub sorted : IsSorted (keys c.policies)
    pub quiet : AllQuiet c.policies
    pub arbitrated : (l : ℕ) → ArbitratedBut priority l c.policies

  abbrev pub IsConfiguredBut : ℤ → Configuration → Heap → Type 0
  IsConfiguredBut priority c h = (l : ℕ) → ConfiguredBut priority l c.policies (h l)
