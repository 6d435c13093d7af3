-- ===== src/Executor/Monad.antt =====
-- The state and exception monad in which the handlers run.
use carma_box_v.Base.{Bool, true, false}
use carma_box_v.Executor.Types.{Executor, Outcome, returned, raised}

-- The executor and what its adapters act on.
pub record World (F D : Type 0) : Type 0 where
  pub executor : Executor F
  pub device : D

abbrev pub M : Type 0 → Type 0 → Type 0 → Type 0
M F D A = World F D → World F D × Outcome A

abbrev pub caught : Outcome Bool → Outcome Bool
caught (returned b) = returned b
caught raised = returned false

module _ {F D : Type 0} where
  abbrev pub ret : {A : Type 0} → A → M F D A
  ret a w = (w, returned a)

  abbrev pub resume : {A B : Type 0} → Outcome A → (A → M F D B) → M F D B
  resume (returned a) k w = k a w
  resume raised k w = (w, raised)

  infixl 5 ◌>>=◌ ◌>>◌
  abbrev pub ◌>>=◌ : {A B : Type 0} → M F D A → (A → M F D B) → M F D B
  ◌>>=◌ m f w = resume (m w).1 f (m w).0

  abbrev pub ◌>>◌ : {A B : Type 0} → M F D A → M F D B → M F D B
  m >> k = m >>= λ _. k

  -- A call of an adapter.
  abbrev pub call : {A : Type 0} → (D → D × Outcome A) → M F D A
  call g w = let (d, r) = g w.device in (record w { device = d }, r)

  abbrev pub read : {A : Type 0} → (D → Outcome A) → M F D A
  read g w = (w, g w.device)

  abbrev pub modify : (Executor F → Executor F) → M F D (Unit {0})
  modify g w = (record w { executor = g w.executor }, returned tt)

  -- `if b: m`
  abbrev pub when : Bool → M F D (Unit {0}) → M F D (Unit {0})
  when true m = m
  when false m = ret tt

  -- `await m` with the result unused.
  abbrev pub ignore : {A : Type 0} → M F D A → M F D (Unit {0})
  ignore m = m >>= λ _. ret tt

  -- `try: return m; except Exception: return False`
  abbrev pub or_false : M F D Bool → M F D Bool
  or_false m w = ((m w).0, caught (m w).1)
