-- ===== src/Dicts.antt =====
-- Python's dicts keyed by texts, beyond `d[k]` and `d[k] = v`, and the loops that fill them.
pub mod Fill
use carma_box_v.Base.{Bool, true, List, [], ◌∷◌, Option, none, some, String, if◌then◌else◌}
use carma_box_v.ModeChange.Manager.{lookup, assign}

module _ {V : Type 0} where
  abbrev pub keys : List (String × V) → List String
  keys [] = []
  keys ((k, v) ∷ d) = k ∷ keys d

  abbrev pub values : List (String × V) → List V
  values [] = []
  values ((k, v) ∷ d) = v ∷ values d

  -- `d.get(k, v)`
  abbrev pub get : String → V → List (String × V) → V
  get k v d = elim (lookup k d) [ none ↦ v | some w ↦ w ]

module _ {A V : Type 0} where
  -- A loop over xs that sets d[key(x)] = val(x) for each x that passes the test.
  unfoldable pub assign_where :
      (A → Bool) → (A → String) → (A → V) → List A → List (String × V) → List (String × V)
  assign_where test key val [] d = d
  assign_where test key val (x ∷ xs) d =
      assign_where test key val xs (if test x then assign (key x) (val x) d else d)

  abbrev pub assign_all : (A → String) → (A → V) → List A → List (String × V) → List (String × V)
  assign_all = assign_where (λ x. true)
