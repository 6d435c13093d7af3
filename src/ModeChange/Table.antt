-- ===== src/ModeChange/Table.antt =====
-- Dicts keyed by texts, as the manager's requests: what an operation does to each key.
use carma_box_v.Base.{
  ◌≡◌, refl, false, List, [], ◌∷◌, ◌++◌, none, some, String, arith, if◌then◌else◌, str_eq, eq_iff,
}
use carma_box_v.ModeChange.Manager.{lookup, assign, remove}

module _ {V : Type 0} where
  pub lookup-assign :
      (k : String) (v : V) (m : List (String × V)) → lookup k (assign k v m) ≡ some v
  unfolding lookup assign
  lookup-assign k v [] = ground (arith, eq_iff k k)
  lookup-assign k v ((j, w) ∷ m) = ground (arith, lookup-assign k v m)

  pub lookup-assign_other :
      (i k : String) (v : V) (m : List (String × V))
      → str_eq i k ≡ false
      → lookup i (assign k v m) ≡ lookup i m
  unfolding lookup assign
  lookup-assign_other i k v [] other = ground arith
  lookup-assign_other i k v ((j, w) ∷ m) other =
      grind (arith, eq_iff k j, eq_iff i j, eq_iff i k, lookup-assign_other i k v m other)

  pub lookup-remove :
      (i k : String) (m : List (String × V))
      → lookup i (remove k m) ≡ (if str_eq i k then none else lookup i m)
  unfolding lookup remove
  lookup-remove i k [] = ground arith
  lookup-remove i k ((j, w) ∷ m) =
      grind (arith, eq_iff k j, eq_iff i j, eq_iff i k, lookup-remove i k m)

-- The keys of a dict differ.
abbrev pub IsDict : {V : Type 0} → List (String × V) → Type 0
IsDict [] = Unit
IsDict ((k, v) ∷ m) = (lookup k m ≡ none) × IsDict m

module _ {V : Type 0} where
  pub assign-IsDict :
      (k : String) (v : V) (m : List (String × V)) → IsDict m → IsDict (assign k v m)
  unfolding assign lookup
  assign-IsDict k v [] h = (refl, tt)
  assign-IsDict k v ((j, w) ∷ m) h =
      let rest = assign-IsDict k v m h.1 in
      grind (arith, eq_iff k j, eq_iff j k, lookup-assign_other j k v m, rest)

  pub lookup-append :
      (i : String) (l m : List (String × V)) → lookup i l ≡ none → lookup i (l ++ m) ≡ lookup i m
  unfolding lookup
  lookup-append i [] m h = refl
  lookup-append i ((j, w) ∷ l) m h = grind (arith, lookup-append i l m)

  pub lookup-append_none :
      (i : String) (l m : List (String × V)) → lookup i m ≡ none → lookup i (l ++ m) ≡ lookup i l
  unfolding lookup
  lookup-append_none i [] m h = h
  lookup-append_none i ((j, w) ∷ l) m h = grind (arith, lookup-append_none i l m)

  pub remove-IsDict : (k : String) (m : List (String × V)) → IsDict m → IsDict (remove k m)
  unfolding remove
  remove-IsDict k [] h = tt
  remove-IsDict k ((j, w) ∷ m) h =
      let rest = remove-IsDict k m h.1 in grind (arith, lookup-remove j k m, rest)
