-- ===== src/Base/Lists.antt =====
-- Lists over the native numbers, the sets of texts that the program keeps, and predicates on lists.
use Prim.Native.Nat.{ℕ, zero, suc, ◌-◌}
use Prim.Native.String.{String}
use mathlib.Core.Path.{◌≡◌, refl}
use mathlib.Core.Bool.{Bool, true, false, ◌||◌, ◌&&◌, not}
use mathlib.Core.Option.{Option, none, some}
use mathlib.Core.List.{List, [], ◌∷◌, ◌++◌}
use native.Mathlib.Omega.{arith}
use text.Mathlib.Text.{◌==◌ as str_eq}
use text.Mathlib.TextEquality.{eq_iff}
use mathlib.Core.Logic.{◌⊎◌, inl, inr}
use carma_box_v.Base.Tests.{if◌then◌else◌, Bool-cases}

module _ {ℓ} {A : Type ℓ} where
  abbrev pub length : List A → ℕ
  length [] = 0
  length (_ ∷ xs) = suc (length xs)

  abbrev pub is_empty : List A → Bool
  is_empty [] = true
  is_empty (_ ∷ xs) = false

  unfoldable pub take : ℕ → List A → List A
  take zero xs = []
  take (suc n) [] = []
  take (suc n) (x ∷ xs) = x ∷ take n xs

  unfoldable pub drop : ℕ → List A → List A
  drop zero xs = xs
  drop (suc n) [] = []
  drop (suc n) (x ∷ xs) = drop n xs

  -- The last n elements of a list, or all.
  abbrev pub last : ℕ → List A → List A
  last n xs = drop (length xs - n) xs

  abbrev pub filter : (A → Bool) → List A → List A
  filter p [] = []
  filter p (x ∷ xs) = let rest = filter p xs in if p x then x ∷ rest else rest

  abbrev pub all : (A → Bool) → List A → Bool
  all p [] = true
  all p (x ∷ xs) = p x && all p xs

  abbrev pub any : (A → Bool) → List A → Bool
  any p [] = false
  any p (x ∷ xs) = p x || any p xs

  abbrev pub All {κ} : (A → Type κ) → List A → Type κ
  All P [] = Unit
  All P (x ∷ xs) = P x × All P xs

  pub All-append {κ} : (P : A → Type κ) (xs ys : List A) → All P xs → All P ys → All P (xs ++ ys)
  All-append P [] ys _ q = q
  All-append P (x ∷ xs) ys (p, ps) q = (p, All-append P xs ys ps q)

  pub All-of_forall {κ} : (P : A → Type κ) → ((x : A) → P x) → (xs : List A) → All P xs
  All-of_forall P p [] = tt
  All-of_forall P p (x ∷ xs) = (p x, All-of_forall P p xs)

  pub All-map {κ} : (P Q : A → Type κ) → ((x : A) → P x → Q x) → (xs : List A) → All P xs → All Q xs
  All-map P Q g [] _ = tt
  All-map P Q g (x ∷ xs) (p, ps) = (g x p, All-map P Q g xs ps)

  pub any-append : (p : A → Bool) (xs ys : List A) → any p (xs ++ ys) ≡ (any p xs || any p ys)
  any-append p [] ys = refl
  any-append p (x ∷ xs) ys = ground (arith, any-append p xs ys)

module _ {ℓ κ} {A : Type ℓ} {B : Type κ} where
  abbrev pub map : (A → B) → List A → List B
  map g [] = []
  map g (x ∷ xs) = g x ∷ map g xs

  -- The lists are of one length, and the elements at each place are related.
  abbrev pub Each : (A → B → Type 0) → List A → List B → Type 0
  Each R [] [] = Unit
  Each R (x ∷ xs) (y ∷ ys) = R x y × Each R xs ys
  Each R _ _ = ⊥

  pub Each-map :
      (R : A → B → Type 0) (g : A → B)
      → ((x : A) → R x (g x))
      → (xs : List A) → Each R xs (map g xs)
  Each-map R g h [] = tt
  Each-map R g h (x ∷ xs) = (h x, Each-map R g h xs)

  abbrev pub flat_map : (A → List B) → List A → List B
  flat_map g [] = []
  flat_map g (x ∷ xs) = g x ++ flat_map g xs

-- An element stands in a list.
abbrev pub In : {A : Type 0} → A → List A → Type 0
In a [] = ⊥
In a (x ∷ xs) = (a ≡ x) ⊎ In a xs

pub All-In : {A : Type 0} (P : A → Type 0) (xs : List A) (x : A) → All P xs → In x xs → P x
All-In P [] x h m = elim m [ ]
All-In P (y ∷ ys) x h (inl e) = rw e h.0
All-In P (y ∷ ys) x h (inr m) = All-In P ys x h.1 m

pub All-flat_map :
    {A B : Type 0} (P : B → Type 0) (g : A → List B) (xs : List A)
    → ((x : A) → In x xs → All P (g x))
    → All P (flat_map g xs)
All-flat_map P g [] h = tt
All-flat_map P g (x ∷ xs) h =
    All-append P (g x) (flat_map g xs) (h x (inl refl)) (All-flat_map P g xs (λ y m. h y (inr m)))

-- `x in s`, `s.add(x)` and `s.discard(x)` of a Python set of texts.
abbrev pub contains : String → List String → Bool
contains x [] = false
contains x (y ∷ s) = str_eq x y || contains x s

unfoldable pub insert : String → List String → List String
insert x s = if contains x s then s else x ∷ s

unfoldable pub discard : String → List String → List String
discard x [] = []
discard x (y ∷ s) = if str_eq x y then discard x s else y ∷ discard x s

pub contains-insert :
    (x y : String) (s : List String) → contains y (insert x s) ≡ (str_eq y x || contains y s)
unfolding insert
contains-insert x y s = elim (Bool-cases (str_eq y x)) [
  | inl e ↦ let same : y ≡ x = (eq_iff y x).0 e in rw same (ground (arith, eq_iff x x))
  | inr e ↦ ground arith
]

pub contains-discard :
    (x y : String) (s : List String) → contains y (discard x s) ≡ (not (str_eq x y) && contains y s)
unfolding discard
contains-discard x y [] = ground arith
contains-discard x y (z ∷ s) =
    ground (arith, eq_iff x y, eq_iff x z, eq_iff y z, contains-discard x y s)

pub option_cases {ℓ} : {A : Type ℓ} (o : Option A) → ((a : A) × (o ≡ some a)) ⊎ (o ≡ none)
option_cases (some a) = inl (a, refl)
option_cases none = inr refl
