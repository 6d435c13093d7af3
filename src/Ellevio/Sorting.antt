-- ===== src/Ellevio/Sorting.antt =====
-- Descending lists of floats: a peak added at the end, and keeping the highest ones.
use carma_box_v.Base.{
  take, ℕ, zero, suc, ◌≡◌, refl, sym, ap, ◌∙◌, inl, inr, true, false, List, [], ◌∷◌, ◌++◌, arith,
  All, if◌then◌else◌, Bool-cases,
}
use carma_box_v.Base.Floats.{Float, IsOrdered}
use carma_box_v.Ellevio.Tracker.{insert_descending, sort_descending}

module _ {A : Type 0} where
  pub take_nil : (n : ℕ) → take {A = A} n [] ≡ []
  unfolding take
  take_nil zero = refl
  take_nil (suc n) = refl

  take-take : (n : ℕ) (xs : List A) → take n (take (suc n) xs) ≡ take n xs
  unfolding take
  take-take zero xs = refl
  take-take (suc n) [] = refl
  take-take (suc n) (x ∷ xs) = ap (λ ys. x ∷ ys) (take-take n xs)

  take_cons-take : (n : ℕ) (x : A) (xs : List A) → take n (x ∷ take n xs) ≡ take n (x ∷ xs)
  unfolding take
  take_cons-take zero x xs = refl
  take_cons-take (suc n) x xs = ap (λ ys. x ∷ ys) (take-take n xs)

  All-take : (P : A → Type 0) (n : ℕ) (xs : List A) → All P xs → All P (take n xs)
  unfolding take
  All-take P zero xs h = tt
  All-take P (suc n) [] h = tt
  All-take P (suc n) (x ∷ xs) h = (h.0, All-take P n xs h.1)

-- A float that is not NaN.
abbrev pub IsNumber : {F : Type 0} ⦃f : Float F⦄ → F → Type 0
IsNumber ⦃f = f⦄ x = f.le x x ≡ true

module _ {F : Type 0} ⦃f : Float F⦄ (laws : IsOrdered f) where
  open f use {lt, le}

  -- Behind all that are not below it.
  unfoldable insert_behind : F → List F → List F
  insert_behind w [] = w ∷ []
  insert_behind w (y ∷ ys) =
      let rest = insert_behind w ys in if lt y w then w ∷ y ∷ ys else y ∷ rest

  lt_trans : (x y z : F) → lt x y ≡ true → lt y z ≡ true → lt x z ≡ true
  lt_trans x y z p q = laws.lt_le_trans x y z p (laws.lt_le y z q)

  not_lt_trans :
      (x y z : F)
      → IsNumber x
      → IsNumber y
      → IsNumber z
      → lt x y ≡ false
      → lt y z ≡ false
      → lt x z ≡ false
  not_lt_trans x y z nx ny nz p q =
      let a = laws.le_or_lt y x ny nx in
      let b = laws.le_or_lt z y nz ny in
      let c = laws.le_trans z y x in let d = laws.lt_not_le x z in grind (arith, a, b, c, d)

  insert-insert_behind :
      (x w : F) (ys : List F)
      → IsNumber x
      → IsNumber w
      → All IsNumber ys
      → insert_descending x (insert_behind w ys) ≡ insert_behind w (insert_descending x ys)
  unfolding insert_descending insert_behind
  insert-insert_behind x w [] nx nw ns = ground arith
  insert-insert_behind x w (y ∷ ys) nx nw ns =
      let rest = insert-insert_behind x w ys nx nw ns.1 in
      let up = lt_trans x y w in
      let down = not_lt_trans x y w nx ns.0 nw in grind (arith, rest, up, down)

  All-insert_descending :
      (P : F → Type 0) (x : F) (ys : List F) → P x → All P ys → All P (insert_descending x ys)
  unfolding insert_descending
  All-insert_descending P x [] p ps = (p, tt)
  All-insert_descending P x (y ∷ ys) p ps = elim (Bool-cases (lt x y)) [
    | inl e ↦ rw e (ps.0, All-insert_descending P x ys p ps.1)
    | inr e ↦ rw e (p, ps)
  ]

  All-sort_descending : (P : F → Type 0) (xs : List F) → All P xs → All P (sort_descending xs)
  unfolding sort_descending
  All-sort_descending P [] ps = tt
  All-sort_descending P (x ∷ xs) ps =
      All-insert_descending P x (sort_descending xs) ps.0 (All-sort_descending P xs ps.1)

  sort_descending-append :
      (w : F) (xs : List F)
      → IsNumber w
      → All IsNumber xs
      → sort_descending (xs ++ (w ∷ [])) ≡ insert_behind w (sort_descending xs)
  unfolding sort_descending insert_behind insert_descending
  sort_descending-append w [] nw ns = refl
  sort_descending-append w (x ∷ xs) nw ns =
      ap (insert_descending x) (sort_descending-append w xs nw ns.1)
      ∙ insert-insert_behind x w (sort_descending xs) ns.0 nw (All-sort_descending IsNumber xs ns.1)

  take-insert_behind :
      (n : ℕ) (w : F) (ys : List F)
      → take n (insert_behind w (take n ys)) ≡ take n (insert_behind w ys)
  unfolding take insert_behind
  take-insert_behind zero w ys = refl
  take-insert_behind (suc n) w [] = refl
  take-insert_behind (suc n) w (y ∷ ys) = elim (Bool-cases (lt y w)) [
    | inl e ↦ rw e (ap (λ zs. w ∷ zs) (take_cons-take n y ys))
    | inr e ↦ rw e (ap (λ zs. y ∷ zs) (take-insert_behind n w ys))
  ]

  abbrev pub IsDescending : List F → Type 0
  IsDescending [] = Unit
  IsDescending (x ∷ xs) = All (λ y. lt x y ≡ false) xs × IsDescending xs

  take-IsDescending : (n : ℕ) (xs : List F) → IsDescending xs → IsDescending (take n xs)
  unfolding take
  take-IsDescending zero xs h = tt
  take-IsDescending (suc n) [] h = tt
  take-IsDescending (suc n) (x ∷ xs) h =
      (All-take (λ y. lt x y ≡ false) n xs h.0, take-IsDescending n xs h.1)

  below_each :
      (x y : F) (zs : List F)
      → IsNumber x
      → IsNumber y
      → lt x y ≡ false
      → All IsNumber zs
      → All (λ z. lt y z ≡ false) zs
      → All (λ z. lt x z ≡ false) zs
  below_each x y [] nx ny e ns h = tt
  below_each x y (z ∷ zs) nx ny e ns h =
      (not_lt_trans x y z nx ny ns.0 e h.0, below_each x y zs nx ny e ns.1 h.1)

  insert_descending-IsDescending :
      (x : F) (ys : List F)
      → IsNumber x
      → All IsNumber ys
      → IsDescending ys
      → IsDescending (insert_descending x ys)
  unfolding insert_descending
  insert_descending-IsDescending x [] nx ns h = (tt, tt)
  insert_descending-IsDescending x (y ∷ ys) nx ns h = elim (Bool-cases (lt x y)) [
    | inl e ↦
        let le_xy = laws.lt_le x y e in
        let back : lt y x ≡ false = grind (arith, laws.lt_not_le y x) in
        rw e (
          All-insert_descending (λ z. lt y z ≡ false) x ys back h.0,
          insert_descending-IsDescending x ys nx ns.1 h.1,
        )
    | inr e ↦ rw e ((e, below_each x y ys nx ns.0 e ns.1 h.0), h)
  ]

  pub sort_descending-IsDescending :
      (xs : List F) → All IsNumber xs → IsDescending (sort_descending xs)
  unfolding sort_descending
  sort_descending-IsDescending [] ns = tt
  sort_descending-IsDescending (x ∷ xs) ns =
      insert_descending-IsDescending x (sort_descending xs) ns.0
        (All-sort_descending IsNumber xs ns.1) (sort_descending-IsDescending xs ns.1)

  insert_descending_first :
      (x : F) (ys : List F) → All (λ y. lt x y ≡ false) ys → insert_descending x ys ≡ x ∷ ys
  unfolding insert_descending
  insert_descending_first x [] h = refl
  insert_descending_first x (y ∷ ys) h = rw h.0 refl

  sort_descending_fixed : (xs : List F) → IsDescending xs → sort_descending xs ≡ xs
  unfolding sort_descending
  sort_descending_fixed [] h = refl
  sort_descending_fixed (x ∷ xs) h =
      ap (insert_descending x) (sort_descending_fixed xs h.1) ∙ insert_descending_first x xs h.0

  -- The n highest of a list and one more are the n highest of those that were kept and the one more.
  pub keep_highest :
      (n : ℕ) (w : F) (xs : List F)
      → IsNumber w
      → All IsNumber xs
      → take n (sort_descending (take n (sort_descending xs) ++ (w ∷ [])))
        ≡ take n (sort_descending (xs ++ (w ∷ [])))
  keep_highest n w xs nw ns =
      let sorted = sort_descending xs in
      let kept = take n sorted in
      let numbers = All-take IsNumber n sorted (All-sort_descending IsNumber xs ns) in
      let fixed =
        sort_descending_fixed kept
          (take-IsDescending n sorted (sort_descending-IsDescending xs ns)) in
      ap (take n) (sort_descending-append w kept nw numbers ∙ ap (insert_behind w) fixed)
      ∙ take-insert_behind n w sorted
      ∙ ap (take n) (sym (sort_descending-append w xs nw ns))
