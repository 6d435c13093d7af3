-- ===== src/Dicts/Fill.antt =====
-- What a loop that fills a dict leaves at the key of one of its elements.
use carma_box_v.Base.{
  Bool-cases, ◌≡◌, refl, inl, inr, Bool, true, false, List, [], ◌∷◌, some, String, arith, any,
  contains, In, if◌then◌else◌, str_eq, eq_iff, ◌∙◌,
}
use carma_box_v.ModeChange.Manager.{lookup, assign}
use carma_box_v.ModeChange.Table.{IsDict, assign-IsDict, lookup-assign, lookup-assign_other}
use carma_box_v.Dicts.{get, keys, assign_where}

module _ {A : Type 0} (key : A → String) where
  abbrev pub has_key : String → A → Bool
  has_key k x = str_eq k (key x)

  -- No two elements have the same key.
  abbrev pub DistinctBy : List A → Type 0
  DistinctBy [] = Unit
  DistinctBy (x ∷ xs) = (any (has_key (key x)) xs ≡ false) × DistinctBy xs

  has_key_apart :
      (x y : A) (ys : List A)
      → any (has_key (key y)) ys ≡ false
      → In x ys
      → has_key (key x) y ≡ false
  has_key_apart x y [] h m = elim m [ ]
  has_key_apart x y (z ∷ ys) h (inl e) =
      rw e (ground (arith, eq_iff (key y) (key z), eq_iff (key z) (key y)))
  has_key_apart x y (z ∷ ys) h (inr m) = has_key_apart x y ys (ground arith) m

  module _ {V : Type 0} (test : A → Bool) (val : A → V) where
    abbrev round : A → List (String × V) → List (String × V)
    round x d = if test x then assign (key x) (val x) d else d

    round_other :
        (k : String) (x : A) (d : List (String × V))
        → has_key k x ≡ false
        → lookup k (round x d) ≡ lookup k d
    round_other k x d h = ground (arith, lookup-assign_other k (key x) (val x) d)

    lookup-assign_where_other :
        (k : String) (xs : List A) (d : List (String × V))
        → any (has_key k) xs ≡ false
        → lookup k (assign_where test key val xs d) ≡ lookup k d
    unfolding assign_where
    lookup-assign_where_other k [] d h = refl
    lookup-assign_where_other k (x ∷ xs) d h =
        lookup-assign_where_other k xs (round x d) (ground arith) ∙ round_other k x d (ground arith)

    -- A loop that sets the key of each element which passes the test, the keys distinct.
    pub lookup-assign_where :
        (x : A) (xs : List A) (d : List (String × V))
        → DistinctBy xs
        → In x xs
        → lookup (key x) (assign_where test key val xs d)
          ≡ (if test x then some (val x) else lookup (key x) d)
    unfolding assign_where
    lookup-assign_where x [] d h m = elim m [ ]
    lookup-assign_where x (y ∷ ys) d h (inl e) = rw e (
        lookup-assign_where_other (key y) ys (round y d) h.0
        ∙ ground (arith, lookup-assign (key y) (val y) d))
    lookup-assign_where x (y ∷ ys) d h (inr m) =
        let set = lookup-assign_where x ys (round y d) h.1 m in
        let kept = round_other (key x) y d (has_key_apart x y ys h.0 m) in ground (arith, set, kept)

pub assign_where-IsDict :
    {A V : Type 0} (test : A → Bool) (key : A → String) (val : A → V) (xs : List A)
    (d : List (String × V))
    → IsDict d
    → IsDict (assign_where test key val xs d)
unfolding assign_where
assign_where-IsDict test key val [] d h = h
assign_where-IsDict test key val (x ∷ xs) d h =
    assign_where-IsDict test key val xs (if test x then assign (key x) (val x) d else d)
      (elim (Bool-cases (test x)) [
        | inl e ↦ rw e (assign-IsDict (key x) (val x) d h)
        | inr e ↦ rw e h
      ])

module _ {V : Type 0} where
  pub contains-keys :
      (k : String) (v : V) (d : List (String × V))
      → lookup k d ≡ some v
      → contains k (keys d) ≡ true
  unfolding lookup
  contains-keys k v [] h = ground arith
  contains-keys k v ((j, w) ∷ d) h = ground (arith, contains-keys k v d)

  get-assign :
      (P : V → Type 0) (i k : String) (u v : V) (d : List (String × V))
      → P v
      → P (get i u d)
      → P (get i u (assign k v d))
  get-assign P i k u v d p q = elim (Bool-cases (str_eq i k)) [
    | inl same ↦ rw ((eq_iff i k).0 same, get, lookup-assign k v d) p
    | inr other ↦ rw (get, lookup-assign_other i k v d other) q
  ]

  -- What holds of each value that the loop sets, and of what is read otherwise, holds of what is read
  -- after it.
  pub get-assign_where :
      {A : Type 0} (P : V → Type 0) (test : A → Bool) (key : A → String) (val : A → V) (i : String)
      (u : V) (xs : List A) (d : List (String × V))
      → ((x : A) → P (val x))
      → P (get i u d)
      → P (get i u (assign_where test key val xs d))
  unfolding assign_where
  get-assign_where P test key val i u [] d h q = q
  get-assign_where P test key val i u (x ∷ xs) d h q =
      get-assign_where P test key val i u xs (if test x then assign (key x) (val x) d else d) h
        (elim (Bool-cases (test x)) [
          | inl e ↦ rw e (get-assign P i (key x) u (val x) d (h x) q)
          | inr e ↦ rw e q
        ])
