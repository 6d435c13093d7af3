-- ===== src/Budget/Written.antt =====
-- A limit is written for each battery.
use carma_box_v.Base.{
  ◌≡◌, refl, inl, inr, Bool, true, false, not, ◌&&◌, List, [], ◌∷◌, ◌++◌, some, String, arith, In,
  contains, Bool-cases, str_eq, eq_iff,
}
use carma_box_v.Base.Int.{ℤ}
use carma_box_v.Executor.Types.{Command}
use carma_box_v.ModeChange.Manager.{lookup}
use carma_box_v.Dicts.{get}
use carma_box_v.Budget.Batteries.{
  set_limit_command, set_mode_command, fast_off_command, only_if, bat_commands_of, bat_commands,
}

pub In-append_l : {A : Type 0} (x : A) (xs ys : List A) → In x xs → In x (xs ++ ys)
In-append_l x [] ys m = elim m [ ]
In-append_l x (y ∷ xs) ys (inl e) = inl e
In-append_l x (y ∷ xs) ys (inr m) = inr (In-append_l x xs ys m)

pub In-append_r : {A : Type 0} (x : A) (xs ys : List A) → In x ys → In x (xs ++ ys)
In-append_r x [] ys m = m
In-append_r x (y ∷ xs) ys m = inr (In-append_r x xs ys m)

In-after :
    {F : Type 0} (b : Bool) (c d : Command F) (rest : List (Command F))
    → In d (only_if b c ++ (d ∷ rest))
In-after true c d rest = inr (inl refl)
In-after false c d rest = inl refl

module _ (F : Type 0) where
  limit_own :
      (targets current_modes : List (String × String)) (bad : List String) (j : String) (v : ℤ)
      → In (set_limit_command j v) (bat_commands_of {F = F} targets current_modes bad (j, v))
  unfolding bat_commands_of
  limit_own targets current_modes bad j v =
      let target = get j "battery_standby" targets in
      let normal = not (contains j bad) in
      let writes = normal && not (str_eq (get j "" current_modes) target) in
      In-after {F = F} writes (set_mode_command j target) (set_limit_command j v)
        (only_if normal (fast_off_command j))

  -- The limit of each battery is written.
  pub limit_written :
      (targets current_modes : List (String × String)) (bad : List String) (k : String) (w : ℤ)
      (alloc : List (String × ℤ))
      → lookup k alloc ≡ some w
      → In (set_limit_command k w) (bat_commands {F = F} targets current_modes bad alloc)
  unfolding bat_commands bat_commands_of lookup
  limit_written targets current_modes bad k w [] h = ground arith
  limit_written targets current_modes bad k w ((j, v) ∷ alloc) h =
      let own = bat_commands_of {F = F} targets current_modes bad (j, v) in
      let rest = bat_commands {F = F} targets current_modes bad alloc in
      elim (Bool-cases (str_eq k j)) [
        | inl e ↦
            let same : k ≡ j = (eq_iff k j).0 e in
            let found : w ≡ v = grind (arith, h, e) in
            rw (same, found)
              (In-append_l (set_limit_command j v) own rest
                (limit_own targets current_modes bad j v))
        | inr e ↦
            In-append_r (set_limit_command k w) own rest
              (limit_written targets current_modes bad k w alloc (grind (arith, h, e)))
      ]
