-- ===== src/Executor/Texts.antt =====
-- The guards write their modes as texts.
use carma_box_v.Base.{
  ◌≡◌, refl, Bool, true, false, ◌&&◌, arith, List, [], ◌∷◌, ◌++◌, All, flat_map, if◌then◌else◌,
}
use carma_box_v.Base.Floats.{Float, gt}
use carma_box_v.Models.{Battery, CommandType, set_ems_mode, Value, text}
use carma_box_v.Guards.Types.{GuardCommand, GuardConfig, GuardInput, GuardState, ClockReads}
use carma_box_v.Guards.Evaluate.{evaluate}
use carma_box_v.Guards.Grid.{force_discharge, full_power, effective_tak_kw, shed_all}
use carma_box_v.Guards.Spec.{g0_of, g0_commands, g1_of, g2_of, g3_commands, g4_of}
use carma_box_v.Guards.Floor.{Distinct}
use carma_box_v.Guards.Order.{evaluate-commands}

module _ {F : Type 0} where
  abbrev text_if : CommandType → Value F → Bool
  text_if set_ems_mode (text s) = true
  text_if set_ems_mode _ = false
  text_if _ _ = true

  -- What is written as a mode is a text.
  abbrev pub WritesText : GuardCommand F → Type 0
  WritesText g = text_if g.command_type g.value ≡ true

  abbrev are_texts : List (GuardCommand F) → Bool
  are_texts [] = true
  are_texts (g ∷ gs) = text_if g.command_type g.value && are_texts gs

  are_texts-append :
      (xs ys : List (GuardCommand F)) → are_texts (xs ++ ys) ≡ (are_texts xs && are_texts ys)
  are_texts-append [] ys = refl
  are_texts-append (x ∷ xs) ys = ground (arith, are_texts-append xs ys)

  are_texts-flat_map :
      (g : Battery F → List (GuardCommand F)) (bats : List (Battery F))
      → ((bat : Battery F) → are_texts (g bat) ≡ true)
      → are_texts (flat_map g bats) ≡ true
  are_texts-flat_map g [] h = refl
  are_texts-flat_map g (bat ∷ bats) h =
      ground (arith, are_texts-append (g bat) (flat_map g bats), h bat, are_texts-flat_map g bats h)

  are_texts-All : (gs : List (GuardCommand F)) → are_texts gs ≡ true → All WritesText gs
  are_texts-All [] h = tt
  are_texts-All (g ∷ gs) h = (ground arith, are_texts-All gs (ground arith))

module _ {F : Type 0} ⦃f : Float F⦄ (guards : GuardConfig F) (i : GuardInput F) where
  open f use {mul}

  g0_commands_texts : are_texts (g0_commands guards i) ≡ true
  g0_commands_texts =
      ground (arith, are_texts-flat_map (g0_of guards) i.batteries (λ b. ground arith))

  g3_commands_texts : are_texts (g3_commands guards i) ≡ true
  g3_commands_texts = ground (
    arith,
    are_texts-append (flat_map (λ b. force_discharge b ∷ []) i.batteries) (
        if gt i.weighted_avg_kw (mul (effective_tak_kw guards i.hour) guards.emergency_factor)
        then shed_all ∷ flat_map (λ b. full_power b ∷ []) i.batteries
        else []),
    are_texts-flat_map (λ b. force_discharge b ∷ []) i.batteries (λ b. refl),
    are_texts-flat_map (λ b. full_power b ∷ []) i.batteries (λ b. refl),
  )

  -- If no two batteries share an id, every mode that an evaluation commands is a text.
  pub evaluate-WritesText :
      (reads : ClockReads F) (s : GuardState F)
      → Distinct i.batteries
      → All WritesText (evaluate guards i reads s).1.commands
  evaluate-WritesText reads s d =
      let held = are_texts-flat_map (g1_of guards s.at_floor) i.batteries (λ b. ground arith) in
      let fast = are_texts-flat_map g2_of i.batteries (λ b. ground arith) in
      let frozen = are_texts-flat_map (g4_of guards) i.batteries (λ b. ground arith) in
      rw (evaluate-commands guards i reads s d) (
        are_texts-All _
          (simp (are_texts-append, g0_commands_texts, held, fast, g3_commands_texts, frozen) refl))
