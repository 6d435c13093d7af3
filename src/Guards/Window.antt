-- ===== src/Guards/Window.antt =====
-- G5, oscillation: the window of mode changes.
use carma_box_v.Base.{
  ℕ, suc, ◌≡◌, refl, Bool-cases, inl, inr, true, false, List, [], ◌∷◌, arith, if◌then◌else◌, length,
  All, ap, sym, leb,
}
use carma_box_v.Base.Floats.{Float, IsOrdered}
use carma_box_v.Guards.Types.{GuardConfig, GuardState, GuardInput, ClockReads}
use carma_box_v.Guards.Grid.{purge, check_g5}
use carma_box_v.Guards.Evaluate.{touch_contact, check_batteries, check_site, evaluate}

module _ {F : Type 0} ⦃f : Float F⦄ where
  open f use {lt, le, add, sub, of_int}

  -- The timestamps of a deque in the order in which a monotonic clock gave them.
  abbrev pub IsRising : List F → Type 0
  IsRising [] = Unit
  IsRising (t ∷ ts) = All (λ u. le t u ≡ true) ts × IsRising ts

  -- The number of timestamps that are not before the start of the window.
  abbrev pub count_recent : F → List F → ℕ
  count_recent start [] = 0
  count_recent start (t ∷ ts) = let n = count_recent start ts in if lt t start then n else suc n

  module _ (laws : IsOrdered f) where
    none_before :
        (start t : F) (ts : List F)
        → lt t start ≡ false
        → All (λ u. le t u ≡ true) ts
        → All (λ u. lt u start ≡ false) ts
    none_before start t [] h a = tt
    none_before start t (u ∷ ts) h (a, as') =
        (ground (arith, laws.le_lt_trans t u start a), none_before start t ts h as')

  length-purge_rising :
      (start : F) (ts : List F)
      → All (λ u. lt u start ≡ false) ts
      → count_recent start ts ≡ length ts
  length-purge_rising start [] a = refl
  length-purge_rising start (t ∷ ts) (a, rest) = rw (a, length-purge_rising start ts rest)

  module _ (laws : IsOrdered f) where
    length-purge :
        (start : F) (ts : List F) → IsRising ts → length (purge start ts) ≡ count_recent start ts
    unfolding purge
    length-purge start [] r = refl
    length-purge start (t ∷ ts) (a, r) = elim (Bool-cases (lt t start)) [
      | inl e ↦ rw e (length-purge start ts r)
      | inr e ↦ rw e (ap suc (sym (length-purge_rising start ts (none_before laws start t ts e a))))
    ]

    purge_recent :
        (start : F) (ts : List F) → IsRising ts → All (λ u. lt u start ≡ false) (purge start ts)
    unfolding purge
    purge_recent start [] r = tt
    purge_recent start (t ∷ ts) (a, r) = elim (Bool-cases (lt t start)) [
      | inl e ↦ rw e (purge_recent start ts r)
      | inr e ↦ rw e (e, none_before laws start t ts e a)
    ]

    -- With ordered floats and mode changes recorded in the order of time: an evaluation forgets just
    -- the mode changes before its window, and it doubles the deadband for the configured time from its
    -- reading of the clock exactly when the window holds too many; otherwise the deadband stays.
    pub evaluate_oscillation :
        (cfg : GuardConfig F) (i : GuardInput F) (reads : ClockReads F) (s : GuardState F)
        → IsRising s.mode_changes
        → let start = sub reads.at_window (of_int cfg.window_s) in
          let s' = (evaluate cfg i reads s).0 in
          (length s'.mode_changes ≡ count_recent start s.mode_changes)
          × All (λ u. lt u start ≡ false) s'.mode_changes
          × (s'.deadband_doubled_until ≡ (
              if leb cfg.max_changes_per_window (count_recent start s.mode_changes)
              then add reads.at_window (of_int cfg.doubled_deadband_s)
              else s.deadband_doubled_until))
    unfolding evaluate check_batteries check_site check_g5 touch_contact
    evaluate_oscillation cfg i reads s r =
        let start = sub reads.at_window (of_int cfg.window_s) in
        ground (arith, length-purge start s.mode_changes r, purge_recent start s.mode_changes r)
