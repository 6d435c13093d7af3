-- ===== src/Ellevio/Hours.antt =====
-- The readings of one hour, and what a new month does to the hour before it.
use carma_box_v.Base.{
  ℕ, suc, ◌+◌, ◌<◌, ◌≡◌, refl, ap, ◌∙◌, Bool, true, false, not, ◌&&◌, List, [], ◌∷◌, Option, none,
  some, arith, length, ◌==◌, eq_iff,
}
use carma_box_v.Base.Int.{pos}
use carma_box_v.Base.Floats.{Float, fmax}
use carma_box_v.Models.{sum_of}
use carma_box_v.Ellevio.Tracker.{
  EllevioConfig, HourSample, EllevioState, Moment, weighted_avg_kw, close_hour, new_month,
  weight_at, reset_month, start_hour, is_same_hour, open_hour, add_sample, update,
}

module _ {F : Type 0} ⦃f : Float F⦄ (cfg : EllevioConfig F) where
  open f use {mul, div, of_int, lit}

  -- A run of readings at moments of the same hour.
  unfoldable pub updates : List F → Moment → EllevioState F → EllevioState F
  updates [] now s = s
  updates (k ∷ ks) now s = updates ks now (update cfg k now s).0

  abbrev pub IsMonth : Moment → EllevioState F → Type 0
  IsMonth now s = (s.month ≡ now.month) × (s.year ≡ now.year)

  abbrev pub total_import : F → List F → F
  total_import = sum_of (λ k. fmax (lit 0 0) k)

  reset_month_same : (now : Moment) (s : EllevioState F) → IsMonth now s → reset_month now s ≡ s
  unfolding reset_month
  reset_month_same now s h = ground arith

  -- The sample after some more readings.
  abbrev pub extend : HourSample F → List F → HourSample F
  extend x ks = record x { sum_kw = total_import x.sum_kw ks; count = x.count + length ks }

  update_same :
      (k : F) (now : Moment) (s : EllevioState F) (x : HourSample F)
      → IsMonth now s
      → s.current_hour_sample ≡ some x
      → is_same_hour now x ≡ true
      → (update cfg k now s).0 ≡ record s { current_hour_sample = some (add_sample k x) }
  unfolding update open_hour
  update_same k now s x h e same = rw (reset_month_same now s h, e, same) refl

  updates_same :
      (ks : List F) (now : Moment) (s : EllevioState F) (x : HourSample F)
      → IsMonth now s
      → s.current_hour_sample ≡ some x
      → is_same_hour now x ≡ true
      → updates ks now s ≡ record s { current_hour_sample = some (extend x ks) }
  unfolding updates add_sample sum_of
  updates_same [] now s x h e same =
      let with : ℕ → Option (HourSample F) = λ n. some (record x { count = n }) in
      let same_count : x.count ≡ x.count + 0 = omega arith in
      ap (λ o. record s { current_hour_sample = o }) (e ∙ ap with same_count)
  updates_same (k ∷ ks) now s x h e same =
      let counted : ℕ → EllevioState F =
        λ n. record s { current_hour_sample = some (record (extend x (k ∷ ks)) { count = n }) } in
      let one_more : x.count + 1 + length ks ≡ x.count + suc (length ks) = omega arith in
      let s1 : EllevioState F = record s { current_hour_sample = some (add_sample k x) } in
      ap (updates ks now) (update_same k now s x h e same)
      ∙ updates_same ks now s1 (add_sample k x) h refl same
      ∙ ap counted one_more

  -- The tracker has no sample of the moment's hour.
  abbrev pub is_other_hour : Moment → Option (HourSample F) → Bool
  is_other_hour now none = true
  is_other_hour now (some x) = not (is_same_hour now x)

  open_hour_other :
      (now : Moment) (s : EllevioState F)
      → is_other_hour now s.current_hour_sample ≡ true
      → (open_hour cfg now s).0 ≡ start_hour cfg now
  unfolding open_hour
  open_hour_other now s h = ground arith

  open_hour-IsMonth :
      (now : Moment) (s : EllevioState F) → IsMonth now s → IsMonth now (open_hour cfg now s).1
  unfolding open_hour close_hour
  open_hour-IsMonth now s h = ground arith

  start_hour-same :
      (k : F) (now : Moment) → is_same_hour now (add_sample k (start_hour cfg now)) ≡ true
  unfolding start_hour add_sample
  start_hour-same k now = ground (arith, eq_iff now.date now.date)

  update_other :
      (k : F) (now : Moment) (s : EllevioState F)
      → IsMonth now s
      → is_other_hour now s.current_hour_sample ≡ true
      → (update cfg k now s).0 ≡ record (open_hour cfg now s).1 {
        current_hour_sample = some (add_sample k (start_hour cfg now));
      }
  unfolding update
  update_other k now s h other = rw (reset_month_same now s h, open_hour_other now s other) refl

  extend-add_sample :
      (k : F) (ks : List F) (x : HourSample F) → extend (add_sample k x) ks ≡ extend x (k ∷ ks)
  unfolding add_sample sum_of
  extend-add_sample k ks x =
      let counted : ℕ → HourSample F = λ n. record (extend x (k ∷ ks)) { count = n } in
      let one_more : x.count + 1 + length ks ≡ x.count + suc (length ks) = omega arith in
      ap counted one_more

  extend-mean :
      (ks : List F) (x : HourSample F)
      → 0 < length ks
      → x.count ≡ 0
      → weighted_avg_kw (extend x ks)
        ≡ mul (div (total_import x.sum_kw ks) (of_int (pos (length ks)))) x.weight
  unfolding weighted_avg_kw
  extend-mean ks x some_reads none_yet =
      let n : x.count + length ks ≡ length ks = omega arith in
      let not_zero : (length ks == 0) ≡ false = ground arith in rw (n, not_zero) refl

  -- Readings of one hour, which is in the month of the tracker and of which it has no sample yet: the
  -- hour before is closed if it was sampled, and the weighted average in the end is the mean of the
  -- imports, an export counting as 0, times the weight of the hour.
  pub updates_lem :
      (k : F) (ks : List F) (now : Moment) (s : EllevioState F)
      → IsMonth now s
      → is_other_hour now s.current_hour_sample ≡ true
      → let all = k ∷ ks in
        (updates all now s ≡ record (open_hour cfg now s).1 {
          current_hour_sample = some (extend (start_hour cfg now) all);
        })
        × (weighted_avg_kw (extend (start_hour cfg now) all)
            ≡ mul
                (div (total_import (lit 0 0) all) (of_int (pos (length all))))
                (weight_at cfg now.hour))
  unfolding updates start_hour
  updates_lem k ks now s h other =
      let s1 : EllevioState F = record (open_hour cfg now s).1 {
        current_hour_sample = some (add_sample k (start_hour cfg now));
      } in
      (
        ap (updates ks now) (update_other k now s h other)
            ∙ updates_same ks now s1 (add_sample k (start_hour cfg now)) (open_hour-IsMonth now s h)
                refl (start_hour-same k now)
            ∙ ap (λ x. record s1 { current_hour_sample = some x })
                (extend-add_sample k ks (start_hour cfg now)),
        extend-mean (k ∷ ks) (start_hour cfg now) (omega arith) refl,
      )

  reset_month_other :
      (now : Moment) (s : EllevioState F)
      → (s.month == now.month) && (s.year == now.year) ≡ false
      → reset_month now s ≡ new_month now.month now.year
  unfolding reset_month
  reset_month_other now s other = ground arith

  new_month-IsMonth : (now : Moment) → IsMonth now (new_month now.month now.year)
  unfolding new_month
  new_month-IsMonth now = (refl, refl)

  -- A reading in another month gives the same as one after a fresh start in that month: the sample of
  -- the last hour before it is not closed.
  pub update-new_month :
      (k : F) (now : Moment) (s : EllevioState F)
      → (s.month == now.month) && (s.year == now.year) ≡ false
      → update cfg k now s ≡ update cfg k now (new_month now.month now.year)
  unfolding update
  update-new_month k now s other =
      let fresh : EllevioState F = new_month now.month now.year in
      rw (reset_month_other now s other, reset_month_same now fresh (new_month-IsMonth now)) refl
