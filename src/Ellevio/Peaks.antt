-- ===== src/Ellevio/Peaks.antt =====
-- The peaks that a tracker keeps are the highest of all the hours it has closed.
use carma_box_v.Base.{
  take, append-nil, append_assoc, ℕ, ◌+◌, ◌≡◌, sym, ap, ◌∙◌, List, [], ◌∷◌, ◌++◌, arith, All,
  All-append, length, if◌then◌else◌,
}
use carma_box_v.Base.Floats.{Float, IsOrdered}
use carma_box_v.Ellevio.Tracker.{
  EllevioConfig, HourSample, EllevioState, sort_descending, weighted_avg_kw, close_hour, new_month,
}
use carma_box_v.Ellevio.Sorting.{IsNumber, keep_highest, take_nil}

module _ {F : Type 0} ⦃f : Float F⦄ (cfg : EllevioConfig F) where
  -- The hours closed one after the other.
  unfoldable pub close_hours : List (HourSample F) → EllevioState F → EllevioState F
  close_hours [] s = s
  close_hours (x ∷ xs) s = close_hours xs (close_hour cfg x s)

  abbrev pub averages : List (HourSample F) → List F
  averages [] = []
  averages (x ∷ xs) = weighted_avg_kw x ∷ averages xs

  abbrev pub count_under : F → List F → ℕ
  count_under tak [] = 0
  count_under tak (x ∷ xs) = (if f.le x tak then 1 else 0) + count_under tak xs

  close_hours-counts :
      (xs : List (HourSample F)) (s : EllevioState F)
      → ((close_hours xs s).hours_total ≡ s.hours_total + length xs)
        × ((close_hours xs s).hours_under_target
            ≡ s.hours_under_target + count_under cfg.tak_kw (averages xs))
  unfolding close_hours close_hour
  close_hours-counts [] s = (omega arith, omega arith)
  close_hours-counts (x ∷ xs) s =
      let (total, under) = close_hours-counts xs (close_hour cfg x s) in
      (ground (arith, total), ground (arith, under))

  close_hours-top_peaks :
      (laws : IsOrdered f) (xs : List (HourSample F)) (before : List F) (s : EllevioState F)
      → All IsNumber (averages xs)
      → All IsNumber before
      → s.top_peaks ≡ take cfg.top_n (sort_descending before)
      → (close_hours xs s).top_peaks ≡ take cfg.top_n (sort_descending (before ++ averages xs))
  unfolding close_hours close_hour
  close_hours-top_peaks laws [] before s ns nb h =
      h ∙ ap (λ ys. take cfg.top_n (sort_descending ys)) (sym (append-nil before))
  close_hours-top_peaks laws (x ∷ xs) before s ns nb h =
      let w = weighted_avg_kw x in
      let more = before ++ (w ∷ []) in
      let kept : (close_hour cfg x s).top_peaks ≡ take cfg.top_n (sort_descending more) =
        rw h (keep_highest laws cfg.top_n w before ns.0 nb) in
      close_hours-top_peaks laws xs more (close_hour cfg x s) ns.1
        (All-append IsNumber before (w ∷ []) nb (ns.0, tt)) kept
      ∙ ap (λ ys. take cfg.top_n (sort_descending ys)) (append_assoc before (w ∷ []) (averages xs))

  -- With ordered floats, and averages that are numbers: after a new month has closed any hours, the
  -- peaks are the top_n highest of all their weighted averages in descending order, every hour is
  -- counted, and just the hours at or below the tak are counted as under the target.
  pub close_hours_lem :
      (laws : IsOrdered f) (month year : ℕ) (xs : List (HourSample F))
      → All IsNumber (averages xs)
      → let s = close_hours xs (new_month month year) in
        (s.top_peaks ≡ take cfg.top_n (sort_descending (averages xs)))
        × (s.hours_total ≡ length xs)
        × (s.hours_under_target ≡ count_under cfg.tak_kw (averages xs))
  unfolding new_month sort_descending
  close_hours_lem laws month year xs ns =
      let s : EllevioState F = new_month month year in
      let (total, under) = close_hours-counts xs s in
      (
        close_hours-top_peaks laws xs [] s ns tt (sym (take_nil cfg.top_n)),
        ground (arith, total),
        ground (arith, under),
      )
