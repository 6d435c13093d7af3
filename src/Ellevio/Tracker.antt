-- ===== src/Ellevio/Tracker.antt =====
-- core/ellevio.py: `EllevioTracker`. A moment is its year, month, hour and the text of its date.
use carma_box_v.Base.{
  take, ℕ, ◌+◌, Bool, not, ◌&&◌, ◌||◌, List, [], ◌∷◌, ◌++◌, Option, none, some, String, ltb, leb,
  ◌==◌, if◌then◌else◌, str_eq,
}
use carma_box_v.Base.Int.{pos}
use carma_box_v.Base.Floats.{Float, fmax}

pub record EllevioConfig (F : Type 0) : Type 0 where
  pub tak_kw : F
  pub night_weight : F
  pub day_weight : F
  pub night_start_h : ℕ
  pub night_end_h : ℕ
  pub top_n : ℕ

pub record HourSample (F : Type 0) : Type 0 where
  pub hour : ℕ
  pub date : String
  pub sum_kw : F
  pub count : ℕ
  pub weight : F

pub record EllevioState (F : Type 0) : Type 0 where
  pub month : ℕ
  pub year : ℕ
  pub top_peaks : List F
  pub hours_total : ℕ
  pub hours_under_target : ℕ
  pub current_hour_sample : Option (HourSample F)
  pub last_hourly_kw : F

-- What `update` reads of its `datetime`.
pub record Moment : Type 0 where
  pub year : ℕ
  pub month : ℕ
  pub hour : ℕ
  pub date : String

module _ {F : Type 0} ⦃f : Float F⦄ where
  open f use {lt, le, add, mul, div, of_int, lit}

  -- Python's `sort(reverse=True)`, which is stable; with a NaN in the list the order that Python leaves
  -- may be another one.
  unfoldable pub insert_descending : F → List F → List F
  insert_descending x [] = x ∷ []
  insert_descending x (y ∷ ys) =
      let rest = insert_descending x ys in if lt x y then y ∷ rest else x ∷ y ∷ ys

  unfoldable pub sort_descending : List F → List F
  sort_descending [] = []
  sort_descending (x ∷ xs) = insert_descending x (sort_descending xs)

  unfoldable pub weighted_avg_kw : HourSample F → F
  weighted_avg_kw s =
      if s.count == 0 then lit 0 0 else mul (div s.sum_kw (of_int (pos s.count))) s.weight

  -- `EllevioState(month=..., year=...)`
  unfoldable pub new_month : ℕ → ℕ → EllevioState F
  new_month month year = record {
    month = month;
    year = year;
    top_peaks = [];
    hours_total = 0;
    hours_under_target = 0;
    current_hour_sample = none;
    last_hourly_kw = lit 0 0;
  }

  unfoldable pub close_hour : EllevioConfig F → HourSample F → EllevioState F → EllevioState F
  close_hour cfg sample s =
      let weighted = weighted_avg_kw sample in
      record s {
        last_hourly_kw = weighted;
        hours_total = s.hours_total + 1;
        hours_under_target =
            if le weighted cfg.tak_kw then s.hours_under_target + 1 else s.hours_under_target;
        top_peaks = take cfg.top_n (sort_descending (s.top_peaks ++ (weighted ∷ [])));
      }

  unfoldable pub weight_at : EllevioConfig F → ℕ → F
  weight_at cfg hour =
      if leb cfg.night_start_h hour || ltb hour cfg.night_end_h
      then cfg.night_weight
      else cfg.day_weight

  unfoldable pub reset_month : Moment → EllevioState F → EllevioState F
  reset_month now s =
      if not (s.month == now.month) || not (s.year == now.year)
      then new_month now.month now.year
      else s

  unfoldable pub start_hour : EllevioConfig F → Moment → HourSample F
  start_hour cfg now = record {
    hour = now.hour;
    date = now.date;
    sum_kw = lit 0 0;
    count = 0;
    weight = weight_at cfg now.hour;
  }

  abbrev pub is_same_hour : Moment → HourSample F → Bool
  is_same_hour now sample = (sample.hour == now.hour) && str_eq sample.date now.date

  -- The sample of the moment's hour and the state with the previous hour closed, if it is over.
  unfoldable pub open_hour :
      EllevioConfig F → Moment → EllevioState F → HourSample F × EllevioState F
  open_hour cfg now s = elim s.current_hour_sample [
    | none ↦ (start_hour cfg now, s)
    | some sample ↦
        if is_same_hour now sample
        then (sample, s)
        else if ltb 0 sample.count
        then (start_hour cfg now, close_hour cfg sample s)
        else (start_hour cfg now, s)
  ]

  unfoldable pub add_sample : F → HourSample F → HourSample F
  add_sample import_kw sample = record sample {
    sum_kw = add sample.sum_kw (fmax (lit 0 0) import_kw);
    count = sample.count + 1;
  }

  -- `update`; the result is `current_weighted_avg_kw`.
  unfoldable pub update : EllevioConfig F → F → Moment → EllevioState F → EllevioState F × F
  update cfg import_kw now s =
      let (sample, s') = open_hour cfg now (reset_month now s) in
      let sample' = add_sample import_kw sample in
      (record s' { current_hour_sample = some sample' }, weighted_avg_kw sample')
