-- ===== src/Ellevio/Tests.antt =====
-- A tracker with two peaks.
use carma_box_v.Base.{
  take, ◌≡◌, refl, [], ◌∷◌, some, none, All, String, str_eq, ◌==◌, if◌then◌else◌,
}
use carma_box_v.Base.Int.{pos, ◌+ℤ◌, ◌*ℤ◌, quot}
use carma_box_v.Base.Milli.{Milli, milli_float, Milli-IsOrdered, num}
use carma_box_v.Ellevio.Tracker.{
  EllevioConfig, HourSample, EllevioState, Moment, sort_descending, weighted_avg_kw, new_month,
}
use carma_box_v.Ellevio.Sorting.{IsNumber}
use carma_box_v.Ellevio.Persist.{
  int, float, Stored, item, Texts, to_dict, from_dict, top_n_avg, hit_rate_pct, from_dict-to_dict,
}
use carma_box_v.Ellevio.Peaks.{close_hours, averages, count_under, close_hours_lem}

abbrev config : EllevioConfig Milli
config = record {
  tak_kw = num 3;
  night_weight = some (pos 500);
  day_weight = num 1;
  night_start_h = 22;
  night_end_h = 6;
  top_n = 3;
}

abbrev sample : HourSample Milli
sample = record { hour = 16; date = "2026-01-31"; sum_kw = num 8; count = 2; weight = num 1 }

abbrev night_sample : HourSample Milli
night_sample = record {
  hour = 23;
  date = "2026-01-31";
  sum_kw = num 8;
  count = 2;
  weight = some (pos 500);
}

abbrev january : EllevioState Milli
january = record {
  month = 1;
  year = 2026;
  top_peaks = num 5 ∷ num 2 ∷ [];
  hours_total = 40;
  hours_under_target = 39;
  current_hour_sample = some sample;
  last_hourly_kw = num 2;
}

abbrev five_pm : Moment
five_pm = record { year = 2026; month = 1; hour = 17; date = "2026-01-31" }

abbrev next_month : Moment
next_month = record { year = 2026; month = 2; hour = 0; date = "2026-02-01" }

averages-IsNumber : All IsNumber (averages config (sample ∷ night_sample ∷ []))
unfolding weighted_avg_kw ◌*ℤ◌ quot
averages-IsNumber = (refl, (refl, tt))

close_hours_lem_example :
    let s = close_hours config (sample ∷ night_sample ∷ []) (new_month 1 2026) in
    (s.top_peaks ≡ take 3 (sort_descending (averages config (sample ∷ night_sample ∷ []))))
    × (s.hours_total ≡ 2)
    × (s.hours_under_target
        ≡ count_under config (num 3) (averages config (sample ∷ night_sample ∷ [])))
close_hours_lem_example =
    close_hours_lem config Milli-IsOrdered 1 2026 (sample ∷ night_sample ∷ []) averages-IsNumber

-- Python's texts of the numbers that the test stores.
abbrev text_of_stored : Stored Milli → String
text_of_stored (item (int (pos n))) =
    if n == 1 then "1" else if n == 2026 then "2026" else if n == 40 then "40" else "39"
text_of_stored (item (float (some (pos n)))) = if n == 5000 then "5.0" else "2.0"
text_of_stored _ = ""

abbrev texts : Texts Milli
texts = record {
  text_of = text_of_stored;
  int_of = λ s.
      if str_eq s "1"
      then some (pos 1)
      else if str_eq s "2026"
      then some (pos 2026)
      else if str_eq s "40"
      then some (pos 40)
      else if str_eq s "39"
      then some (pos 39)
      else none;
  float_of =
      λ s. if str_eq s "5.0" then some (num 5) else if str_eq s "2.0" then some (num 2) else none;
}

from_dict-to_dict_example :
    from_dict texts (to_dict january) ≡ some (record january { current_hour_sample = none })
from_dict-to_dict_example =
    from_dict-to_dict texts january (refl, refl, (refl, (refl, tt)), refl, refl, refl)

-- The mean of the two peaks, and 39 of 40 hours under the target.
reports : (top_n_avg january ≡ some (pos 3500)) × (hit_rate_pct january ≡ some (pos 97500))
unfolding top_n_avg hit_rate_pct ◌*ℤ◌ ◌+ℤ◌ quot
reports = (refl, refl)
