-- ===== src/Ellevio/Persist.antt =====
-- core/ellevio.py: `to_dict` and `from_dict`, which keep the month over a restart, and the values that
-- the tracker reports.
use carma_box_v.Base.{
  ℕ, ◌≡◌, refl, List, [], ◌∷◌, Option, none, some, String, length, is_empty, All, ◌==◌,
  if◌then◌else◌,
}
use carma_box_v.Base.Int.{ℤ, pos, negsuc}
use carma_box_v.Base.Floats.{Float, sum}
use carma_box_v.ModeChange.Manager.{lookup}
use carma_box_v.Dicts.{get}
use carma_box_v.Ellevio.Tracker.{EllevioState, weighted_avg_kw}

-- A value of a stored dict. The items of a list are not lists.
pub data Item (F : Type 0) : Type 0 where
  int : ℤ → Item F
  float : F → Item F
  text : String → Item F

pub data Stored (F : Type 0) : Type 0 where
  item : Item F → Stored F
  list : List (Item F) → Stored F

-- `str(x)`, and `int(s)` and `float(s)`, none for a ValueError.
pub record Texts (F : Type 0) : Type 0 where
  pub text_of : Stored F → String
  pub int_of : String → Option ℤ
  pub float_of : String → Option F

infixl 5 ◌>>=◌
abbrev ◌>>=◌ : {A B : Type 0} → Option A → (A → Option B) → Option B
none >>= k = none
some a >>= k = k a

-- A number that is not negative, as all that `to_dict` writes.
abbrev nat_of : ℤ → Option ℕ
nat_of (pos n) = some n
nat_of (negsuc n) = none

module _ {F : Type 0} where
  abbrev pub stored_int : ℕ → Stored F
  stored_int n = item (int (pos n))

  abbrev pub stored_floats : List F → List (Item F)
  stored_floats [] = []
  stored_floats (x ∷ xs) = float x ∷ stored_floats xs

  unfoldable pub to_dict : EllevioState F → List (String × Stored F)
  to_dict s =
      ("month", stored_int s.month)
      ∷ ("year", stored_int s.year)
      ∷ ("top_peaks", list (stored_floats s.top_peaks))
      ∷ ("hours_total", stored_int s.hours_total)
      ∷ ("hours_under_target", stored_int s.hours_under_target)
      ∷ ("last_hourly_kw", item (float s.last_hourly_kw))
      ∷ []

  -- `x if isinstance(x, list) else []`
  abbrev items : Stored F → List (Item F)
  items (item x) = []
  items (list xs) = xs

module _ {F : Type 0} ⦃f : Float F⦄ where
  open f use {mul, div, of_int, lit}

  unfoldable pub top_n_avg : EllevioState F → F
  top_n_avg s =
      if is_empty s.top_peaks
      then lit 0 0
      else div (sum s.top_peaks) (of_int (pos (length s.top_peaks)))

  unfoldable pub hit_rate_pct : EllevioState F → F
  hit_rate_pct s =
      if s.hours_total == 0
      then lit 100 0
      else mul (div (of_int (pos s.hours_under_target)) (of_int (pos s.hours_total))) (lit 100 0)

  -- With `cost_per_kw` of the configuration.
  unfoldable pub monthly_cost_kr : F → EllevioState F → F
  monthly_cost_kr cost_per_kw s = mul (top_n_avg s) cost_per_kw

  unfoldable pub current_weighted_avg_kw : EllevioState F → F
  current_weighted_avg_kw s = elim s.current_hour_sample [
    | none ↦ lit 0 0
    | some sample ↦ if sample.count == 0 then lit 0 0 else weighted_avg_kw sample
  ]

module _ {F : Type 0} ⦃f : Float F⦄ (texts : Texts F) where
  open f use {lit}

  -- `int(str(x))` and `float(str(x))`
  unfoldable pub read_int : Stored F → Option ℕ
  read_int x = texts.int_of (texts.text_of x) >>= nat_of

  unfoldable pub read_float : Stored F → Option F
  read_float x = texts.float_of (texts.text_of x)

  unfoldable pub read_floats : List (Item F) → Option (List F)
  read_floats [] = some []
  read_floats (x ∷ xs) = do y ← read_float (item x); ys ← read_floats xs; some (y ∷ ys)

  -- `from_dict`, none for a ValueError, or for a negative number where a count or a date stands.
  unfoldable pub from_dict : List (String × Stored F) → Option (EllevioState F)
  from_dict data_ = do
    month ← read_int (get "month" (stored_int 0) data_)
    year ← read_int (get "year" (stored_int 0) data_)
    top_peaks ← read_floats (items (get "top_peaks" (list []) data_))
    hours_total ← read_int (get "hours_total" (stored_int 0) data_)
    hours_under_target ← read_int (get "hours_under_target" (stored_int 0) data_)
    last_hourly_kw ← read_float (get "last_hourly_kw" (item (float (lit 0 0))) data_)
    some (record {
      month = month;
      year = year;
      top_peaks = top_peaks;
      hours_total = hours_total;
      hours_under_target = hours_under_target;
      current_hour_sample = none;
      last_hourly_kw = last_hourly_kw;
    })

  -- Python reads the number back from its text.
  abbrev pub IntReads : ℕ → Type 0
  IntReads n = texts.int_of (texts.text_of (stored_int n)) ≡ some (pos n)

  abbrev pub FloatReads : F → Type 0
  FloatReads x = texts.float_of (texts.text_of (item (float x))) ≡ some x

  abbrev pub Reads : EllevioState F → Type 0
  Reads s =
      IntReads s.month
      × IntReads s.year
      × All FloatReads s.top_peaks
      × IntReads s.hours_total
      × IntReads s.hours_under_target
      × FloatReads s.last_hourly_kw

  read_int-stored_int : (n : ℕ) → IntReads n → read_int (stored_int n) ≡ some n
  unfolding read_int
  read_int-stored_int n h = rw h refl

  read_floats-stored_floats :
      (xs : List F) → All FloatReads xs → read_floats (stored_floats xs) ≡ some xs
  unfolding read_floats read_float
  read_floats-stored_floats [] h = refl
  read_floats-stored_floats (x ∷ xs) h = rw (h.0, read_floats-stored_floats xs h.1) refl

  -- If Python reads the state's numbers back from their texts, `from_dict` gives what `to_dict` was
  -- given: the whole state but the sample of the hour that runs, which is dropped.
  pub from_dict-to_dict :
      (s : EllevioState F)
      → Reads s
      → from_dict (to_dict s) ≡ some (record s { current_hour_sample = none })
  unfolding from_dict to_dict lookup read_float
  from_dict-to_dict s (month, year, peaks, total, under, last) =
      rw
        (
          read_int-stored_int s.month month,
          read_int-stored_int s.year year,
          read_floats-stored_floats s.top_peaks peaks,
          read_int-stored_int s.hours_total total,
          read_int-stored_int s.hours_under_target under,
          last,
        )
        refl
