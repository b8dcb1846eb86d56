-- ===== src/Tests/Policy.antt =====
-- Time windows at concrete times.
use kubeocean.Policy.TimeOfDay.{
  clock, minute_of, minute_in_range, IsClock, is_valid_time_format, is_time_in_range,
  is_valid_time_format_iff, is_time_in_range-minutes,
}
use kubeocean.Policy.Windows.{
  TimeWindow, IsActive, is_within_time_windows, is_within_time_windows_iff,
}
use kubeocean.Policy.Validation.{
  IsWellFormed, validate_time_windows, validate_time_windows_iff, validated-within,
}
use kubeocean.Prelude.{
  ◌≡◌, refl, ◌↔◌, ◌⊎◌, inl, inr, true, false, none, [], ◌∷◌, arith, String, str_dec, Any, All,
}

-- Office hours on two days, and a window over midnight on every day.
abbrev office : TimeWindow
office = record { start = clock 9 0; end = clock 17 30; days = "monday" ∷ "friday" ∷ [] }

abbrev night : TimeWindow
night = record { start = clock 22 0; end = clock 6 0; days = [] }

-- On lower-case names strings.ToLower is the identity.
abbrev lower : String → String
lower s = s

is_valid_time_format_iff_example : (is_valid_time_format (clock 9 0) ≡ true) ↔ IsClock (clock 9 0)
is_valid_time_format_iff_example = is_valid_time_format_iff (clock 9 0)

is_time_in_range-minutes_example :
    is_time_in_range (clock 23 15) (clock 22 0) (clock 6 0)
    ≡ minute_in_range (minute_of 23 15) (minute_of 22 0) (minute_of 6 0)
is_time_in_range-minutes_example =
    is_time_in_range-minutes 23 15 22 0 6 0 (omega arith) (omega arith) (omega arith) (omega arith)
      (omega arith) (omega arith)

is_within_time_windows_iff_example :
    (is_within_time_windows lower (office ∷ night ∷ []) "sunday" (clock 5 59) ≡ true) ↔ (
      (office ∷ night ∷ [] ≡ []) ⊎ Any (IsActive lower "sunday" (clock 5 59)) (office ∷ night ∷ []))
is_within_time_windows_iff_example =
    is_within_time_windows_iff lower (office ∷ night ∷ []) "sunday" (clock 5 59)

validate_time_windows_iff_example :
    (validate_time_windows lower (office ∷ []) ≡ none) ↔ All (IsWellFormed lower) (office ∷ [])
validate_time_windows_iff_example = validate_time_windows_iff lower (office ∷ [])

office_validated : validate_time_windows lower (office ∷ night ∷ []) ≡ none
unfolding validate_time_windows is_valid_time_format str_dec
office_validated = refl

validated-within_example :
    is_within_time_windows lower (office ∷ night ∷ []) "friday" (clock 9 0) ≡ true
validated-within_example =
    validated-within lower (office ∷ night ∷ []) office "friday" office_validated (inl refl)
      (inr (inr (inl refl)))

-- Within the night window after midnight, and outside office hours on a Monday.
night_open : is_within_time_windows lower (office ∷ night ∷ []) "sunday" (clock 5 59) ≡ true
unfolding is_within_time_windows is_time_in_range is_valid_time_format str_dec
night_open = refl

office_closed : is_within_time_windows lower (office ∷ []) "monday" (clock 17 31) ≡ false
unfolding is_within_time_windows is_time_in_range is_valid_time_format str_dec
office_closed = refl
