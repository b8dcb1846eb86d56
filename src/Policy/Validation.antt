-- ===== src/Policy/Validation.antt =====
-- pkg/syncer/bottomup/rlp/resourceleasingpolicy_controller.go: validateTimeWindows, over its own
-- copy of isValidTimeFormat. The error carries the indices that the message prints.
use kubeocean.Prelude.{
  ℕ, suc, ◌≡◌, refl, ◌↔◌, ◌⊎◌, inr, true, not, List, [], ◌∷◌, Option, none, some, arith, String,
  ◌==◌, any, Any, All, any_iff, Any-map, All-Any, of_==, to_==, if◌then◌else◌,
}
use kubeocean.Policy.TimeOfDay.{
  IsClock, is_valid_time_format_iff, is_valid_time_format, is_time_in_range-start,
}
use kubeocean.Policy.Windows.{
  TimeWindow, IsActive, is_within_time_windows, is_within_time_windows_iff,
}

pub data ValidationError : Type 0 where
  invalid_start invalid_end : ℕ → ValidationError
  invalid_day : ℕ → ℕ → ValidationError

abbrev pub valid_days : List String
valid_days = "monday" ∷ "tuesday" ∷ "wednesday" ∷ "thursday" ∷ "friday" ∷ "saturday" ∷ "sunday" ∷ []

module _ (to_lower : String → String) where
  -- The inner loop, `i` the window's index and `j` the day's.
  abbrev validate_days : ℕ → ℕ → List String → Option ValidationError
  validate_days i j [] = none
  validate_days i j (day ∷ days) =
      let rest = validate_days i (suc j) days in
      if any (λ valid_day. to_lower day == valid_day) valid_days
      then rest
      else some (invalid_day i j)

  abbrev or_else : Option ValidationError → Option ValidationError → Option ValidationError
  or_else none e = e
  or_else (some e) _ = some e

  validate_window : ℕ → TimeWindow → Option ValidationError
  validate_window i w =
      if not (is_valid_time_format w.start)
      then some (invalid_start i)
      else if not (is_valid_time_format w.end)
      then some (invalid_end i)
      else validate_days i 0 w.days

  validate_from : ℕ → List TimeWindow → Option ValidationError
  unfolding validate_window
  validate_from i [] = none
  validate_from i (w ∷ ws) = or_else (validate_window i w) (validate_from (suc i) ws)

  unfoldable pub validate_time_windows : List TimeWindow → Option ValidationError
  unfolding validate_from
  validate_time_windows ws = validate_from 0 ws

  -- One of the seven names, in any case.
  abbrev pub IsDayName : String → Type 0
  IsDayName day = Any (λ valid_day. to_lower day ≡ valid_day) valid_days

  pub record IsWellFormed (w : TimeWindow) : Type 0 where
    pub start_clock : IsClock w.start
    pub end_clock : IsClock w.end
    pub day_names : All IsDayName w.days

  validate_days_iff :
      (i j : ℕ) (days : List String) → (validate_days i j days ≡ none) ↔ All IsDayName days
  validate_days_iff i j [] = (λ _. tt, λ _. refl)
  validate_days_iff i j (day ∷ days) =
      let found = any_iff (λ valid_day. to_lower day == valid_day) valid_days in
      let rest = validate_days_iff i (suc j) days in
      (
        λ h. (
          Any-map {P = λ v. (to_lower day == v) ≡ true} {Q = λ v. to_lower day ≡ v} valid_days
              (λ x e. of_== _ _ e) (found.0 (ground arith)),
          rest.0 (ground arith),
        ),
        λ a.
            let hit : any (λ valid_day. to_lower day == valid_day) valid_days ≡ true = found.1 (
              Any-map {P = λ v. to_lower day ≡ v} {Q = λ v. (to_lower day == v) ≡ true} valid_days
                (λ x e. to_== _ _ e) a.0) in
            rw hit (rest.1 a.1),
      )

  validate_window_iff : (i : ℕ) (w : TimeWindow) → (validate_window i w ≡ none) ↔ IsWellFormed w
  unfolding validate_window
  validate_window_iff i w = (
    λ h. record {
      start_clock = (is_valid_time_format_iff w.start).0 (ground arith);
      end_clock = (is_valid_time_format_iff w.end).0 (ground arith);
      day_names = (validate_days_iff i 0 w.days).0 (ground arith);
    },
    λ f.
        rw
          (
            (is_valid_time_format_iff w.start).1 f.start_clock,
            (is_valid_time_format_iff w.end).1 f.end_clock,
          )
          ((validate_days_iff i 0 w.days).1 f.day_names),
  )

  validate_from_iff :
      (i : ℕ) (ws : List TimeWindow) → (validate_from i ws ≡ none) ↔ All IsWellFormed ws
  unfolding validate_from
  validate_from_iff i [] = (λ _. tt, λ _. refl)
  validate_from_iff i (w ∷ ws) =
      let first = validate_window_iff i w in
      let rest = validate_from_iff (suc i) ws in
      (λ h. (first.0 (ground arith), rest.0 (ground arith)), λ a. rw (first.1 a.0) (rest.1 a.1))

  -- A policy passes validation exactly when every window has well-formed ends and only names of
  -- days.
  pub validate_time_windows_iff :
      (ws : List TimeWindow) → (validate_time_windows ws ≡ none) ↔ All IsWellFormed ws
  unfolding validate_time_windows
  validate_time_windows_iff ws = validate_from_iff 0 ws

  -- A policy that passes validation is active at the start time of each of its windows, on every
  -- day of that window: validation admits no window that can never open.
  pub validated-within :
      (ws : List TimeWindow) (w : TimeWindow) (day : String)
      → validate_time_windows ws ≡ none
      → Any (λ x. x ≡ w) ws
      → (w.days ≡ []) ⊎ Any (λ d. to_lower d ≡ day) w.days
      → is_within_time_windows to_lower ws day w.start ≡ true
  validated-within ws w day v m on =
      (is_within_time_windows_iff to_lower ws day w.start).1
        (inr (All-Any ws at_start ((validate_time_windows_iff ws).0 v) m))
    where
      at_start : (x : TimeWindow) → IsWellFormed x → x ≡ w → IsActive to_lower day w.start x
      at_start x f e = record {
        on_day = rw e on;
        in_range = rw e (
            is_time_in_range-start w.start w.end
              (rw e at ((is_valid_time_format_iff x.start).1 f.start_clock))
              (rw e at ((is_valid_time_format_iff x.end).1 f.end_clock)));
      }
