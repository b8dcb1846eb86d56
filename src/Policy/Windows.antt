-- ===== src/Policy/Windows.antt =====
-- api/v1beta1/resourceleasingpolicy_types.go: TimeWindow and IsWithinTimeWindows.
-- `to_lower` is strings.ToLower.
use kubeocean.Prelude.{
  ◌≡◌, refl, ◌↔◌, ◌⊎◌, inl, inr, Bool, true, false, ◌||◌, List, [], ◌∷◌, arith, String, ◌==◌, any,
  Any, Any-map, any_iff, of_==, to_==, if◌then◌else◌,
}
use kubeocean.Policy.TimeOfDay.{Bytes, is_time_in_range}

pub record TimeWindow : Type 0 where
  pub start : Bytes
  pub end : Bytes
  pub days : List String

abbrev pub is_empty {ℓ} : {A : Type ℓ} → List A → Bool
is_empty [] = true
is_empty (_ ∷ _) = false

module _ (to_lower : String → String) where
  pub day_matches : TimeWindow → String → Bool
  day_matches w current_day = is_empty w.days || any (λ day. to_lower day == current_day) w.days

  -- The body of the loop over the windows.
  pub is_window_active : String → Bytes → TimeWindow → Bool
  unfolding day_matches
  is_window_active current_day current_time w =
      if day_matches w current_day then is_time_in_range current_time w.start w.end else false

  unfoldable pub is_within_time_windows : List TimeWindow → String → Bytes → Bool
  unfolding is_window_active
  is_within_time_windows windows current_day current_time =
      if is_empty windows then true else any (is_window_active current_day current_time) windows

  -- The day is one of a window's days, or the window has none, and the time lies in its range.
  pub record IsActive (day : String) (time : Bytes) (w : TimeWindow) : Type 0 where
    pub on_day : (w.days ≡ []) ⊎ Any (λ d. to_lower d ≡ day) w.days
    pub in_range : is_time_in_range time w.start w.end ≡ true

  day_matches_iff :
      (w : TimeWindow) (day : String)
      → (day_matches w day ≡ true) ↔ ((w.days ≡ []) ⊎ Any (λ d. to_lower d ≡ day) w.days)
  unfolding day_matches
  day_matches_iff w day = split w.days
    where
      split :
          (days : List String)
          → ((is_empty days || any (λ d. to_lower d == day) days) ≡ true)
            ↔ ((days ≡ []) ⊎ Any (λ d. to_lower d ≡ day) days)
      split [] = (λ _. inl refl, λ _. refl)
      split (d ∷ ds) = (
        λ h. inr (Any-map (d ∷ ds) (λ x e. of_== _ _ e) ((any_iff _ (d ∷ ds)).0 h)),
        elim [
          | inl e ↦ absurd (ground arith)
          | inr r ↦ (any_iff _ (d ∷ ds)).1 (Any-map (d ∷ ds) (λ x e. to_== _ _ e) r)
        ],
      )

  is_window_active_iff :
      (day : String) (time : Bytes) (w : TimeWindow)
      → (is_window_active day time w ≡ true) ↔ IsActive day time w
  unfolding is_window_active
  is_window_active_iff day time w = (
    λ h. record {
      on_day = (day_matches_iff w day).0 (unfold is_window_active in ground arith);
      in_range = ground arith;
    },
    λ a. rw ((day_matches_iff w day).1 a.on_day) a.in_range,
  )

  -- A policy is active exactly when it has no window, or when some window has the day among its
  -- days, or has no days, and has the time in its range.
  pub is_within_time_windows_iff :
      (ws : List TimeWindow) (day : String) (time : Bytes)
      → (is_within_time_windows ws day time ≡ true) ↔ ((ws ≡ []) ⊎ Any (IsActive day time) ws)
  unfolding is_within_time_windows
  is_within_time_windows_iff [] day time = (λ _. inl refl, λ _. refl)
  is_within_time_windows_iff (w ∷ ws) day time = (
    λ h.
        inr
          (Any-map (w ∷ ws) (λ x. (is_window_active_iff day time x).0) ((any_iff _ (w ∷ ws)).0 h)),
    elim [
      | inl e ↦ absurd (ground arith)
      | inr r ↦
          (any_iff _ (w ∷ ws)).1 (Any-map (w ∷ ws) (λ x. (is_window_active_iff day time x).1) r)
    ],
  )
