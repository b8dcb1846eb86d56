-- ===== src/Policy/TimeOfDay.antt =====
-- api/v1beta1/resourceleasingpolicy_types.go: isValidTimeFormat and isTimeInRange.
use kubeocean.Prelude.{
  ℕ, ◌+◌, ◌*◌, ◌-◌, ◌/◌, ◌%◌, ◌<◌, ◌≡◌, refl, ◌↔◌, Bool, true, false, ◌&&◌, ◌||◌, not, List, [],
  ◌∷◌, arith, ltb, leb, eqb, if◌then◌else◌,
}

-- A Go string, byte by byte.
abbrev pub Bytes : Type 0
Bytes = List ℕ

-- `s < t` on Go strings.
abbrev lt_bytes : Bytes → Bytes → Bool
lt_bytes [] [] = false
lt_bytes [] (_ ∷ _) = true
lt_bytes (_ ∷ _) [] = false
lt_bytes (a ∷ s) (b ∷ t) = ltb a b || (eqb a b && lt_bytes s t)

abbrev is_digit : ℕ → Bool
is_digit c = leb b'0' c && leb c b'9'

abbrev digits_value : ℕ → ℕ → ℕ
digits_value a b = (a - b'0') * 10 + (b - b'0')

-- The first clause is the string of length 5.
unfoldable pub is_valid_time_format : Bytes → Bool
is_valid_time_format (h ∷ h' ∷ colon ∷ m ∷ m' ∷ []) =
    eqb colon b':'
    && (is_digit h && is_digit h')
    && leb (digits_value h h') 23
    && (is_digit m && is_digit m')
    && leb (digits_value m m') 59
is_valid_time_format _ = false

unfoldable pub is_time_in_range : Bytes → Bytes → Bytes → Bool
unfolding is_valid_time_format
is_time_in_range current start end =
    if not (is_valid_time_format start) || not (is_valid_time_format end)
    then false
    else if lt_bytes end start
    then not (lt_bytes current start) || not (lt_bytes end current)
    else (not (lt_bytes current start) && not (lt_bytes end current))

-- The text `HH:MM` of an hour and a minute.
abbrev pub clock : ℕ → ℕ → Bytes
clock h m = (b'0' + h / 10) ∷ (b'0' + h % 10) ∷ b':' ∷ (b'0' + m / 10) ∷ (b'0' + m % 10) ∷ []

-- Minutes since midnight.
abbrev pub minute_of : ℕ → ℕ → ℕ
minute_of h m = h * 60 + m

clock-valid : (h m : ℕ) → h < 24 → m < 60 → is_valid_time_format (clock h m) ≡ true
unfolding is_valid_time_format
clock-valid h m hh hm = ground arith

lt_bytes-clock :
    (h m h' m' : ℕ)
    → h < 24
    → m < 60
    → h' < 24
    → m' < 60
    → lt_bytes (clock h m) (clock h' m') ≡ ltb (minute_of h m) (minute_of h' m')
lt_bytes-clock h m h' m' a b c d = ground arith

-- A reading of a text as an hour and a minute of the day.
pub record IsClock (s : Bytes) : Type 0 where
  pub hour : ℕ
  pub minute : ℕ
  pub hour_bound : hour < 24
  pub minute_bound : minute < 60
  pub reads : s ≡ clock hour minute

bytes-eq :
    (a b c d e h m : ℕ)
    → a ≡ b'0' + h / 10
    → b ≡ b'0' + h % 10
    → c ≡ b':'
    → d ≡ b'0' + m / 10
    → e ≡ b'0' + m % 10
    → a ∷ b ∷ c ∷ d ∷ e ∷ [] ≡ clock h m
bytes-eq a b c d e h m p q r s t = ground arith

valid-IsClock : (s : Bytes) → is_valid_time_format s ≡ true → IsClock s
unfolding is_valid_time_format
valid-IsClock [] v = cc
valid-IsClock (a ∷ []) v = cc
valid-IsClock (a ∷ b ∷ []) v = cc
valid-IsClock (a ∷ b ∷ c ∷ []) v = cc
valid-IsClock (a ∷ b ∷ c ∷ d ∷ []) v = cc
valid-IsClock (a ∷ b ∷ c ∷ d ∷ e ∷ f ∷ s) v = cc
valid-IsClock (a ∷ b ∷ c ∷ d ∷ e ∷ []) v = record {
  hour = digits_value a b;
  minute = digits_value d e;
  hour_bound = ground arith;
  minute_bound = ground arith;
  reads =
      bytes-eq a b c d e (digits_value a b) (digits_value d e) (ground arith) (ground arith)
        (ground arith) (ground arith) (ground arith);
}

-- A text passes isValidTimeFormat exactly when it writes an hour below 24 and a minute below 60
-- with two digits each and a colon between them.
pub is_valid_time_format_iff : (s : Bytes) → (is_valid_time_format s ≡ true) ↔ IsClock s
is_valid_time_format_iff s =
    (valid-IsClock s, λ c. rw c.reads (clock-valid c.hour c.minute c.hour_bound c.minute_bound))

-- The range on minutes of the day: from start to end, and over midnight where end is earlier.
abbrev pub minute_in_range : ℕ → ℕ → ℕ → Bool
minute_in_range now start end =
    if ltb end start then leb start now || leb now end else (leb start now && leb now end)

-- At times that are well formed, isTimeInRange on texts is the range on minutes of the day: both
-- ends belong to it, and it runs over midnight where the end is earlier than the start.
pub is_time_in_range-minutes :
    (h m sh sm eh em : ℕ)
    → h < 24
    → m < 60
    → sh < 24
    → sm < 60
    → eh < 24
    → em < 60
    → is_time_in_range (clock h m) (clock sh sm) (clock eh em)
      ≡ minute_in_range (minute_of h m) (minute_of sh sm) (minute_of eh em)
unfolding is_time_in_range
is_time_in_range-minutes h m sh sm eh em a b c d e f =
    rw
      (
        clock-valid sh sm c d,
        clock-valid eh em e f,
        lt_bytes-clock eh em sh sm e f c d,
        lt_bytes-clock h m sh sm a b c d,
        lt_bytes-clock eh em h m e f a b,
      )
      (ground arith)

-- A malformed start or end closes the window.
pub is_time_in_range-malformed :
    (now start end : Bytes)
    → is_time_in_range now start end ≡ true
    → (is_valid_time_format start ≡ true) × (is_valid_time_format end ≡ true)
unfolding is_time_in_range
is_time_in_range-malformed now start end h = unfold is_time_in_range in ground arith

lt_bytes_irrefl : (s : Bytes) → lt_bytes s s ≡ false
lt_bytes_irrefl [] = refl
lt_bytes_irrefl (a ∷ s) = ground (arith, lt_bytes_irrefl s)

-- A well-formed range holds its own start, also over midnight.
pub is_time_in_range-start :
    (start end : Bytes)
    → is_valid_time_format start ≡ true
    → is_valid_time_format end ≡ true
    → is_time_in_range start start end ≡ true
unfolding is_time_in_range
is_time_in_range-start start end s e = rw (s, e, lt_bytes_irrefl start) (ground arith)
