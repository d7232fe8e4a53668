-- ===== src/Config/Window/Covers.antt =====
-- What a window means: an interval of hours that a matching day starts.
use Prim.Native.Nat.{◌/◌}
use run_cd.Base.{
  ℕ, ◌+◌, ◌-◌, ◌*◌, ◌≤◌, ◌<◌, ◌≡◌, ◌↔◌, subst, Bool, true, false, arith, nat_eq, ltb, leb, ◌&&◌,
  if◌then◌else◌,
}
use run_cd.Base.Int.{pos}
use run_cd.Config.{SyncWindow}
use run_cd.Config.Window.{weekday, day_of, hour_of, weekday_before, day_matches, matches}

-- Hours from the start of the window's day to its end, past midnight if the window wraps.
abbrev pub last_hour : ℕ → ℕ → ℕ
last_hour start stop = if nat_eq start stop then 24 else if ltb start stop then stop else stop + 24

-- The first hour, which counts from midnight unless the window is a whole day.
abbrev pub first_hour : ℕ → ℕ → ℕ
first_hour start stop = if nat_eq start stop then 0 else start

-- The hour `h`, counted from the epoch, lies in the interval that begins on the day `d`.
abbrev pub InSpan : ℕ → ℕ → ℕ → ℕ → Type 0
InSpan start stop d h = (24 * d + first_hour start stop ≤ h) × (h < 24 * d + last_hour start stop)

-- Some day on which the window opens has the time in its interval.
abbrev pub Covers : SyncWindow → ℕ → ℕ → ℕ → Type 0
Covers w start stop t =
    (d : ℕ) × ((day_matches w (weekday d) ≡ true) × InSpan start stop d (t / 3600))

-- The tests of `matches` over numbers, `opens` telling on which days the window opens.
abbrev covers_now : (ℕ → Bool) → ℕ → ℕ → ℕ → ℕ → Bool
covers_now opens start stop day hour =
    if nat_eq start stop
    then opens day
    else if ltb start stop
    then opens day && (leb start hour && ltb hour stop)
    else if leb start hour
    then opens day
    else if ltb hour stop
    then opens (day - 1)
    else false

-- The day whose interval can hold the hour.
abbrev opening_day : ℕ → ℕ → ℕ → ℕ → ℕ
opening_day start stop day hour =
    if nat_eq start stop
    then day
    else if ltb start stop
    then day
    else if leb start hour
    then day
    else day - 1

module _ (start stop day hour : ℕ) (hs : start ≤ 24) (he : stop ≤ 24) (hh : hour < 24)
    (hd : 0 < day) where
  opening_day_unique :
      (d : ℕ) → InSpan start stop d (24 * day + hour) → d ≡ opening_day start stop day hour
  opening_day_unique d h = ground arith

  covers_now-InSpan :
      (opens : ℕ → Bool)
      → covers_now opens start stop day hour ≡ true
      → (opens (opening_day start stop day hour) ≡ true)
        × InSpan start stop (opening_day start stop day hour) (24 * day + hour)
  covers_now-InSpan opens h = ground arith

  InSpan-covers_now :
      (opens : ℕ → Bool)
      → opens (opening_day start stop day hour) ≡ true
      → InSpan start stop (opening_day start stop day hour) (24 * day + hour)
      → covers_now opens start stop day hour ≡ true
  InSpan-covers_now opens o h = ground arith

day_of-pos : (t : ℕ) → 86400 ≤ t → 0 < day_of t
unfolding day_of
day_of-pos t h = omega arith

hour_of-lt : (t : ℕ) → hour_of t < 24
unfolding hour_of
hour_of-lt t = omega arith

weekday_before-pred : (day : ℕ) → 0 < day → weekday_before day ≡ weekday (day - 1)
unfolding weekday_before
weekday_before-pred day h = omega arith

matches-covers_now :
    (w : SyncWindow) (start stop t : ℕ)
    → w.start_hour ≡ pos start
    → w.end_hour ≡ pos stop
    → 86400 ≤ t
    → matches w t ≡ covers_now (λ d. day_matches w (weekday d)) start stop (day_of t) (hour_of t)
unfolding matches
matches-covers_now w start stop t s e ht =
    rw (s, e, weekday_before-pred (day_of t) (day_of-pos t ht))

hours_split : (t : ℕ) → t / 3600 ≡ 24 * day_of t + hour_of t
unfolding day_of hour_of
hours_split t = omega arith

-- For a window with hours in [0,24], from the second day of the epoch on: a time matches exactly
-- if some day on which the window opens has the time in the interval of hours that starts there,
-- from `start` to `stop`, past midnight if `stop` is below `start`, the whole day if they are
-- equal.
pub matches-Covers :
    (w : SyncWindow) (start stop t : ℕ)
    → w.start_hour ≡ pos start
    → w.end_hour ≡ pos stop
    → start ≤ 24
    → stop ≤ 24
    → 86400 ≤ t
    → (matches w t ≡ true) ↔ Covers w start stop t
matches-Covers w start stop t s e hs he ht =
    let day = day_of t in
    let hour = hour_of t in
    let opens = λ (d : ℕ). day_matches w (weekday d) in
    let hh = hour_of-lt t in
    let hd = day_of-pos t ht in
    rw (matches-covers_now w start stop t s e ht, hours_split t)
      (
        λ h. (
          opening_day start stop day hour,
          covers_now-InSpan start stop day hour hs he hh hd opens h,
        ),
        λ (d, both).
            let same = opening_day_unique start stop day hour hs he hh hd d both.1 in
            InSpan-covers_now start stop day hour hs he hh hd opens
              (subst (λ (k : ℕ). opens k ≡ true) same both.0)
              (subst (λ (k : ℕ). InSpan start stop k (24 * day + hour)) same both.1),
      )
