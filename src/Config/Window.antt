-- ===== src/Config/Window.antt =====
-- internal/config/syncwindow.go, and SyncWindow.validate of internal/config/config.go.
-- A time is the number of seconds since the Unix epoch (a Thursday, at 00:00 UTC).
pub mod Covers
pub mod Allows
use Prim.Native.Nat.{◌/◌, ◌%◌}
use run_cd.Base.{
  ℕ, zero, suc, ◌+◌, ◌*◌, String, ◌==◌, Bool, true, false, not, ◌&&◌, ◌||◌, Option, none, some,
  List, [], ◌∷◌, any, if◌then◌else◌,
}
use run_cd.Base.Int.{ℤ, pos, ltb_ℤ, leb_ℤ, eq_ℤ}
use run_cd.Config.{SyncWindow}

-- time.Weekday numbers the days from Sunday.
abbrev pub sync_window_weekday : ℕ → String
sync_window_weekday zero = "Sun"
sync_window_weekday (suc zero) = "Mon"
sync_window_weekday (suc (suc zero)) = "Tue"
sync_window_weekday (suc (suc (suc zero))) = "Wed"
sync_window_weekday (suc (suc (suc (suc zero)))) = "Thu"
sync_window_weekday (suc (suc (suc (suc (suc zero))))) = "Fri"
sync_window_weekday (suc (suc (suc (suc (suc (suc zero)))))) = "Sat"
sync_window_weekday _ = ""

-- Weekday() of a day, counted from the epoch.
unfoldable pub weekday : ℕ → ℕ
weekday day = (day + 4) % 7

unfoldable pub day_of : ℕ → ℕ
day_of t = t / 86400

unfoldable pub hour_of : ℕ → ℕ
hour_of t = t / 3600 % 24

-- t.AddDate(0, 0, -1).Weekday(): the weekday six days on is the weekday one day back.
unfoldable pub weekday_before : ℕ → ℕ
unfolding weekday
weekday_before day = weekday (day + 6)

abbrev is_empty {ℓ} : {A : Type ℓ} → List A → Bool
is_empty [] = true
is_empty (_ ∷ _) = false

unfoldable pub day_matches : SyncWindow → ℕ → Bool
day_matches w day = if is_empty w.days then true else any (λ d. d == sync_window_weekday day) w.days

unfoldable pub matches : SyncWindow → ℕ → Bool
matches w t =
    if eq_ℤ w.start_hour w.end_hour
    then day_matches w (weekday (day_of t))
    else let hour = pos (hour_of t) in
      if ltb_ℤ w.start_hour w.end_hour
      then day_matches w (weekday (day_of t)) && (leb_ℤ w.start_hour hour && ltb_ℤ hour w.end_hour)
      else if leb_ℤ w.start_hour hour
      then day_matches w (weekday (day_of t))
      else if ltb_ℤ hour w.end_hour
      then day_matches w (weekday_before (day_of t))
      else false

-- the loop of WindowsAllow, with its two variables
unfoldable pub allow_from : Bool → Bool → List SyncWindow → ℕ → Bool
allow_from has_allow allow_matched [] t = if has_allow then allow_matched else true
allow_from has_allow allow_matched (w ∷ ws) t =
    let skipped = allow_from has_allow allow_matched ws t in
    let allowed = allow_from true (allow_matched || matches w t) ws t in
    if w.kind == "deny"
    then (if matches w t then false else skipped)
    else if w.kind == "allow"
    then allowed
    else skipped

unfoldable pub windows_allow : List SyncWindow → ℕ → Bool
unfolding allow_from
windows_allow ws t = allow_from false false ws t

pub data WindowError : Type 0 where
  bad_kind bad_day bad_hours equal_hours : WindowError

abbrev valid_sync_window_days : List String
valid_sync_window_days = "Mon" ∷ "Tue" ∷ "Wed" ∷ "Thu" ∷ "Fri" ∷ "Sat" ∷ "Sun" ∷ []

abbrev out_of_range : ℤ → Bool
out_of_range h = ltb_ℤ h (pos 0) || ltb_ℤ (pos 24) h

unfoldable pub validate : SyncWindow → Option WindowError
validate w =
    if not (w.kind == "allow") && not (w.kind == "deny")
    then some bad_kind
    else if any (λ d. not (any (λ v. v == d) valid_sync_window_days)) w.days
    then some bad_day
    else if out_of_range w.start_hour || out_of_range w.end_hour
    then some bad_hours
    else if eq_ℤ w.start_hour w.end_hour && not (eq_ℤ w.start_hour (pos 0))
    then some equal_hours
    else none
