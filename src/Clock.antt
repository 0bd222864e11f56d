-- ===== src/Clock.antt =====
-- `src/core/meshcore_clock.c`: the override of the millisecond clock, and the time of the RTC made
-- unique. The platform's clocks are arguments, the value that their next reading gives.
use meshcore.Prelude.{
  ℕ, ◌+◌, ◌-◌, ◌^◌, ◌≤◌, ◌<◌, ◌≡◌, Bool, true, false, Option, none, some, u32, leb, if◌then◌else◌,
  arith, Bool-cases, inl, inr,
}

-- `s_millis_override`.
pub record Override : Type 0 where
  pub enabled : Bool
  pub value : ℕ

unfoldable pub clock_millis_get : Override → ℕ → ℕ
clock_millis_get o platform_millis = if o.enabled then o.value else platform_millis

unfoldable pub millis_override_set : ℕ → Override
millis_override_set value = record { enabled = true; value = value }

unfoldable pub millis_override_clear : Override
millis_override_clear = record { enabled = false; value = 0 }

-- The state is `last_unique`; NULL is `none`. The result is the time and the new state.
unfoldable pub rtc_get_current_time_unique : ℕ → Option ℕ → ℕ × Option ℕ
rtc_get_current_time_unique now none = (now, none)
rtc_get_current_time_unique now (some last_unique) =
    if leb now last_unique
    then (u32 (last_unique + 1), some (u32 (last_unique + 1)))
    else (now, some now)

-- The time after two calls, the second with the state that the first left.
abbrev pub next_unique : ℕ → ℕ × Option ℕ → ℕ
next_unique now r = (rtc_get_current_time_unique now r.1).0

-- Of two calls in a row with one state, whatever the RTC shows, the second gives a later time than the
-- first and the first a later one than the state held, neither before what the RTC shows; as long as
-- the 32 bits are not used up.
pub rtc_get_current_time_unique-lt :
    (last_unique now later : ℕ)
    → last_unique < 2 ^ 32 - 2
    → now < 2 ^ 32 - 1
    → let r = rtc_get_current_time_unique now (some last_unique) in
      (last_unique < r.0)
      × (now ≤ r.0)
      × (r.0 < next_unique later r)
      × (later ≤ next_unique later r)
unfolding rtc_get_current_time_unique
rtc_get_current_time_unique-lt last_unique now later h h' =
    elim (Bool-cases (leb now last_unique)) [
      | inl e ↦
          let u : u32 (last_unique + 1) ≡ last_unique + 1 = omega arith in rw (e, u) (ground arith)
      | inr e ↦ rw e (ground arith)
    ]
