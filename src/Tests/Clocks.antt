-- ===== src/Tests/Clocks.antt =====
-- The unique time of the RTC.
use meshcore.Prelude.{◌≤◌, ◌<◌, ◌≡◌, refl, some, arith}
use meshcore.Clock.{rtc_get_current_time_unique, next_unique, rtc_get_current_time_unique-lt}

unique_runs :
    (rtc_get_current_time_unique 500 (some 700) ≡ (701, some 701))
    × (rtc_get_current_time_unique 900 (some 700) ≡ (900, some 900))
unfolding rtc_get_current_time_unique
unique_runs = (refl, refl)

rtc_get_current_time_unique-lt_example :
    let r = rtc_get_current_time_unique 500 (some 700) in
    (700 < r.0) × (500 ≤ r.0) × (r.0 < next_unique 400 r) × (400 ≤ next_unique 400 r)
rtc_get_current_time_unique-lt_example =
    rtc_get_current_time_unique-lt 700 500 400 (omega arith) (omega arith)
