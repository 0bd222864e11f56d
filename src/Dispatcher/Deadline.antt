-- ===== src/Dispatcher/Deadline.antt =====
-- `meshcore_dispatcher_next_deadline_get`: when the dispatcher is to be run again.
use meshcore.Prelude.{
  ℕ, ◌+◌, Bool, true, false, not, Option, none, some, List, [], ◌∷◌, ◌++◌, u32, ltb, ◌==◌,
  if◌then◌else◌,
}
use meshcore.Queue.{is_due, earlier}
use meshcore.Pool.{next_outbound_scheduled_get, next_inbound_scheduled_get, get_outbound_total}
use meshcore.Dispatcher.{Dispatcher, Host}

-- `meshcore_dispatcher_deadline_accumulate`: whether it returns true, and `*deadline`, which is
-- `none` while `*has_deadline` is false.
unfoldable pub deadline_accumulate : ℕ → ℕ → Option ℕ → Bool × Option ℕ
deadline_accumulate now candidate deadline =
    if is_due candidate now then (true, some now) else (false, earlier candidate deadline)

-- One candidate after the other; the first one that is due ends the function.
unfoldable pub accumulate_all : ℕ → List ℕ → Option ℕ → Option ℕ
accumulate_all now [] deadline = deadline
accumulate_all now (c ∷ cs) deadline =
    let (done, next) = deadline_accumulate now c deadline in
    let rest = accumulate_all now cs next in if done then next else rest

abbrev pub when : Bool → ℕ → List ℕ
when true c = c ∷ []
when false c = []

abbrev pub if_any : Option ℕ → List ℕ
if_any none = []
if_any (some c) = c ∷ []

abbrev pub is_some : Option ℕ → Bool
is_some none = false
is_some (some p) = true

-- The times that the function looks at, in its order.
unfoldable pub candidates : Host → Dispatcher → ℕ → List ℕ
candidates h d now =
    when (is_some d.outbound) (u32 d.outbound_expiry)
    ++ (if_any (next_outbound_scheduled_get d.packet_manager now)
        ++ (if_any (next_inbound_scheduled_get d.packet_manager now)
            ++ (when (ltb 0 (get_outbound_total d.packet_manager)) (u32 d.next_tx_time)
                ++ (u32 d.next_floor_calib_time
                    ∷ (when (not (d.next_agc_reset_time == 0)) (u32 d.next_agc_reset_time)
                        ++ when (not (h.in_recv_mode d.clock_reads))
                            (u32 (d.radio_nonrx_start + 8000)))))))

-- The result is `*deadline_ms`, `none` where the function returns false.
unfoldable pub next_deadline_get : Host → Dispatcher → ℕ → Option ℕ
next_deadline_get h d now = accumulate_all now (candidates h d now) none
