-- ===== src/Dispatcher/Soonest.antt =====
-- What `meshcore_dispatcher_next_deadline_get` answers.
use meshcore.Prelude.{
  ℕ, ◌+◌, ◌^◌, ◌≤◌, ◌<◌, ◌≡◌, ◌⊎◌, refl, Bool, true, false, not, Option, none, some, List, [], ◌∷◌,
  ◌++◌, arith, ltb, Bool-cases, inl, inr, sub32, u32, if◌then◌else◌, ◌==◌,
}
use meshcore.Queue.{Queue, is_due, earlier, queue_next_scheduled_get}
use meshcore.Queue.Deadline.{IsSchedule, NextTime, queue_next_scheduled_get_lem, signed_order}
use meshcore.Pool.{next_outbound_scheduled_get, next_inbound_scheduled_get, get_outbound_total}
use meshcore.Dispatcher.{Dispatcher, Host}
use meshcore.Dispatcher.Deadline.{
  deadline_accumulate, accumulate_all, when, if_any, is_some, candidates, next_deadline_get,
}

pub data Among (c : ℕ) : List ℕ → Type 0 where
  here : {cs : List ℕ} → Among c (c ∷ cs)
  there : {b : ℕ} {cs : List ℕ} → Among c cs → Among c (b ∷ cs)

pub data AreTimes : List ℕ → Type 0 where
  no_times : AreTimes []
  more_times : {c : ℕ} {cs : List ℕ} → c < 2 ^ 32 → AreTimes cs → AreTimes (c ∷ cs)

-- Now, if one of the times has come; else the one of them that is the least far ahead of now.
abbrev pub Soonest : List ℕ → ℕ → ℕ → Type 0
Soonest cs now t =
    ((c : ℕ) × Among c cs × (is_due c now ≡ true) × (t ≡ now))
    ⊎ (Among t cs × ((c : ℕ) → Among c cs → (is_due c now ≡ false) × (sub32 t now ≤ sub32 c now)))

-- A deadline that is not due stands for one more candidate.
step_down :
    (c t now : ℕ) (cs : List ℕ) (r : ℕ)
    → is_due c now ≡ false
    → sub32 t now ≤ sub32 c now
    → Soonest (t ∷ cs) now r
    → Soonest (t ∷ c ∷ cs) now r
step_down c t now cs r later le (inl (x, here, d, e)) = inl (x, here, d, e)
step_down c t now cs r later le (inl (x, there a, d, e)) = inl (x, there (there a), d, e)
step_down c t now cs r later le (inr (a, all)) =
    inr (two_heads c t cs a, λ x b. two_cases c t now cs r later le all x b)
  where
    two_heads : (c t : ℕ) (cs : List ℕ) {r : ℕ} → Among r (t ∷ cs) → Among r (t ∷ c ∷ cs)
    two_heads c t cs here = here
    two_heads c t cs (there a) = there (there a)

    two_cases :
        (c t now : ℕ) (cs : List ℕ) (r : ℕ)
        → is_due c now ≡ false
        → sub32 t now ≤ sub32 c now
        → ((x : ℕ) → Among x (t ∷ cs) → (is_due x now ≡ false) × (sub32 r now ≤ sub32 x now))
        → (x : ℕ) → Among x (t ∷ c ∷ cs)
        → (is_due x now ≡ false) × (sub32 r now ≤ sub32 x now)
    two_cases c t now cs r later le all x here = all x here
    two_cases c t now cs r later le all x (there here) =
        let (a, b) = all t here in (later, omega (arith, b, le))
    two_cases c t now cs r later le all x (there (there a)) = all x (there a)

swapped : {a b x : ℕ} {cs : List ℕ} → Among x (a ∷ b ∷ cs) → Among x (b ∷ a ∷ cs)
swapped here = there here
swapped (there here) = here
swapped (there (there m)) = there (there m)

swap_two : (a b now r : ℕ) (cs : List ℕ) → Soonest (a ∷ b ∷ cs) now r → Soonest (b ∷ a ∷ cs) now r
swap_two a b now r cs (inl (x, m, d, e)) = inl (x, swapped m, d, e)
swap_two a b now r cs (inr (m, all)) = inr (swapped m, λ x k. all x (swapped k))

all-Soonest :
    (cs : List ℕ) (t now : ℕ)
    → AreTimes cs
    → t < 2 ^ 32
    → now < 2 ^ 32
    → is_due t now ≡ false
    → (r : ℕ) × (accumulate_all now cs (some t) ≡ some r) × Soonest (t ∷ cs) now r
unfolding accumulate_all deadline_accumulate earlier
all-Soonest [] t now v ht hn later = (t, refl, inr (here, λ x m. only t x now later m))
  where
    only :
        (t x now : ℕ)
        → is_due t now ≡ false
        → Among x (t ∷ [])
        → (is_due x now ≡ false) × (sub32 t now ≤ sub32 x now)
    only t x now later here = (later, omega arith)
    only t x now later (there m) = elim m [ ]
all-Soonest (c ∷ cs) t now (more_times hc v) ht hn later = elim (Bool-cases (is_due c now)) [
  | inl due ↦ rw due (now, refl, inl (c, there here, due, refl))
  | inr not_due ↦
      let order = signed_order c t now hc ht hn not_due later in
      elim (Bool-cases (ltb (sub32 c now) (sub32 t now))) [
        | inl e ↦
            let (r, is_r, s) = all-Soonest cs c now v hc hn not_due in
            rw (not_due, order, e)
              (r, is_r, swap_two c t now r cs (step_down t c now cs r later (ground (arith, e)) s))
        | inr e ↦
            let (r, is_r, s) = all-Soonest cs t now v ht hn later in
            rw (not_due, order, e) (r, is_r, step_down c t now cs r not_due (ground (arith, e)) s)
      ]
]

-- Of times of 32 bits, if there are any.
pub accumulate_all-Soonest :
    (cs : List ℕ) (x now : ℕ)
    → AreTimes cs
    → now < 2 ^ 32
    → Among x cs
    → (r : ℕ) × (accumulate_all now cs none ≡ some r) × Soonest cs now r
unfolding accumulate_all deadline_accumulate earlier
accumulate_all-Soonest [] x now v hn m = elim m [ ]
accumulate_all-Soonest (c ∷ cs) x now (more_times hc v) hn m = elim (Bool-cases (is_due c now)) [
  | inl due ↦ rw due (now, refl, inl (c, here, due, refl))
  | inr not_due ↦ let (r, is_r, s) = all-Soonest cs c now v hc hn not_due in rw not_due (r, is_r, s)
]

pub AreTimes-append : (xs ys : List ℕ) → AreTimes xs → AreTimes ys → AreTimes (xs ++ ys)
AreTimes-append [] ys v w = w
AreTimes-append (y ∷ xs) ys (more_times h v) w = more_times h (AreTimes-append xs ys v w)

pub AreTimes-when : (b : Bool) (c : ℕ) → AreTimes (when b (u32 c))
AreTimes-when true c = more_times (omega arith) no_times
AreTimes-when false c = no_times

AreTimes-NextTime :
    (q : Queue) (now : ℕ) (o : Option ℕ)
    → IsSchedule q
    → now < 2 ^ 32
    → NextTime q now o
    → AreTimes (if_any o)
AreTimes-NextTime q now none u hn t = no_times
AreTimes-NextTime q now (some t) u hn (inl (i, lt, d, e)) = more_times (omega arith) no_times
AreTimes-NextTime q now (some t) u hn (inr (i, lt, e, all)) = more_times (rw e (u i)) no_times

AreTimes-ready :
    (b : Bool) (q : Queue) (now : ℕ)
    → IsSchedule q
    → now < 2 ^ 32
    → AreTimes (if_any (if not b then none else queue_next_scheduled_get q now))
AreTimes-ready false q now u hn = no_times
AreTimes-ready true q now u hn =
    AreTimes-NextTime q now (queue_next_scheduled_get q now) u hn
      (queue_next_scheduled_get_lem q now u hn)

pub candidates-AreTimes :
    (h : Host) (d : Dispatcher) (now : ℕ)
    → IsSchedule d.packet_manager.send_queue
    → IsSchedule d.packet_manager.rx_queue
    → now < 2 ^ 32
    → AreTimes (candidates h d now)
unfolding candidates next_outbound_scheduled_get next_inbound_scheduled_get
candidates-AreTimes h d now send rx hn =
    AreTimes-append _ _ (AreTimes-when (is_some d.outbound) d.outbound_expiry) (
      AreTimes-append _ _
        (AreTimes-ready d.packet_manager.initialized d.packet_manager.send_queue now send hn)
        (AreTimes-append _ _
          (AreTimes-ready d.packet_manager.initialized d.packet_manager.rx_queue now rx hn)
          (AreTimes-append _ _
            (AreTimes-when (ltb 0 (get_outbound_total d.packet_manager)) d.next_tx_time)
            (more_times (omega arith) (
              AreTimes-append _ _
                (AreTimes-when (not (d.next_agc_reset_time == 0)) d.next_agc_reset_time)
                (AreTimes-when (not (h.in_recv_mode d.clock_reads))
                  (d.radio_nonrx_start + 8000)))))))

pub Among-append : (x : ℕ) (xs ys : List ℕ) → Among x ys → Among x (xs ++ ys)
Among-append x [] ys m = m
Among-append x (y ∷ xs) ys m = there (Among-append x xs ys m)

floor-Among :
    (h : Host) (d : Dispatcher) (now : ℕ) → Among (u32 d.next_floor_calib_time) (candidates h d now)
unfolding candidates
floor-Among h d now = Among-append _ (when (is_some d.outbound) (u32 d.outbound_expiry)) _ (
    Among-append _ (if_any (next_outbound_scheduled_get d.packet_manager now)) _ (
      Among-append _ (if_any (next_inbound_scheduled_get d.packet_manager now)) _ (
        Among-append _ (when (ltb 0 (get_outbound_total d.packet_manager)) (u32 d.next_tx_time)) _ (
          here
            {cs = when (not (d.next_agc_reset_time == 0)) (u32 d.next_agc_reset_time)
              ++ when (not (h.in_recv_mode d.clock_reads)) (u32 (d.radio_nonrx_start + 8000))}))))

-- There always is a next deadline: now, if any of the times that the dispatcher waits for has come,
-- else the one of them that is the least far ahead of now, across the wrap of the counter.
pub next_deadline_get_lem :
    (h : Host) (d : Dispatcher) (now : ℕ)
    → IsSchedule d.packet_manager.send_queue
    → IsSchedule d.packet_manager.rx_queue
    → now < 2 ^ 32
    → (t : ℕ) × (next_deadline_get h d now ≡ some t) × Soonest (candidates h d now) now t
unfolding next_deadline_get
next_deadline_get_lem h d now send rx hn =
    accumulate_all-Soonest (candidates h d now) (u32 d.next_floor_calib_time) now
      (candidates-AreTimes h d now send rx hn) hn (floor-Among h d now)
