-- ===== src/Queue/Deadline.antt =====
-- `meshcore_packet_queue_next_scheduled_get`: when the queue is to be looked at again.
use meshcore.Prelude.{
  ℕ, zero, suc, ◌+◌, ◌^◌, ◌≤◌, ◌<◌, ◌≡◌, ◌⊎◌, refl, sym, true, false, Option, none, some, get_or,
  arith, ltb, Bool-cases, inl, inr, is_neg32, sub32,
}
use native.Mathlib.Decide.{dec_lt}
use meshcore.Queue.{Queue, next_loop, queue_next_scheduled_get, is_due, earlier}
use meshcore.Queue.Select.{due_at}

abbrev pub schedule_at : Queue → ℕ → ℕ
schedule_at q k = get_or q.schedule_table k 0

-- How far ahead of `now` entry `k` is, modulo 2 ^ 32.
abbrev pub ahead : Queue → ℕ → ℕ → ℕ
ahead q now k = sub32 (schedule_at q k) now

-- The schedule holds `uint32_t` values.
abbrev pub IsSchedule : Queue → Type 0
IsSchedule q = (k : ℕ) → schedule_at q k < 2 ^ 32

-- What the loop has found among the entries before `j`, none of which is due.
abbrev Earliest : Queue → ℕ → ℕ → Option ℕ → Type 0
Earliest q now j none = j ≡ 0
Earliest q now j (some t) =
    (i : ℕ) × (i < j)
    × (schedule_at q i ≡ t)
    × ((k : ℕ) → k < j → (due_at q now k ≡ false) × (sub32 t now ≤ ahead q now k))

-- For times that are not due, the signed comparison is the comparison of the distances.
pub signed_order :
    (a b now : ℕ)
    → a < 2 ^ 32
    → b < 2 ^ 32
    → now < 2 ^ 32
    → is_due a now ≡ false
    → is_due b now ≡ false
    → is_neg32 (sub32 a b) ≡ ltb (sub32 a now) (sub32 b now)
signed_order a b now ha hb hn da db = ground arith

Earliest-step :
    (q : Queue) (now j : ℕ) (best : Option ℕ)
    → IsSchedule q
    → now < 2 ^ 32
    → due_at q now j ≡ false
    → Earliest q now j best
    → Earliest q now (j + 1) (earlier (schedule_at q j) best)
unfolding earlier
Earliest-step q now j none u hn later e =
    (j, omega arith, refl, λ k lt. let same : k ≡ j = omega arith in rw same (later, omega arith))
Earliest-step q now j (some t) u hn later (i, lt, at, all) =
    let s = schedule_at q j in
    let t_small : t < 2 ^ 32 = rw (← at) (u i) in
    let t_later : is_due t now ≡ false = rw (← at) (all i lt).0 in
    let order : is_neg32 (sub32 s t) ≡ ltb (sub32 s now) (sub32 t now) =
      signed_order s t now (u j) t_small hn later t_later in
    elim (Bool-cases (ltb (sub32 s now) (sub32 t now))) [
      | inl e ↦
          rw (order, e)
            (
              j,
              omega arith,
              refl,
              λ k lt'. elim (dec_lt k j) [
                | yes l ↦ let (a, b) = all k l in (a, ground arith)
                | no n ↦ let same : k ≡ j = omega arith in rw same (later, omega arith)
              ],
            )
      | inr e ↦
          rw (order, e)
            (
              i,
              omega arith,
              at,
              λ k lt'. elim (dec_lt k j) [
                | yes l ↦ all k l
                | no n ↦ let same : k ≡ j = omega arith in rw same (later, ground arith)
              ],
            )
    ]

-- When there is something to do: at once if some entry is due; else at the time of the entry that is
-- the least far ahead; never, if there is no entry.
abbrev pub NextTime : Queue → ℕ → Option ℕ → Type 0
NextTime q now none = q.num ≡ 0
NextTime q now (some t) =
    ((i : ℕ) × (i < q.num) × (due_at q now i ≡ true) × (t ≡ now))
    ⊎ ((i : ℕ) × (i < q.num)
        × (t ≡ schedule_at q i)
        × ((k : ℕ) → k < q.num → (due_at q now k ≡ false) × (ahead q now i ≤ ahead q now k)))

next_loop-NextTime :
    (rounds : ℕ) (q : Queue) (now j : ℕ) (best : Option ℕ)
    → IsSchedule q
    → now < 2 ^ 32
    → j + rounds ≡ q.num
    → Earliest q now j best
    → NextTime q now (next_loop rounds j q now best)
unfolding next_loop
next_loop-NextTime zero q now j none u hn e c = omega arith
next_loop-NextTime zero q now j (some t) u hn e (i, lt, at, all) =
    inr (i, omega arith, sym at, λ k lt'. let (a, b) = all k (omega arith) in (a, rw at b))
next_loop-NextTime (suc rounds) q now j best u hn e c = elim (Bool-cases (due_at q now j)) [
  | inl d ↦ rw d (inl (j, omega arith, d, refl))
  | inr d ↦ rw d (
      next_loop-NextTime rounds q now (j + 1) (earlier (schedule_at q j) best) u hn (omega arith)
        (Earliest-step q now j best u hn d c))
]

-- The deadline that the queue reports is right across the wrap of the millisecond counter.
pub queue_next_scheduled_get_lem :
    (q : Queue) (now : ℕ)
    → IsSchedule q
    → now < 2 ^ 32
    → NextTime q now (queue_next_scheduled_get q now)
unfolding queue_next_scheduled_get
queue_next_scheduled_get_lem q now u hn =
    next_loop-NextTime q.num q now 0 none u hn (omega arith) refl
