-- ===== src/Runtime/Expected.antt =====
-- The acknowledgements that `src/runtime/meshcore_runtime_pending.c` waits for.
use meshcore.Prelude.{
  ℕ, zero, suc, ◌+◌, ◌-◌, ◌%◌, ◌^◌, ◌≤◌, ◌<◌, ◌≡◌, ◌≢◌, ◌⊎◌, refl, Bool, true, false, not, ◌||◌,
  Option, some, List, [], ◌∷◌, length, get_or, set, take, arith, ◌==◌, if◌then◌else◌, Bool-cases,
  inl, inr, ne→==, eq→==, ==→eq, get_or-set_self, Option-cases, ap, ◌∙◌, get_or-set_ne, length-set,
}
use native.Mathlib.Decide.{dec_lt}
use mathlib.Core.Path.{subst}
use meshcore.Runtime.{time_reached}
use meshcore.Runtime.Pending.{
  ExpectedAck, Requests, message_ack, expected_ack_clear, expected_ack_table_size,
  request_timeout_ms, find_slot, handle_loop, is_found, ack_told, expected_ack_register,
  expected_ack_handle, key_prefix_bytes,
}

-- The entry waits for an acknowledgement, and its time has not come.
pub record Waits (long_bits now_ms : ℕ) (entry : ExpectedAck) : Type 0 where
  pub valid : entry.valid ≡ true
  pub early : time_reached long_bits now_ms entry.expires_at_ms ≡ false

if-found :
    (b : Bool) (x y : Option ExpectedAck × List ExpectedAck)
    → is_found x.0 ≡ true
    → is_found y.0 ≡ true
    → is_found (if b then x else y).0 ≡ true
if-found true x y s t = s
if-found false x y s t = t

module _ (long_bits now_ms ack_crc : ℕ) where
  -- The loop finds an entry where some entry waits for the acknowledgement.
  finds :
      (entries : List ExpectedAck) (k : ℕ)
      → k < length entries
      → Waits long_bits now_ms (get_or entries k expected_ack_clear)
      → (get_or entries k expected_ack_clear).ack_crc ≡ ack_crc
      → is_found (handle_loop long_bits now_ms ack_crc entries).0 ≡ true
  unfolding handle_loop
  finds [] k h w e = absurd (omega arith)
  finds (entry ∷ entries) zero h w e = rw (w.valid, w.early, eq→== entry.ack_crc ack_crc e) refl
  finds (entry ∷ entries) (suc k) h w e =
      let rest = finds entries k (omega arith) w e in
      let r = handle_loop long_bits now_ms ack_crc entries in
      if-found (not entry.valid) _ _ rest (
        if-found (time_reached long_bits now_ms entry.expires_at_ms) _ _ rest
          (if-found (not (entry.ack_crc == ack_crc)) _ _ rest refl))

  -- What the loop finds is an entry that waits for the acknowledgement.
  found-Waits :
      (entries : List ExpectedAck) (entry : ExpectedAck)
      → (handle_loop long_bits now_ms ack_crc entries).0 ≡ some entry
      → Waits long_bits now_ms entry × (entry.ack_crc ≡ ack_crc)
  unfolding handle_loop
  found-Waits [] entry e = cc
  found-Waits (other ∷ entries) entry e = elim (Bool-cases other.valid) [
    | inr e1 ↦ found-Waits entries entry (ground arith)
    | inl e1 ↦ elim (Bool-cases (time_reached long_bits now_ms other.expires_at_ms)) [
      | inl e2 ↦ found-Waits entries entry (ground arith)
      | inr e2 ↦ elim (Bool-cases (other.ack_crc == ack_crc)) [
        | inr e3 ↦ found-Waits entries entry (ground arith)
        | inl e3 ↦
            let same : other ≡ entry = ground arith in
            rw (← same) (record { valid = e1; early = e2 }, ==→eq other.ack_crc ack_crc e3)
      ]
    ]
  ]

-- The entry is free, or its time has come.
pub IsFree : ℕ → ℕ → ExpectedAck → Type 0
IsFree long_bits now_ms entry =
    (entry.valid ≡ false) ⊎ (time_reached long_bits now_ms entry.expires_at_ms ≡ true)

abbrev entry_at : List ExpectedAck → ℕ → ExpectedAck
entry_at entries k = get_or entries k expected_ack_clear

IsFree-or-Waits :
    (long_bits now_ms : ℕ) (entry : ExpectedAck)
    → ((not entry.valid || time_reached long_bits now_ms entry.expires_at_ms) ≡ true)
        × IsFree long_bits now_ms entry
      ⊎ ((not entry.valid || time_reached long_bits now_ms entry.expires_at_ms) ≡ false)
        × Waits long_bits now_ms entry
unfolding IsFree
IsFree-or-Waits long_bits now_ms entry = elim (Bool-cases entry.valid) [
  | inr e ↦ inl (rw e refl, inl e)
  | inl e ↦ elim (Bool-cases (time_reached long_bits now_ms entry.expires_at_ms)) [
    | inl e2 ↦ inl (rw (e, e2) refl, inr e2)
    | inr e2 ↦ inr (rw (e, e2) refl, record { valid = e; early = e2 })
  ]
]

module _ (long_bits now_ms next : ℕ) (entries : List ExpectedAck) where
  from_here :
      (i rounds : ℕ)
      → Waits long_bits now_ms (entry_at entries ((next + i) % 8))
      → ((j : ℕ)
          → i + 1 ≤ j
          → j < i + 1 + rounds
          → Waits long_bits now_ms (entry_at entries ((next + j) % 8)))
      → (j : ℕ) → i ≤ j
      → j < i + suc rounds
      → Waits long_bits now_ms (entry_at entries ((next + j) % 8))
  from_here i rounds waits later j le b = elim (dec_lt i j) [
    | yes lt ↦ later j (omega arith) (omega arith)
    | no n ↦
        let same : i ≡ j = omega arith in
        subst (λ (m : ℕ). Waits long_bits now_ms (entry_at entries ((next + m) % 8))) same waits
  ]

  -- The slot is free, or every entry that the loop looked at waits.
  scan :
      (rounds i : ℕ)
      → next < 8
      → let k = find_slot rounds i next long_bits now_ms entries in
        (k < 8)
        × (IsFree long_bits now_ms (entry_at entries k)
            ⊎ (((j : ℕ)
                  → i ≤ j
                  → j < i + rounds
                  → Waits long_bits now_ms (entry_at entries ((next + j) % 8)))
                × (k ≡ next)))
  unfolding find_slot
  scan zero i h = (h, inr (λ j le lt. absurd (omega arith), refl))
  scan (suc rounds) i h =
      let idx = (next + i) % 8 in
      elim (IsFree-or-Waits long_bits now_ms (entry_at entries idx)) [
        | inl (e, free) ↦ rw e (omega arith, inl free)
        | inr (e, waits) ↦
            let (lt, rest) = scan rounds (i + 1) h in
            rw e (
              lt,
              elim rest [
                | inl free ↦ inl free
                | inr (all, e2) ↦ inr (λ j le b. from_here i rounds waits all j le b, e2)
              ],
            )
      ]

  -- Unless all eight entries wait, the slot that is found is free.
  find_slot_lem :
      next < 8
      → let k = find_slot 8 0 next long_bits now_ms entries in
        (k < 8)
        × (IsFree long_bits now_ms (entry_at entries k)
            ⊎ ((j : ℕ) → j < 8 → Waits long_bits now_ms (entry_at entries j)))
  find_slot_lem h =
      let (lt, found) = scan 8 0 h in
      (
        lt,
        elim found [
          | inl free ↦ inl free
          | inr (all, e) ↦ inr (λ j b.
              let place : (next + (j + 8 - next) % 8) % 8 ≡ j = omega arith in
              subst (λ (m : ℕ). Waits long_bits now_ms (entry_at entries m)) place
                (all ((j + 8 - next) % 8) (omega arith) (omega arith)))
        ],
      )

-- The table has its eight entries.
pub record IsTable (r : Requests) : Type 0 where
  pub slots : length r.expected_acks ≡ expected_ack_table_size
  pub index : r.expected_ack_next < expected_ack_table_size

module _ (long_bits now_ms : ℕ) (r : Requests) (v : IsTable r) (ack_crc : ℕ)
    (some_crc : ack_crc ≢ 0) (target : List ℕ) (attempt : ℕ) where
  abbrev registered : Requests
  registered = expected_ack_register long_bits now_ms r ack_crc (some target) attempt

  abbrev slot : ℕ
  slot = find_slot 8 0 r.expected_ack_next long_bits now_ms r.expected_acks

  -- What is entered.
  abbrev entered : ExpectedAck
  entered = record {
    valid = true;
    msg_sent_ms = now_ms;
    expires_at_ms = (now_ms + request_timeout_ms) % 2 ^ long_bits;
    ack_crc = ack_crc;
    target = take key_prefix_bytes target;
    attempt = attempt;
  }

  acks_registered : registered.expected_acks ≡ set r.expected_acks slot entered
  unfolding expected_ack_register
  acks_registered = rw (ne→== ack_crc 0 some_crc) refl

  -- An acknowledgement that is registered takes one of the eight entries and leaves the others: a
  -- free one or one whose time has come, unless all eight wait.
  pub expected_ack_register_lem :
      (k : ℕ) × (k < expected_ack_table_size)
      × (entry_at registered.expected_acks k ≡ entered)
      × ((j : ℕ) → k ≢ j → entry_at registered.expected_acks j ≡ entry_at r.expected_acks j)
      × (IsFree long_bits now_ms (entry_at r.expected_acks k)
          ⊎ ((j : ℕ)
              → j < expected_ack_table_size
              → Waits long_bits now_ms (entry_at r.expected_acks j)))
  expected_ack_register_lem =
      let (lt, found) =
        find_slot_lem long_bits now_ms r.expected_ack_next r.expected_acks v.index in
      (
        slot,
        lt,
        rw acks_registered (
            get_or-set_self r.expected_acks slot entered expected_ack_clear
              (omega (arith, lt, v.slots))),
        λ j ne.
            rw acks_registered (get_or-set_ne r.expected_acks slot j entered expected_ack_clear ne),
        found,
      )

  -- Whatever acknowledgements of a message that was registered come before its time is over, one is
  -- taken: it is told to the host for an entry with its checksum whose time has not come.
  pub expected_ack_handle-expected_ack_register :
      (later_ms : ℕ)
      → time_reached long_bits later_ms ((now_ms + request_timeout_ms) % 2 ^ long_bits) ≡ false
      → let answer = expected_ack_handle long_bits later_ms registered ack_crc in
        (answer.0 ≡ true)
        × ((entry : ExpectedAck) × (answer.1 ≡ message_ack entry.target entry.attempt ∷ [])
            × Waits long_bits later_ms entry
            × (entry.ack_crc ≡ ack_crc))
  unfolding expected_ack_handle
  expected_ack_handle-expected_ack_register later_ms early =
      let (k, lt, there, others, free) = expected_ack_register_lem in
      let acks = registered.expected_acks in
      let waits : Waits long_bits later_ms (entry_at acks k) =
        rw there (record { valid = refl; early = early }) in
      let full : length acks ≡ expected_ack_table_size =
        rw acks_registered (length-set r.expected_acks slot entered ∙ v.slots) in
      let found =
        finds long_bits later_ms ack_crc acks k (omega (arith, full)) waits
          (ap (λ (x : ExpectedAck). x.ack_crc) there) in
      elim (Option-cases (handle_loop long_bits later_ms ack_crc acks).0) [
        | inl e ↦ absurd (ground arith)
        | inr (entry, e) ↦
            let (good, same) = found-Waits long_bits later_ms ack_crc acks entry e in
            (found, (entry, ap ack_told e, good, same))
      ]
