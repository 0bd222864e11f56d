-- ===== src/Queue/Select.antt =====
-- `meshcore_packet_queue_get`: which entry it takes.
use meshcore.Prelude.{
  ℕ, zero, suc, ◌+◌, ◌≤◌, ◌<◌, ◌≡◌, ◌⊎◌, refl, Bool, true, false, ◌&&◌, Option, none, some, get_or,
  arith, ltb, if◌then◌else◌, Bool-cases, inl, inr,
}
use native.Mathlib.Decide.{dec_lt}
use meshcore.Queue.{Queue, best_loop, take_at, queue_get, is_due}
use meshcore.Queue.Items.{IsQueue, items, remove_at}
use meshcore.Queue.Compact.{items-compact_from, compact_from-IsQueue, size-compact_from}

abbrev pub due_at : Queue → ℕ → ℕ → Bool
due_at q now k = is_due (get_or q.schedule_table k 0) now

abbrev pub priority_at : Queue → ℕ → ℕ
priority_at q k = get_or q.pri_table k 0

-- Entry `k` is not due, or its priority is not better than `least`.
abbrev pub Passed : Queue → ℕ → ℕ → ℕ → Type 0
Passed q now least k = (due_at q now k ≡ false) ⊎ (least ≤ priority_at q k)

-- What the loop knows before it looks at entry `j`.
abbrev Chosen : Queue → ℕ → ℕ → ℕ → Option ℕ → Type 0
Chosen q now j least none = (least ≡ 0xFF) × ((k : ℕ) → k < j → Passed q now least k)
Chosen q now j least (some i) =
    (i < j)
    × (due_at q now i ≡ true)
    × (priority_at q i ≡ least)
    × (least < 0xFF)
    × ((k : ℕ) → k < j → Passed q now least k)
    × ((k : ℕ) → k < i → Passed q now (suc least) k)

least-le :
    (q : Queue) (now j least : ℕ) (best : Option ℕ) → Chosen q now j least best → least ≤ 0xFF
least-le q now j least none c = omega arith
least-le q now j least (some i) c = omega arith

Chosen-Passed :
    (q : Queue) (now j least : ℕ) (best : Option ℕ)
    → Chosen q now j least best
    → (k : ℕ) → k < j
    → Passed q now least k
Chosen-Passed q now j least none c = c.1
Chosen-Passed q now j least (some i) c = c.4

module _ (q : Queue) (now j least : ℕ) where
  abbrev better : Bool
  better = due_at q now j && ltb (priority_at q j) least

  Passed-step :
      better ≡ false
      → ((k : ℕ) → k < j → Passed q now least k)
      → (k : ℕ) → k < j + 1
      → Passed q now least k
  Passed-step e h k lt = elim (dec_lt k j) [
    | yes l ↦ h k l
    | no n ↦ let same : k ≡ j = omega arith in rw same (ground arith)
  ]

  Chosen-keep :
      (best : Option ℕ)
      → better ≡ false
      → Chosen q now j least best
      → Chosen q now (j + 1) least best
  Chosen-keep none e c = (c.0, Passed-step e c.1)
  Chosen-keep (some i) e c = (omega arith, c.1, c.2, c.3, Passed-step e c.4, c.5)

  Chosen-new :
      (best : Option ℕ)
      → better ≡ true
      → Chosen q now j least best
      → Chosen q now (j + 1) (priority_at q j) (some j)
  Chosen-new best e c = (
    omega arith,
    ground arith,
    refl,
    ground (arith, least-le q now j least best c),
    (λ k lt. elim (dec_lt k j) [
      | yes l ↦ ground (arith, Chosen-Passed q now j least best c k l)
      | no n ↦ let same : k ≡ j = omega arith in inr (rw same (omega arith))
    ]),
    (λ k lt. ground (arith, Chosen-Passed q now j least best c k lt)),
  )

Chosen-step :
    (q : Queue) (now j least : ℕ) (best : Option ℕ)
    → Chosen q now j least best
    → Chosen q now
        (j + 1)
        (if better q now j least then priority_at q j else least)
        (if better q now j least then some j else best)
Chosen-step q now j least best c = elim (Bool-cases (better q now j least)) [
  | inl e ↦ rw e (Chosen-new q now j least best e c)
  | inr e ↦ rw e (Chosen-keep q now j least best e c)
]

-- At the end of the loop the choice is between all the entries.
best_loop-Chosen :
    (rounds : ℕ) (q : Queue) (now j end least : ℕ) (best : Option ℕ)
    → j + rounds ≡ end
    → Chosen q now j least best
    → (final : ℕ) × Chosen q now end final (best_loop rounds j q now least best)
unfolding best_loop
best_loop-Chosen zero q now j end least best e c =
    let e' : j ≡ end = omega arith in (least, rw (← e') c)
best_loop-Chosen (suc rounds) q now j end least best e c =
    best_loop-Chosen rounds q now (j + 1) end
      (if better q now j least then priority_at q j else least)
      (if better q now j least then some j else best) (omega arith)
      (Chosen-step q now j least best c)

-- Entry `i` is due, and no due entry has a better priority, nor the same priority and an earlier
-- place.
pub record IsBest (q : Queue) (now i : ℕ) : Type 0 where
  pub in_range : i < q.num
  pub due : due_at q now i ≡ true
  pub sendable : priority_at q i < 0xFF
  pub least : (k : ℕ) → k < q.num → Passed q now (priority_at q i) k
  pub first : (k : ℕ) → k < i → Passed q now (suc (priority_at q i)) k

-- The queue gives the best of its due entries and keeps the others in their order.
pub record Takes (q : Queue) (now : ℕ) (r : Option ℕ × Queue) : Type 0 where
  pub index : ℕ
  pub best : IsBest q now index
  pub packet : r.0 ≡ get_or q.table index none
  pub rest : items r.1 ≡ remove_at index (items q)
  pub valid : IsQueue r.1
  pub same_size : r.1.size ≡ q.size

-- There is nothing to give: every entry waits for its time or has the priority 255.
pub record Waits (q : Queue) (now : ℕ) (r : Option ℕ × Queue) : Type 0 where
  pub nothing : r ≡ (none, q)
  pub passed : (k : ℕ) → k < q.num → Passed q now 0xFF k

take_at-result :
    (q : Queue) (now final : ℕ) (best : Option ℕ)
    → IsQueue q
    → Chosen q now q.num final best
    → Takes q now (take_at q best) ⊎ Waits q now (take_at q best)
unfolding take_at
take_at-result q now final none v c = inr (record { nothing = refl; passed = rw (← c.0) c.1 })
take_at-result q now final (some i) v c = inl (record {
  index = i;
  best = record {
    in_range = c.0;
    due = c.1;
    sendable = rw c.2 c.3;
    least = rw c.2 c.4;
    first = rw c.2 c.5;
  };
  packet = refl;
  rest = items-compact_from q i v c.0;
  valid = compact_from-IsQueue q i v c.0;
  same_size = size-compact_from q i v c.0;
})

-- A queue gives the entry of the best priority among those whose time has come, the oldest of these,
-- and takes it out; it gives nothing, and stays as it is, only when no entry of a priority below 255
-- is due.
pub queue_get_lem :
    (q : Queue) (now : ℕ)
    → IsQueue q
    → Takes q now (queue_get q now) ⊎ Waits q now (queue_get q now)
unfolding queue_get
queue_get_lem q now v =
    let (final, c) =
      best_loop-Chosen q.num q now 0 q.num 0xFF none (omega arith)
        (refl, λ k lt. absurd (omega arith)) in
    take_at-result q now final (best_loop q.num 0 q now 0xFF none) v c
