-- ===== src/Queue/Compact.antt =====
-- `meshcore_packet_queue_compact_from`: the loop over the three arrays takes one entry out.
use meshcore.Prelude.{
  ℕ, zero, suc, ◌+◌, ◌-◌, ◌≤◌, ◌<◌, ◌≡◌, ◌≢◌, refl, ap, ◌∙◌, none, length, length-set, get_or, set,
  get_or-set_self, get_or-set_ne, arith,
}
use native.Mathlib.Decide.{ℕ_discrete}
use meshcore.Queue.{Queue, max_pool_size, compact_loop, compact_from}
use meshcore.Queue.Items.{IsQueue, entry_at, entries_from, items, remove_at, entries_from_remove}

-- The three arrays have the size of the storage.
abbrev pub HasStorage : Queue → Type 0
HasStorage q =
    (length q.table ≡ max_pool_size)
    × (length q.pri_table ≡ max_pool_size)
    × (length q.schedule_table ≡ max_pool_size)

abbrev copy_down : Queue → ℕ → Queue
copy_down q idx = record q {
  table = set q.table idx (get_or q.table (idx + 1) none);
  pri_table = set q.pri_table idx (get_or q.pri_table (idx + 1) 0);
  schedule_table = set q.schedule_table idx (get_or q.schedule_table (idx + 1) 0);
}

entry_at-copy_down_self :
    (q : Queue) (idx : ℕ)
    → HasStorage q
    → idx < max_pool_size
    → entry_at (copy_down q idx) idx ≡ entry_at q (idx + 1)
entry_at-copy_down_self q idx s lt = ground (
  arith,
  get_or-set_self q.table idx (get_or q.table (idx + 1) none) none,
  get_or-set_self q.pri_table idx (get_or q.pri_table (idx + 1) 0) 0,
  get_or-set_self q.schedule_table idx (get_or q.schedule_table (idx + 1) 0) 0,
)

entry_at-copy_down_ne :
    (q : Queue) (idx j : ℕ) → idx ≢ j → entry_at (copy_down q idx) j ≡ entry_at q j
entry_at-copy_down_ne q idx j ne = ground (
  arith,
  get_or-set_ne q.table idx j (get_or q.table (idx + 1) none) none,
  get_or-set_ne q.pri_table idx j (get_or q.pri_table (idx + 1) 0) 0,
  get_or-set_ne q.schedule_table idx j (get_or q.schedule_table (idx + 1) 0) 0,
)

copy_down-HasStorage : (q : Queue) (idx : ℕ) → HasStorage q → HasStorage (copy_down q idx)
copy_down-HasStorage q idx s = (
  length-set q.table idx (get_or q.table (idx + 1) none) ∙ s.0,
  length-set q.pri_table idx (get_or q.pri_table (idx + 1) 0) ∙ s.1,
  length-set q.schedule_table idx (get_or q.schedule_table (idx + 1) 0) ∙ s.2,
)

compact_loop_before :
    (rounds idx j : ℕ) (q : Queue) → j < idx → entry_at (compact_loop rounds idx q) j ≡ entry_at q j
unfolding compact_loop
compact_loop_before zero idx j q lt = refl
compact_loop_before (suc rounds) idx j q lt =
    compact_loop_before rounds (idx + 1) j (copy_down q idx) (omega arith)
    ∙ entry_at-copy_down_ne q idx j (omega arith)

compact_loop_moved :
    (rounds idx j : ℕ) (q : Queue)
    → HasStorage q
    → idx + rounds < max_pool_size
    → idx ≤ j
    → j < idx + rounds
    → entry_at (compact_loop rounds idx q) j ≡ entry_at q (j + 1)
unfolding compact_loop
compact_loop_moved zero idx j q s fits le lt = absurd (omega arith)
compact_loop_moved (suc rounds) idx j q s fits le lt = elim (ℕ_discrete idx j) [
  | yes e ↦
      compact_loop_before rounds (idx + 1) j (copy_down q idx) (omega arith)
      ∙ rw (← e) (entry_at-copy_down_self q idx s (omega arith))
  | no ne ↦
      compact_loop_moved rounds (idx + 1) j (copy_down q idx) (copy_down-HasStorage q idx s)
        (omega arith) (omega arith) (omega arith)
      ∙ entry_at-copy_down_ne q idx (j + 1) (omega arith)
]

compact_loop_rest :
    (rounds idx : ℕ) (q : Queue)
    → HasStorage q
    → (HasStorage (compact_loop rounds idx q))
      × ((compact_loop rounds idx q).num ≡ q.num)
      × ((compact_loop rounds idx q).size ≡ q.size)
unfolding compact_loop
compact_loop_rest zero idx q s = (s, refl, refl)
compact_loop_rest (suc rounds) idx q s =
    compact_loop_rest rounds (idx + 1) (copy_down q idx) (copy_down-HasStorage q idx s)

IsQueue-HasStorage : {q : Queue} → IsQueue q → HasStorage q
IsQueue-HasStorage v = (v.table_len, v.pri_len, v.schedule_len)

module _ (q : Queue) (i : ℕ) (v : IsQueue q) (lt : i < q.num) where
  abbrev less : Queue
  less = record q { num = q.num - 1 }

  -- The rounds of the loop lead from `i` to the last entry.
  rounds-eq : i + (less.num - i) ≡ q.num - 1
  rounds-eq = omega arith

  fits : i + (less.num - i) < max_pool_size
  fits = omega (arith, v.num_le, v.size_le)

  pub num-compact_from : (compact_from q i).num ≡ q.num - 1
  unfolding compact_from
  num-compact_from = (compact_loop_rest (less.num - i) i less (IsQueue-HasStorage v)).1

  pub size-compact_from : (compact_from q i).size ≡ q.size
  unfolding compact_from
  size-compact_from = (compact_loop_rest (less.num - i) i less (IsQueue-HasStorage v)).2

  pub compact_from-IsQueue : IsQueue (compact_from q i)
  compact_from-IsQueue =
      let s : HasStorage (compact_from q i) =
        unfold compact_from in (compact_loop_rest (less.num - i) i less (IsQueue-HasStorage v)).0 in
      record {
        num_le = omega (arith, num-compact_from, size-compact_from, v.num_le);
        size_le = omega (arith, size-compact_from, v.size_le);
        table_len = s.0;
        pri_len = s.1;
        schedule_len = s.2;
      }

  before : (k : ℕ) → k < i → entry_at (compact_from q i) (0 + k) ≡ entry_at q (0 + k)
  unfolding compact_from
  before k lt' = compact_loop_before (less.num - i) i (0 + k) less (omega arith)

  after : (k : ℕ) → i ≤ k → k < q.num - 1 → entry_at (compact_from q i) (0 + k) ≡ entry_at q (1 + k)
  unfolding compact_from
  after k le lt' =
      compact_loop_moved (less.num - i) i (0 + k) less (IsQueue-HasStorage v) fits (omega arith)
        (omega (arith, rounds-eq))
      ∙ ap (entry_at q) (omega arith)

  -- The entry at `i` goes, and the others keep their order.
  pub items-compact_from : items (compact_from q i) ≡ remove_at i (items q)
  unfolding items
  items-compact_from =
      ap (λ (n : ℕ). entries_from (compact_from q i) 0 n) num-compact_from
      ∙ entries_from_remove q (compact_from q i) i 0 (q.num - 1) (omega arith) before after
      ∙ ap (λ (n : ℕ). remove_at i (entries_from q 0 n)) (omega arith)
