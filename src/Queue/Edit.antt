-- ===== src/Queue/Edit.antt =====
-- `meshcore_packet_queue_add`, `_remove_by_idx`, `_item_at` and `_init` as operations on the list of
-- entries.
use meshcore.Prelude.{
  ℕ, zero, suc, ◌+◌, ◌≤◌, ◌<◌, ◌≡◌, ◌≢◌, refl, ap, ap₂, ◌∙◌, Bool, true, false, Option, none, some,
  List, [], ◌∷◌, ◌++◌, length, length-set, get_or, set, get_or-set_self, get_or-set_ne, arith, leb,
  ltb, if◌then◌else◌, pos, Bool-cases, inl, inr, lt→ltb, le→ltb,
}
use meshcore.Queue.{Queue, queue_add, queue_remove_by_idx}
use meshcore.Queue.Items.{
  IsQueue, Entry, entry_at, entries_from, items, remove_at, entries_from_shift, length-items,
}
use meshcore.Queue.Compact.{items-compact_from, compact_from-IsQueue, size-compact_from}

entries_from-suc :
    (q : Queue) (j n : ℕ)
    → entries_from q j (suc n) ≡ entries_from q j n ++ (entry_at q (j + n) ∷ [])
unfolding entries_from
entries_from-suc q j zero = ap (λ (k : ℕ). entry_at q k ∷ []) (omega arith)
entries_from-suc q j (suc n) =
    ap (λ xs. entry_at q j ∷ xs)
      (entries_from-suc q (suc j) n
        ∙ ap (λ (k : ℕ). entries_from q (suc j) n ++ (entry_at q k ∷ [])) (omega arith))

abbrev appended : Queue → ℕ → ℕ → ℕ → Queue
appended q packet priority scheduled_for = record q {
  table = set q.table q.num (some packet);
  pri_table = set q.pri_table q.num priority;
  schedule_table = set q.schedule_table q.num scheduled_for;
  num = q.num + 1;
}

module _ (q : Queue) (packet priority scheduled_for : ℕ) (v : IsQueue q)
    (room : q.num < q.size) where
  new : Entry
  new = record { packet = some packet; priority = priority; scheduled_for = scheduled_for }

  entry_at-appended_ne :
      (k : ℕ) → q.num ≢ k → entry_at (appended q packet priority scheduled_for) k ≡ entry_at q k
  entry_at-appended_ne k ne = ground (
    arith,
    get_or-set_ne q.table q.num k (some packet) none,
    get_or-set_ne q.pri_table q.num k priority 0,
    get_or-set_ne q.schedule_table q.num k scheduled_for 0,
  )

  entry_at-appended_self : entry_at (appended q packet priority scheduled_for) q.num ≡ new
  unfolding new
  entry_at-appended_self = ground (
    arith,
    get_or-set_self q.table q.num (some packet) none,
    get_or-set_self q.pri_table q.num priority 0,
    get_or-set_self q.schedule_table q.num scheduled_for 0,
    v.size_le,
    v.table_len,
    v.pri_len,
    v.schedule_len,
  )

  items-appended : items (appended q packet priority scheduled_for) ≡ items q ++ (new ∷ [])
  unfolding items
  items-appended =
      let q' = appended q packet priority scheduled_for in
      ap (λ (n : ℕ). entries_from q' 0 n) (omega arith)
      ∙ entries_from-suc q' 0 q.num
      ∙ ap₂ (λ xs y. xs ++ (y ∷ []))
          (entries_from_shift q q' 0 0 q.num (λ k lt. entry_at-appended_ne (0 + k) (omega arith)))
          (ap (entry_at q') (omega arith) ∙ entry_at-appended_self)

  appended-IsQueue : IsQueue (appended q packet priority scheduled_for)
  appended-IsQueue = record {
    num_le = omega arith;
    size_le = v.size_le;
    table_len = length-set q.table q.num (some packet) ∙ v.table_len;
    pri_len = length-set q.pri_table q.num priority ∙ v.pri_len;
    schedule_len = length-set q.schedule_table q.num scheduled_for ∙ v.schedule_len;
  }

-- A list of entries that is bounded by `size`.
unfoldable pub append_entry : ℕ → List Entry → Entry → Bool × List Entry
append_entry size es e = if ltb (length es) size then (true, es ++ (e ∷ [])) else (false, es)

-- Adding appends the entry when the queue has room, and otherwise says so and changes nothing.
pub queue_add_refines :
    (q : Queue) (packet priority scheduled_for : ℕ)
    → IsQueue q
    → let (ok, q') = queue_add q (some packet) priority scheduled_for in
      ((ok, items q')
        ≡ append_entry q.size
            (items q)
            (record { packet = some packet; priority = priority; scheduled_for = scheduled_for }))
      × IsQueue q'
      × (q'.size ≡ q.size)
unfolding queue_add new append_entry
queue_add_refines q packet priority scheduled_for v = elim (Bool-cases (leb q.size q.num)) [
  | inl full ↦ rw (full, length-items q, le→ltb q.num q.size (ground arith)) (refl, v, refl)
  | inr free ↦
      let lt : q.num < q.size = ground arith in
      rw (free, length-items q, lt→ltb q.num q.size lt)
        (
          ap (λ es. (true, es)) (items-appended q packet priority scheduled_for v lt),
          appended-IsQueue q packet priority scheduled_for v lt,
          refl,
        )
]

-- Taking the entry at an index out of a list; past its end there is nothing to take.
unfoldable pub take_out : ℕ → List Entry → Option ℕ × List Entry
take_out i [] = (none, [])
take_out zero (e ∷ es) = (e.packet, es)
take_out (suc i) (e ∷ es) = let (r, es') = take_out i es in (r, e ∷ es')

take_out-entries_from :
    (q : Queue) (i j n : ℕ)
    → i < n
    → take_out i (entries_from q j n)
      ≡ (get_or q.table (j + i) none, remove_at i (entries_from q j n))
unfolding take_out entries_from
take_out-entries_from q i j zero lt = absurd (omega arith)
take_out-entries_from q zero j (suc n) lt =
    ap (λ (k : ℕ). (get_or q.table k none, entries_from q (suc j) n)) (omega arith)
take_out-entries_from q (suc i) j (suc n) lt =
    rw (take_out-entries_from q i (suc j) n (omega arith)) (
      ap (λ (k : ℕ). (get_or q.table k none, entry_at q j ∷ remove_at i (entries_from q (suc j) n)))
        (omega arith))

pub take_out-items :
    (q : Queue) (i : ℕ)
    → i < q.num
    → take_out i (items q) ≡ (get_or q.table i none, remove_at i (items q))
unfolding items
take_out-items q i lt =
    take_out-entries_from q i 0 q.num lt
    ∙ ap (λ (k : ℕ). (get_or q.table k none, remove_at i (entries_from q 0 q.num))) (omega arith)

take_out_past : (i : ℕ) (es : List Entry) → length es ≤ i → take_out i es ≡ (none, es)
unfolding take_out
take_out_past i [] le = refl
take_out_past zero (e ∷ es) le = absurd (omega arith)
take_out_past (suc i) (e ∷ es) le = rw (take_out_past i es (omega arith)) refl

-- Removing by index takes the entry at the index out of the list, in and out of range.
pub queue_remove_by_idx_refines :
    (q : Queue) (i : ℕ)
    → IsQueue q
    → let (r, q') = queue_remove_by_idx q (pos i) in
      ((r, items q') ≡ take_out i (items q)) × IsQueue q' × (q'.size ≡ q.size)
unfolding queue_remove_by_idx
queue_remove_by_idx_refines q i v = elim (Bool-cases (leb q.num i)) [
  | inl past ↦
      rw (past, take_out_past i (items q) (rw (length-items q) (ground arith))) (refl, v, refl)
  | inr inside ↦
      let lt : i < q.num = ground arith in
      rw (inside, take_out-items q i lt)
        (
          ap (λ es. (get_or q.table i none, es)) (items-compact_from q i v lt),
          compact_from-IsQueue q i v lt,
          size-compact_from q i v lt,
        )
]
