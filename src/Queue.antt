-- ===== src/Queue.antt =====
-- `struct meshcore_packet_queue` of `src/support/meshcore_packet_manager.{h,c}` and its functions.
-- A packet pointer is the index of its packet in the pool, `none` is NULL. The pointers `table`,
-- `pri_table` and `schedule_table` always lead to the queue's own storage, which stands here.
pub mod Compact
pub mod Deadline
pub mod Edit
pub mod Items
pub mod Select
use meshcore.Prelude.{
  ℕ, zero, suc, ◌+◌, ◌-◌, ◌^◌, Bool, true, false, ◌&&◌, ◌||◌, not, Option, none, some, List, [],
  ◌∷◌, replicate, get_or, set, sub32, is_neg32, is_pos32, ltb, leb, ◌==◌, if◌then◌else◌, ℤ, pos,
  negsuc,
}

-- MESHCORE_PACKET_QUEUE_MANAGER_MAX_POOL_SIZE, at its default.
abbrev pub max_pool_size : ℕ
max_pool_size = 10

pub record Queue : Type 0 where
  pub table : List (Option ℕ)
  pub pri_table : List ℕ
  pub schedule_table : List ℕ
  pub size : ℕ
  pub num : ℕ

-- All bytes zero.
unfoldable pub queue_zero : Queue
queue_zero = record {
  table = replicate max_pool_size none;
  pri_table = replicate max_pool_size 0;
  schedule_table = replicate max_pool_size 0;
  size = 0;
  num = 0;
}

unfoldable pub queue_init : Queue → ℤ → Bool × Queue
unfolding queue_zero
queue_init q (negsuc n) = (false, q)
queue_init q (pos max_entries) =
    if ltb max_pool_size max_entries
    then (false, queue_zero)
    else if max_entries == 0
    then (true, queue_zero)
    else (true, record queue_zero { size = max_entries })

unfoldable pub queue_deinit : Queue → Queue
queue_deinit q = queue_zero

-- `(int32_t)(schedule - now) <= 0`.
abbrev pub is_due : ℕ → ℕ → Bool
is_due schedule now = not (is_pos32 (sub32 schedule now))

-- The loop of `meshcore_packet_queue_compact_from`: `queue->num - idx` rounds.
unfoldable pub compact_loop : ℕ → ℕ → Queue → Queue
compact_loop zero idx q = q
compact_loop (suc rounds) idx q = compact_loop rounds (idx + 1) (record q {
  table = set q.table idx (get_or q.table (idx + 1) none);
  pri_table = set q.pri_table idx (get_or q.pri_table (idx + 1) 0);
  schedule_table = set q.schedule_table idx (get_or q.schedule_table (idx + 1) 0);
})

-- It is called at `idx < queue->num` only, so `queue->num--` does not go below 0.
unfoldable pub compact_from : Queue → ℕ → Queue
compact_from q idx = let q' = record q { num = q.num - 1 } in compact_loop (q'.num - idx) idx q'

-- The loop of `meshcore_packet_queue_get` from index `j`; `none` is a `best_idx` of -1.
unfoldable pub best_loop : ℕ → ℕ → Queue → ℕ → ℕ → Option ℕ → Option ℕ
best_loop zero j q now min_pri best_idx = best_idx
best_loop (suc rounds) j q now min_pri best_idx =
    let better = is_due (get_or q.schedule_table j 0) now && ltb (get_or q.pri_table j 0) min_pri in
    best_loop rounds (j + 1) q now (if better then get_or q.pri_table j 0 else min_pri)
      (if better then some j else best_idx)

unfoldable pub take_at : Queue → Option ℕ → Option ℕ × Queue
take_at q none = (none, q)
take_at q (some best_idx) = (get_or q.table best_idx none, compact_from q best_idx)

unfoldable pub queue_get : Queue → ℕ → Option ℕ × Queue
queue_get q now = take_at q (best_loop q.num 0 q now 0xFF none)

unfoldable pub queue_add : Queue → Option ℕ → ℕ → ℕ → Bool × Queue
queue_add q none priority scheduled_for = (false, q)
queue_add q (some packet) priority scheduled_for = if leb q.size q.num then (false, q) else (
  true,
  record q {
    table = set q.table q.num (some packet);
    pri_table = set q.pri_table q.num priority;
    schedule_table = set q.schedule_table q.num scheduled_for;
    num = q.num + 1;
  },
)

unfoldable pub queue_count : Queue → ℕ
queue_count q = q.num

unfoldable pub count_loop : ℕ → ℕ → Queue → ℕ → ℕ → ℕ
count_loop zero j q now n = n
count_loop (suc rounds) j q now n =
    count_loop rounds (j + 1) q now
      (if is_pos32 (sub32 (get_or q.schedule_table j 0) now) then n else n + 1)

unfoldable pub queue_count_before : Queue → ℕ → ℕ
queue_count_before q now = if now == 2 ^ 32 - 1 then q.num else count_loop q.num 0 q now 0

-- `best` is `none` as long as `have_best` is false.
unfoldable pub earlier : ℕ → Option ℕ → Option ℕ
earlier candidate none = some candidate
earlier candidate (some best) =
    if is_neg32 (sub32 candidate best) then some candidate else some best

-- The loop of `meshcore_packet_queue_next_scheduled_get`. The result is `*scheduled_for`, `none` where
-- the function returns false.
unfoldable pub next_loop : ℕ → ℕ → Queue → ℕ → Option ℕ → Option ℕ
next_loop zero j q now best = best
next_loop (suc rounds) j q now best =
    let candidate = get_or q.schedule_table j 0 in
    let rest = next_loop rounds (j + 1) q now (earlier candidate best) in
    if is_due candidate now then some now else rest

unfoldable pub queue_next_scheduled_get : Queue → ℕ → Option ℕ
queue_next_scheduled_get q now = next_loop q.num 0 q now none

unfoldable pub queue_item_at : Queue → ℤ → Option ℕ
queue_item_at q (negsuc n) = none
queue_item_at q (pos i) = if leb q.num i then none else get_or q.table i none

unfoldable pub queue_remove_by_idx : Queue → ℤ → Option ℕ × Queue
queue_remove_by_idx q (negsuc n) = (none, q)
queue_remove_by_idx q (pos i) =
    if leb q.num i then (none, q) else (get_or q.table i none, compact_from q i)
