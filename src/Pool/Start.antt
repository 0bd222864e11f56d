-- ===== src/Pool/Start.antt =====
-- `meshcore_packet_queue_manager_prepare`: the pool begins with every packet on the free list.
use meshcore.Prelude.{
  ℕ, zero, suc, ◌+◌, ◌≤◌, ◌<◌, ◌≡◌, refl, true, [], arith, ltb, if◌then◌else◌, le→ltb, ne→==, pos,
}
use mathlib.Core.Path.{subst}
use meshcore.Queue.{Queue, max_pool_size, queue_init, queue_zero}
use meshcore.Queue.Items.{items, entries_from}
use meshcore.Pool.{Manager, prepare, prepare_queues, fill, deinit}
use meshcore.Pool.Count.{count, count_entries}
use meshcore.Pool.Owned.{holds, Pooled, IsOwned, queue_add-Moves}

-- The packets before `i` are on the free list.
record Filled (i : ℕ) (m : Manager) : Type 0 where
  unused : Pooled m.pool_size m.unused
  send : Pooled m.pool_size m.send_queue
  rx : Pooled m.pool_size m.rx_queue
  free_once : (k : ℕ) → holds k m.unused ≡ (if ltb k i then 1 else 0)
  free_num : m.unused.num ≡ i
  send_empty : (k : ℕ) → holds k m.send_queue ≡ 0
  rx_empty : (k : ℕ) → holds k m.rx_queue ≡ 0
  send_num : m.send_queue.num ≡ 0
  rx_num : m.rx_queue.num ≡ 0

ready-IsOwned : (m : Manager) → Filled m.pool_size m → IsOwned (record m { initialized = true }) []
ready-IsOwned m f = record {
  ready = refl;
  unused = f.unused;
  send = f.send;
  rx = f.rx;
  once = λ k. unfold count in omega (arith, f.free_once k, f.send_empty k, f.rx_empty k);
  total = omega (arith, f.free_num, f.send_num, f.rx_num);
}

fill-IsOwned :
    (rounds i : ℕ) (m : Manager)
    → i + rounds ≡ m.pool_size
    → Filled i m
    → IsOwned (fill rounds i m) [] × ((fill rounds i m).pool_size ≡ m.pool_size)
unfolding fill
fill-IsOwned zero i m e f =
    let e' : i ≡ m.pool_size = omega arith in
    (ready-IsOwned m (subst (λ (k : ℕ). Filled k m) e' f), refl)
fill-IsOwned (suc rounds) i m e f =
    let (ok, pooled, moves, its) =
      queue_add-Moves m.pool_size m.unused i 0 0 f.unused (omega (arith, f.free_num)) in
    rw ok (
      fill-IsOwned rounds (i + 1) _ (omega arith) (record {
        unused = pooled;
        send = f.send;
        rx = f.rx;
        free_once = λ k. ground (arith, moves.counts k, f.free_once k);
        free_num = omega (arith, moves.longer, f.free_num);
        send_empty = f.send_empty;
        rx_empty = f.rx_empty;
        send_num = f.send_num;
        rx_num = f.rx_num;
      }))

abbrev empty_queue : ℕ → Queue
empty_queue n = record queue_zero { size = n }

queue_init_lem :
    (q : Queue) (n : ℕ) → 0 < n → n ≤ max_pool_size → queue_init q (pos n) ≡ (true, empty_queue n)
unfolding queue_init
queue_init_lem q n lo hi = rw (le→ltb max_pool_size n hi, ne→== n 0 (omega arith)) refl

empty_queue-Pooled : (n : ℕ) → n ≤ max_pool_size → Pooled n (empty_queue n)
unfolding queue_zero items entries_from
empty_queue-Pooled n hi = record {
  valid = record {
    num_le = omega arith;
    size_le = hi;
    table_len = refl;
    pri_len = refl;
    schedule_len = refl;
  };
  sized = refl;
  no_null = tt;
}

empty_queue-holds : (n k : ℕ) → holds k (empty_queue n) ≡ 0
unfolding queue_zero items entries_from count_entries
empty_queue-holds n k = refl

empty_queue-num : (n : ℕ) → (empty_queue n).num ≡ 0
unfolding queue_zero
empty_queue-num n = refl

abbrev before_fill : ℕ → Manager
before_fill n = record deinit {
  pool_size = n;
  unused = empty_queue n;
  send_queue = empty_queue n;
  rx_queue = empty_queue n;
}

before_fill-Filled : (n : ℕ) → n ≤ max_pool_size → Filled 0 (before_fill n)
before_fill-Filled n hi = record {
  unused = empty_queue-Pooled n hi;
  send = empty_queue-Pooled n hi;
  rx = empty_queue-Pooled n hi;
  free_once = λ k. ground (arith, empty_queue-holds n k);
  free_num = empty_queue-num n;
  send_empty = empty_queue-holds n;
  rx_empty = empty_queue-holds n;
  send_num = empty_queue-num n;
  rx_num = empty_queue-num n;
}

prepare_lem : (n : ℕ) → 0 < n → n ≤ max_pool_size → prepare (pos n) ≡ fill n 0 (before_fill n)
unfolding prepare prepare_queues
prepare_lem n lo hi =
    rw
      (
        ne→== n 0 (omega arith),
        le→ltb max_pool_size n hi,
        queue_init_lem deinit.unused n lo hi,
        queue_init_lem deinit.send_queue n lo hi,
        queue_init_lem deinit.rx_queue n lo hi,
      )
      refl

-- A pool of one to ten packets starts with nothing in the hands of a caller, and has the size that
-- was asked for.
pub prepare-IsOwned :
    (n : ℕ)
    → 0 < n
    → n ≤ max_pool_size
    → IsOwned (prepare (pos n)) [] × ((prepare (pos n)).pool_size ≡ n)
prepare-IsOwned n lo hi =
    rw (prepare_lem n lo hi)
      (fill-IsOwned n 0 (before_fill n) (omega arith) (before_fill-Filled n hi))
