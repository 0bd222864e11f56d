-- ===== src/Tests/Pools.antt =====
-- Queues and the packet pool.
use meshcore.Prelude.{
  ℕ, ◌+◌, ◌<◌, ◌≡◌, ◌↔◌, ◌⊎◌, refl, none, some, List, [], ◌∷◌, ◌++◌, length, arith, pos, zero, suc,
  ◌^◌, get_or,
}
use meshcore.Queue.{
  Queue, queue_zero, queue_init, queue_add, queue_get, best_loop, take_at, compact_from,
  compact_loop, queue_remove_by_idx, queue_next_scheduled_get, next_loop, earlier,
  queue_count_before, count_loop,
}
use meshcore.Queue.Items.{IsQueue, items}
use meshcore.Queue.Select.{Takes, Waits, queue_get_lem}
use meshcore.Queue.Deadline.{NextTime, IsSchedule, queue_next_scheduled_get_lem}
use meshcore.Pool.{prepare, prepare_queues, fill, deinit, alloc_new, queue_outbound}
use meshcore.Pool.Owned.{IsOwned}
use meshcore.Pool.Steps.{Gives, queue_outbound_delivers}
use meshcore.Pool.Hands.{alloc_new_refused_iff}
use meshcore.Pool.Reach.{State, Step, Reach, started, after, pool_conserved}

-- Three entries: one for later, and two that are due at 100, the younger with the better priority.
abbrev pub busy : Queue
busy = record {
  table = some 4 ∷ some 5 ∷ some 6 ∷ none ∷ none ∷ none ∷ none ∷ none ∷ none ∷ none ∷ [];
  pri_table = 0 ∷ 3 ∷ 1 ∷ 0 ∷ 0 ∷ 0 ∷ 0 ∷ 0 ∷ 0 ∷ 0 ∷ [];
  schedule_table = 500 ∷ 90 ∷ 100 ∷ 0 ∷ 0 ∷ 0 ∷ 0 ∷ 0 ∷ 0 ∷ 0 ∷ [];
  size = 4;
  num = 3;
}

busy-IsQueue : IsQueue busy
busy-IsQueue = omega arith

busy_runs :
    ((queue_get busy 100).0 ≡ some 6)
    × ((queue_get busy 50).0 ≡ none)
    × (queue_next_scheduled_get busy 100 ≡ some 100)
    × (queue_next_scheduled_get busy 50 ≡ some 90)
    × (queue_count_before busy 100 ≡ 2)
    × ((queue_remove_by_idx busy (pos 1)).0 ≡ some 5)
unfolding queue_get best_loop take_at compact_from compact_loop queue_next_scheduled_get next_loop
    earlier queue_count_before count_loop queue_remove_by_idx
busy_runs = (refl, refl, refl, refl, refl, refl)

queue_get_lem_example : Takes busy 100 (queue_get busy 100) ⊎ Waits busy 100 (queue_get busy 100)
queue_get_lem_example = queue_get_lem busy 100 busy-IsQueue

abbrev AllBelow : ℕ → List ℕ → Type 0
AllBelow b [] = Unit {0}
AllBelow b (x ∷ xs) = (x < b) × AllBelow b xs

get_or_below : (b : ℕ) (xs : List ℕ) → 0 < b → AllBelow b xs → (k : ℕ) → get_or xs k 0 < b
get_or_below b [] p h k = p
get_or_below b (x ∷ xs) p h zero = h.0
get_or_below b (x ∷ xs) p h (suc k) = get_or_below b xs p h.1 k

pub busy-IsSchedule : IsSchedule busy
busy-IsSchedule = get_or_below (2 ^ 32) busy.schedule_table (omega arith) (omega arith)

queue_next_scheduled_get_lem_example : NextTime busy 50 (queue_next_scheduled_get busy 50)
queue_next_scheduled_get_lem_example =
    queue_next_scheduled_get_lem busy 50 busy-IsSchedule (omega arith)

-- A pool of three: a packet is taken, then queued for sending.
abbrev pub taken : State
taken = after (alloc_new (started 3).manager) []

abbrev queued : State
queued = record { manager = queue_outbound taken.manager (some 0) 1 500; held = [] }

pub taken-Gives : Gives 0 taken.held []
unfolding alloc_new queue_remove_by_idx prepare prepare_queues queue_init queue_zero fill queue_add
    deinit
taken-Gives = record { before = []; after = []; all = refl; rest = refl }

taken-Reach : Reach (started 3) taken
taken-Reach = Reach.next Reach.here (Step.alloc refl)

queued-Reach : Reach (started 3) queued
queued-Reach = Reach.next taken-Reach (Step.give_outbound 0 1 500 taken-Gives refl)

pool_conserved_example : IsOwned queued.manager [] × (queued.manager.pool_size ≡ 3)
pool_conserved_example = pool_conserved 3 queued (omega arith) (omega arith) queued-Reach

pub taken-IsOwned : IsOwned taken.manager taken.held
taken-IsOwned = (pool_conserved 3 taken (omega arith) (omega arith) taken-Reach).0

queue_outbound_delivers_example :
    items queued.manager.send_queue
    ≡ items taken.manager.send_queue
      ++ (record { packet = some 0; priority = 1; scheduled_for = 500 } ∷ [])
queue_outbound_delivers_example =
    queue_outbound_delivers taken.manager 0 taken-IsOwned taken-Gives 1 500

alloc_new_refused_iff_example : ((alloc_new taken.manager).0 ≡ none) ↔ (
    taken.manager.send_queue.num + taken.manager.rx_queue.num + length taken.held
    ≡ taken.manager.pool_size)
alloc_new_refused_iff_example = alloc_new_refused_iff taken.manager taken.held taken-IsOwned
