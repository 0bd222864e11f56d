-- ===== src/Pool/Reach.antt =====
-- The life of the pool: any sequence of calls by callers that give away only what they hold.
use meshcore.Prelude.{
  ℕ, ◌≤◌, ◌<◌, ◌≡◌, refl, ◌∙◌, Option, none, some, List, [], arith, inl, inr, ℤ, pos,
}
use meshcore.Queue.{max_pool_size}
use meshcore.Pool.{
  Manager, alloc_new, free, queue_outbound, queue_inbound, get_next_outbound, get_next_inbound,
  remove_outbound_by_idx, prepare,
}
use meshcore.Pool.Owned.{IsOwned}
use meshcore.Pool.Steps.{Gives, given, free-IsOwned, queue_outbound-IsOwned, queue_inbound-IsOwned}
use meshcore.Pool.Hands.{
  Hands, alloc_new-Hands, get_next_outbound-Hands, get_next_inbound-Hands,
  remove_outbound_by_idx-Hands,
}
use meshcore.Pool.Start.{prepare-IsOwned}

-- The pool, and the packets that its callers hold.
pub record State : Type 0 where
  pub manager : Manager
  pub held : List ℕ

abbrev pub after : Option ℕ × Manager → List ℕ → State
after r held = record { manager = r.1; held = given r.0 held }

-- One call of the packet manager.
pub data Step (s : State) : State → Type 0 where
  alloc : {t : State} → t ≡ after (alloc_new s.manager) s.held → Step s t
  next_outbound :
      (now : ℕ) {t : State} → t ≡ after (get_next_outbound s.manager now) s.held → Step s t
  next_inbound :
      (now : ℕ) {t : State} → t ≡ after (get_next_inbound s.manager now) s.held → Step s t
  remove : (i : ℤ) {t : State} → t ≡ after (remove_outbound_by_idx s.manager i) s.held → Step s t
  give_free :
      (p : ℕ) {t : State} → Gives p s.held t.held → t.manager ≡ free s.manager (some p) → Step s t
  give_outbound :
      (p priority scheduled_for : ℕ) {t : State}
      → Gives p s.held t.held
      → t.manager ≡ queue_outbound s.manager (some p) priority scheduled_for
      → Step s t
  give_inbound :
      (p scheduled_for : ℕ) {t : State}
      → Gives p s.held t.held
      → t.manager ≡ queue_inbound s.manager (some p) scheduled_for
      → Step s t

pub data Reach (s : State) : State → Type 0 where
  here : Reach s s
  next : {t u : State} → Reach s t → Step t u → Reach s u

abbrev pub Owned : State → Type 0
Owned s = IsOwned s.manager s.held

pub Hands-Owned :
    (m : Manager) (held : List ℕ) (r : Option ℕ × Manager)
    → IsOwned m held
    → Hands m held r
    → Owned (after r held)
Hands-Owned m held (none, m') o (inl (p, e, o')) = cc
Hands-Owned m held (some q, m') o (inl (p, e, o')) =
    let same : p ≡ q = ground arith in rw (← same) o'
Hands-Owned m held (none, m') o (inr (e, e')) = rw e' o
Hands-Owned m held (some q, m') o (inr (e, e')) = cc

Step-Owned : {s t : State} → Owned s → Step s t → Owned t
Step-Owned {s} o (alloc e) =
    rw e (Hands-Owned s.manager s.held _ o (alloc_new-Hands s.manager s.held o))
Step-Owned {s} o (next_outbound now e) =
    rw e (Hands-Owned s.manager s.held _ o (get_next_outbound-Hands s.manager s.held o now))
Step-Owned {s} o (next_inbound now e) =
    rw e (Hands-Owned s.manager s.held _ o (get_next_inbound-Hands s.manager s.held o now))
Step-Owned {s} o (remove i e) =
    rw e (Hands-Owned s.manager s.held _ o (remove_outbound_by_idx-Hands s.manager s.held o i))
Step-Owned {s} o (give_free p g e) = rw e (free-IsOwned s.manager p o g)
Step-Owned {s} o (give_outbound p pri t g e) = rw e (queue_outbound-IsOwned s.manager p o g pri t)
Step-Owned {s} o (give_inbound p t g e) = rw e (queue_inbound-IsOwned s.manager p o g t)

Reach-Owned : {s t : State} → Owned s → Reach s t → Owned t
Reach-Owned o here = o
Reach-Owned o (next r st) = Step-Owned (Reach-Owned o r) st

abbrev pub started : ℕ → State
started n = record { manager = prepare (pos n); held = [] }

pool_size-free : (m : Manager) (p : ℕ) → (free m (some p)).pool_size ≡ m.pool_size
unfolding free
pool_size-free m p = ground arith

Step-pool_size : {s t : State} → Step s t → t.manager.pool_size ≡ s.manager.pool_size
unfolding alloc_new get_next_outbound get_next_inbound remove_outbound_by_idx queue_outbound
    queue_inbound
Step-pool_size {s} (alloc e) = rw e (ground arith)
Step-pool_size {s} (next_outbound now e) = rw e (ground arith)
Step-pool_size {s} (next_inbound now e) = rw e (ground arith)
Step-pool_size {s} (remove i e) = rw e (ground arith)
Step-pool_size {s} (give_free p g e) = rw e (pool_size-free s.manager p)
Step-pool_size {s} (give_outbound p pri t g e) = rw e (ground (arith, pool_size-free s.manager p))
Step-pool_size {s} (give_inbound p t g e) = rw e (ground (arith, pool_size-free s.manager p))

Reach-pool_size : {s t : State} → Reach s t → t.manager.pool_size ≡ s.manager.pool_size
Reach-pool_size here = refl
Reach-pool_size (next r st) = Step-pool_size st ∙ Reach-pool_size r

-- Whatever calls are made of a pool of `n` packets, by callers that give away only what they hold,
-- each of the packets 0 to n - 1 is in exactly one place: on the free list, in the send queue, in
-- the receive queue or with a caller; and together these hold `n`.
pub pool_conserved :
    (n : ℕ) (t : State)
    → 0 < n
    → n ≤ max_pool_size
    → Reach (started n) t
    → IsOwned t.manager t.held × (t.manager.pool_size ≡ n)
pool_conserved n t lo hi r =
    let (o, size) = prepare-IsOwned n lo hi in (Reach-Owned o r, Reach-pool_size r ∙ size)
