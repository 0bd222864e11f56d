-- ===== src/Pool/Steps.antt =====
-- The calls that give a packet back to the pool: each keeps each packet in exactly one place.
use meshcore.Prelude.{
  ℕ, ◌+◌, ◌≡◌, refl, ap, ◌∙◌, Bool, true, not, Option, none, some, List, [], ◌∷◌, ◌++◌, length,
  length-append, arith, if◌then◌else◌,
}
use meshcore.Queue.{queue_add}
use meshcore.Queue.Items.{items}
use meshcore.Pool.{Manager, free, queue_outbound, queue_inbound}
use meshcore.Pool.Count.{one, count, count-append}
use meshcore.Pool.Owned.{IsOwned, queue_add-Moves}

-- A caller gives packet `p` away.
pub record Gives (p : ℕ) (held held' : List ℕ) : Type 0 where
  pub before : List ℕ
  pub after : List ℕ
  pub all : held ≡ before ++ (p ∷ after)
  pub rest : held' ≡ before ++ after

-- What a caller holds when it has got a pointer, or NULL.
abbrev pub given : Option ℕ → List ℕ → List ℕ
given none held = held
given (some p) held = p ∷ held

module _ {p : ℕ} {held held' : List ℕ} (g : Gives p held held') where
  length-Gives : length held ≡ length held' + 1
  length-Gives =
      ap length g.all
      ∙ length-append g.before (p ∷ g.after)
      ∙ omega (arith, length-append g.before g.after, ap length g.rest)

  count-Gives : (k : ℕ) → count k held ≡ count k held' + one k p
  count-Gives k =
      ap (count k) g.all
      ∙ count-append k g.before (p ∷ g.after)
      ∙ unfold count in omega (arith, count-append k g.before g.after, ap (count k) g.rest)

pub when_ready {ℓ} : {A : Type ℓ} (b : Bool) (x y : A) → b ≡ true → (if not b then x else y) ≡ y
when_ready b x y e = rw e refl

if_true {ℓ} : {A : Type ℓ} (b : Bool) (x y : A) → b ≡ true → (if b then x else y) ≡ x
if_true b x y e = rw e refl

module _ (m : Manager) {held held' : List ℕ} (p : ℕ) (o : IsOwned m held)
    (g : Gives p held held') where
  free_ready : free m (some p) ≡ record m { unused = (queue_add m.unused (some p) 0 0).1 }
  unfolding free
  free_ready = when_ready m.initialized _ _ o.ready

  -- The free list takes a packet that a caller gives back.
  pub free-IsOwned : IsOwned (free m (some p)) held'
  free-IsOwned =
      let (ok, pooled, moves, its) =
        queue_add-Moves m.pool_size m.unused p 0 0 o.unused
          (omega (arith, o.total, length-Gives g)) in
      rw free_ready (record {
        ready = o.ready;
        unused = pooled;
        send = o.send;
        rx = o.rx;
        once = λ k. omega (arith, o.once k, moves.counts k, count-Gives g k);
        total = omega (arith, o.total, moves.longer, length-Gives g);
      })

  module _ (priority scheduled_for : ℕ) where
    -- A packet that a caller queues for sending always finds room in the queue.
    pub queue_outbound_ready :
        queue_outbound m (some p) priority scheduled_for
        ≡ record m { send_queue = (queue_add m.send_queue (some p) priority scheduled_for).1 }
    unfolding queue_outbound
    queue_outbound_ready =
        when_ready m.initialized _ _ o.ready
        ∙ if_true _ _ _
            (queue_add-Moves m.pool_size m.send_queue p priority scheduled_for o.send
              (omega (arith, o.total, length-Gives g))).0

    pub queue_outbound-IsOwned : IsOwned (queue_outbound m (some p) priority scheduled_for) held'
    queue_outbound-IsOwned =
        let (ok, pooled, moves, its) =
          queue_add-Moves m.pool_size m.send_queue p priority scheduled_for o.send
            (omega (arith, o.total, length-Gives g)) in
        rw queue_outbound_ready (record {
          ready = o.ready;
          unused = o.unused;
          send = pooled;
          rx = o.rx;
          once = λ k. omega (arith, o.once k, moves.counts k, count-Gives g k);
          total = omega (arith, o.total, moves.longer, length-Gives g);
        })

  module _ (scheduled_for : ℕ) where
    queue_inbound_ready :
        queue_inbound m (some p) scheduled_for
        ≡ record m { rx_queue = (queue_add m.rx_queue (some p) 0 scheduled_for).1 }
    unfolding queue_inbound
    queue_inbound_ready =
        when_ready m.initialized _ _ o.ready
        ∙ if_true _ _ _
            (queue_add-Moves m.pool_size m.rx_queue p 0 scheduled_for o.rx
              (omega (arith, o.total, length-Gives g))).0

    pub queue_inbound-IsOwned : IsOwned (queue_inbound m (some p) scheduled_for) held'
    queue_inbound-IsOwned =
        let (ok, pooled, moves, its) =
          queue_add-Moves m.pool_size m.rx_queue p 0 scheduled_for o.rx
            (omega (arith, o.total, length-Gives g)) in
        rw queue_inbound_ready (record {
          ready = o.ready;
          unused = o.unused;
          send = o.send;
          rx = pooled;
          once = λ k. omega (arith, o.once k, moves.counts k, count-Gives g k);
          total = omega (arith, o.total, moves.longer, length-Gives g);
        })

  -- A packet that is queued for sending stands at the end of the send queue, with its priority and
  -- time: the queue never overflows, and the packet is not dropped.
  pub queue_outbound_delivers :
      (priority scheduled_for : ℕ)
      → items (queue_outbound m (some p) priority scheduled_for).send_queue
        ≡ items m.send_queue
          ++ (record { packet = some p; priority = priority; scheduled_for = scheduled_for } ∷ [])
  queue_outbound_delivers priority scheduled_for =
      rw (queue_outbound_ready priority scheduled_for)
        (queue_add-Moves m.pool_size m.send_queue p priority scheduled_for o.send
          (omega (arith, o.total, length-Gives g))).3
