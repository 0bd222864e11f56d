-- ===== src/Pool/Owned.antt =====
-- Who holds which packet: the pool's invariant, and the queue operations as moves of one packet.
use meshcore.Prelude.{
  ℕ, suc, ◌+◌, ◌<◌, ◌≡◌, ap, sym, ◌∙◌, Bool, true, Option, some, List, [], ◌∷◌, ◌++◌, length,
  length-append, arith, ltb, if◌then◌else◌, lt→ltb, pos,
}
use meshcore.Queue.{Queue, queue_add, queue_remove_by_idx}
use meshcore.Queue.Items.{IsQueue, Entry, items, length-items}
use meshcore.Queue.Edit.{
  append_entry, queue_add_refines, take_out, take_out-items, queue_remove_by_idx_refines,
}
use meshcore.Queue.Select.{Takes}
use meshcore.Pool.{Manager}
use meshcore.Pool.Count.{
  one, count_entries, count, NoNull, count_entries-snoc, NoNull-snoc, take_out-Out,
}

abbrev pub holds : ℕ → Queue → ℕ
holds k q = count_entries k (items q)

-- A well-formed queue of the pool's size that holds packets only.
pub record Pooled (size : ℕ) (q : Queue) : Type 0 where
  pub valid : IsQueue q
  pub sized : q.size ≡ size
  pub no_null : NoNull (items q)

-- `big` holds packet `p` once more than `small` does, and the others as often.
pub record Moves (small : Queue) (p : ℕ) (big : Queue) : Type 0 where
  pub counts : (k : ℕ) → holds k big ≡ holds k small + one k p
  pub longer : big.num ≡ small.num + 1

-- The packets of the pool are in the free list, in one of the queues or in the hands of the callers
-- (`held`), each in one place.
pub record IsOwned (m : Manager) (held : List ℕ) : Type 0 where
  pub ready : m.initialized ≡ true
  pub unused : Pooled m.pool_size m.unused
  pub send : Pooled m.pool_size m.send_queue
  pub rx : Pooled m.pool_size m.rx_queue
  pub once :
      (k : ℕ)
      → holds k m.unused + holds k m.send_queue + holds k m.rx_queue + count k held
        ≡ (if ltb k m.pool_size then 1 else 0)
  pub total : m.unused.num + m.send_queue.num + m.rx_queue.num + length held ≡ m.pool_size

append_entry_room :
    (size : ℕ) (es : List Entry) (e : Entry)
    → length es < size
    → append_entry size es e ≡ (true, es ++ (e ∷ []))
unfolding append_entry
append_entry_room size es e h = rw (lt→ltb (length es) size h)

-- A queue with room takes the packet.
pub queue_add-Moves :
    (size : ℕ) (q : Queue) (p priority scheduled_for : ℕ)
    → Pooled size q
    → q.num < size
    → let r = queue_add q (some p) priority scheduled_for in
      (r.0 ≡ true)
      × Pooled size r.1
      × Moves q p r.1
      × (items r.1
          ≡ items q
            ++ (record { packet = some p; priority = priority; scheduled_for = scheduled_for }
                ∷ []))
queue_add-Moves size q p priority scheduled_for h room =
    let r = queue_add q (some p) priority scheduled_for in
    let new : Entry = record {
      packet = some p;
      priority = priority;
      scheduled_for = scheduled_for;
    } in
    let (refines, valid, same) = queue_add_refines q p priority scheduled_for h.valid in
    let fits : length (items q) < q.size = omega (arith, length-items q, h.sized) in
    let result = refines ∙ append_entry_room q.size (items q) new fits in
    let its : items r.1 ≡ items q ++ (new ∷ []) = ap (λ (x : Bool × List Entry). x.1) result in
    (
      ap (λ (x : Bool × List Entry). x.0) result,
      record {
        valid = valid;
        sized = same ∙ h.sized;
        no_null = rw its (NoNull-snoc (items q) p priority scheduled_for h.no_null);
      },
      record {
        counts =
            λ k. ap (count_entries k) its ∙ count_entries-snoc k (items q) p priority scheduled_for;
        longer =
            sym (length-items r.1)
            ∙ ap length its
            ∙ length-append (items q) (new ∷ [])
            ∙ omega (arith, length-items q);
      },
      its,
    )

Out-Moves :
    (size : ℕ) (q q' : Queue) (i : ℕ)
    → Pooled size q
    → IsQueue q'
    → q'.size ≡ q.size
    → i < q.num
    → items q' ≡ (take_out i (items q)).1
    → (p : ℕ) × ((take_out i (items q)).0 ≡ some p) × Pooled size q' × Moves q' p q
Out-Moves size q q' i h valid same lt its =
    let o = take_out-Out i (items q) (omega (arith, length-items q)) h.no_null in
    (
      o.taken,
      o.packet,
      record { valid = valid; sized = same ∙ h.sized; no_null = rw its o.no_null },
      record {
        counts = λ k. o.counts k ∙ ap (λ es. count_entries k es + one k o.taken) (sym its);
        longer =
            sym (length-items q)
            ∙ o.shorter
            ∙ ap (λ es. suc (length es)) (sym its)
            ∙ omega (arith, length-items q');
      },
    )

-- Removing at an index in range gives a packet.
pub queue_remove-Moves :
    (size : ℕ) (q : Queue) (i : ℕ)
    → Pooled size q
    → i < q.num
    → let r = queue_remove_by_idx q (pos i) in
      (p : ℕ) × (r.0 ≡ some p) × Pooled size r.1 × Moves r.1 p q
queue_remove-Moves size q i h lt =
    let (refines, valid, same) = queue_remove_by_idx_refines q i h.valid in
    let r = queue_remove_by_idx q (pos i) in
    let (p, is_p, pooled, moves) =
      Out-Moves size q r.1 i h valid same lt (ap (λ (x : Option ℕ × List Entry). x.1) refines) in
    (p, ap (λ (x : Option ℕ × List Entry). x.0) refines ∙ is_p, pooled, moves)

-- A queue that gives the best entry gives a packet.
pub Takes-Moves :
    (size : ℕ) (q : Queue) (now : ℕ) (r : Option ℕ × Queue)
    → Pooled size q
    → Takes q now r
    → (p : ℕ) × (r.0 ≡ some p) × Pooled size r.1 × Moves r.1 p q
Takes-Moves size q now r h t =
    let out = take_out-items q t.index t.best.in_range in
    let (p, is_p, pooled, moves) =
      Out-Moves size q r.1 t.index h t.valid t.same_size t.best.in_range
        (t.rest ∙ ap (λ (x : Option ℕ × List Entry). x.1) (sym out)) in
    (p, t.packet ∙ ap (λ (x : Option ℕ × List Entry). x.0) (sym out) ∙ is_p, pooled, moves)
