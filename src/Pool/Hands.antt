-- ===== src/Pool/Hands.antt =====
-- The calls that hand a packet out of the pool.
use meshcore.Prelude.{
  ℕ, ◌+◌, ◌≤◌, ◌≡◌, ◌⊎◌, ◌↔◌, refl, ap, sym, ◌∙◌, Option, none, some, List, ◌∷◌, length, arith, inl,
  inr, ℤ, pos, negsuc, le→leb,
}
use mathlib.Core.Path.{subst}
use native.Mathlib.Decide.{dec_lt}
use meshcore.Queue.{Queue, queue_remove_by_idx, queue_get}
use meshcore.Queue.Select.{queue_get_lem}
use meshcore.Pool.{Manager, alloc_new, get_next_outbound, get_next_inbound, remove_outbound_by_idx}
use meshcore.Pool.Count.{count}
use meshcore.Pool.Owned.{Pooled, Moves, IsOwned, queue_remove-Moves, Takes-Moves}
use meshcore.Pool.Steps.{when_ready}

-- What a call that hands a packet out does: it gives one that nobody held, or gives nothing.
abbrev pub Hands : Manager → List ℕ → Option ℕ × Manager → Type 0
Hands m held r = ((p : ℕ) × (r.0 ≡ some p) × IsOwned r.1 (p ∷ held)) ⊎ ((r.0 ≡ none) × (r.1 ≡ m))

remove_past : (q : Queue) (i : ℕ) → q.num ≤ i → queue_remove_by_idx q (pos i) ≡ (none, q)
unfolding queue_remove_by_idx
remove_past q i le = rw (le→leb q.num i le) refl

-- A queue gave packet `p`, or nothing.
abbrev Gave : ℕ → Queue → Option ℕ × Queue → Type 0
Gave size q r = ((p : ℕ) × (r.0 ≡ some p) × Pooled size r.1 × Moves r.1 p q) ⊎ (r ≡ (none, q))

remove-Gave : (size : ℕ) (q : Queue) (i : ℤ) → Pooled size q → Gave size q (queue_remove_by_idx q i)
remove-Gave size q (negsuc n) h = inr (unfold queue_remove_by_idx in refl)
remove-Gave size q (pos i) h = elim (dec_lt i q.num) [
  | yes lt ↦ inl (queue_remove-Moves size q i h lt)
  | no n ↦ inr (remove_past q i (omega arith))
]

get-Gave : (size : ℕ) (q : Queue) (now : ℕ) → Pooled size q → Gave size q (queue_get q now)
get-Gave size q now h = elim (queue_get_lem q now h.valid) [
  | inl t ↦ inl (Takes-Moves size q now (queue_get q now) h t)
  | inr w ↦ inr w.nothing
]

module _ (m : Manager) (held : List ℕ) (o : IsOwned m held) where
  from_unused :
      (r : Option ℕ × Queue)
      → Gave m.pool_size m.unused r
      → Hands m held (r.0, record m { unused = r.1 })
  from_unused r (inl (p, is_p, pooled, moves)) = inl (
    p,
    is_p,
    record {
      ready = o.ready;
      unused = pooled;
      send = o.send;
      rx = o.rx;
      once = λ k. unfold count in omega (arith, o.once k, moves.counts k);
      total = omega (arith, o.total, moves.longer);
    },
  )
  from_unused r (inr e) = inr (
    ap (λ (x : Option ℕ × Queue). x.0) e,
    ap (λ (x : Option ℕ × Queue). record m { unused = x.1 }) e,
  )

  from_send :
      (r : Option ℕ × Queue)
      → Gave m.pool_size m.send_queue r
      → Hands m held (r.0, record m { send_queue = r.1 })
  from_send r (inl (p, is_p, pooled, moves)) = inl (
    p,
    is_p,
    record {
      ready = o.ready;
      unused = o.unused;
      send = pooled;
      rx = o.rx;
      once = λ k. unfold count in omega (arith, o.once k, moves.counts k);
      total = omega (arith, o.total, moves.longer);
    },
  )
  from_send r (inr e) = inr (
    ap (λ (x : Option ℕ × Queue). x.0) e,
    ap (λ (x : Option ℕ × Queue). record m { send_queue = x.1 }) e,
  )

  from_rx :
      (r : Option ℕ × Queue)
      → Gave m.pool_size m.rx_queue r
      → Hands m held (r.0, record m { rx_queue = r.1 })
  from_rx r (inl (p, is_p, pooled, moves)) = inl (
    p,
    is_p,
    record {
      ready = o.ready;
      unused = o.unused;
      send = o.send;
      rx = pooled;
      once = λ k. unfold count in omega (arith, o.once k, moves.counts k);
      total = omega (arith, o.total, moves.longer);
    },
  )
  from_rx r (inr e) = inr (
    ap (λ (x : Option ℕ × Queue). x.0) e,
    ap (λ (x : Option ℕ × Queue). record m { rx_queue = x.1 }) e,
  )

  pub alloc_new-Hands : Hands m held (alloc_new m)
  unfolding alloc_new
  alloc_new-Hands =
      let r = queue_remove_by_idx m.unused (pos 0) in
      subst (Hands m held) (sym (when_ready m.initialized _ _ o.ready))
        (from_unused r (remove-Gave m.pool_size m.unused (pos 0) o.unused))

  pub get_next_outbound-Hands : (now : ℕ) → Hands m held (get_next_outbound m now)
  unfolding get_next_outbound
  get_next_outbound-Hands now =
      let r = queue_get m.send_queue now in
      subst (Hands m held) (sym (when_ready m.initialized _ _ o.ready))
        (from_send r (get-Gave m.pool_size m.send_queue now o.send))

  pub get_next_inbound-Hands : (now : ℕ) → Hands m held (get_next_inbound m now)
  unfolding get_next_inbound
  get_next_inbound-Hands now =
      let r = queue_get m.rx_queue now in
      subst (Hands m held) (sym (when_ready m.initialized _ _ o.ready))
        (from_rx r (get-Gave m.pool_size m.rx_queue now o.rx))

  pub remove_outbound_by_idx-Hands : (i : ℤ) → Hands m held (remove_outbound_by_idx m i)
  unfolding remove_outbound_by_idx
  remove_outbound_by_idx-Hands i =
      let r = queue_remove_by_idx m.send_queue i in
      subst (Hands m held) (sym (when_ready m.initialized _ _ o.ready))
        (from_send r (remove-Gave m.pool_size m.send_queue i o.send))

  alloc_ready : (alloc_new m).0 ≡ (queue_remove_by_idx m.unused (pos 0)).0
  unfolding alloc_new
  alloc_ready = ap (λ (x : Option ℕ × Manager). x.0) (when_ready m.initialized _ _ o.ready)

  unused_when_refused : (alloc_new m).0 ≡ none → m.unused.num ≡ 0
  unused_when_refused e = elim (dec_lt 0 m.unused.num) [
    | no n ↦ omega arith
    | yes lt ↦
        let (p, is_p, pooled, moves) = queue_remove-Moves m.pool_size m.unused 0 o.unused lt in
        absurd (ground (arith, alloc_ready))
  ]

  refused_when_empty : m.unused.num ≡ 0 → (alloc_new m).0 ≡ none
  refused_when_empty e =
      alloc_ready ∙ ap (λ (x : Option ℕ × Queue). x.0) (remove_past m.unused 0 (omega arith))

  -- A call for a free packet is refused exactly when all packets of the pool are queued or held.
  pub alloc_new_refused_iff :
      ((alloc_new m).0 ≡ none) ↔ (m.send_queue.num + m.rx_queue.num + length held ≡ m.pool_size)
  alloc_new_refused_iff = (
    λ e. omega (arith, unused_when_refused e, o.total),
    λ e. refused_when_empty (omega (arith, o.total)),
  )
