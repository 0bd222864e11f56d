-- ===== src/Runtime/Armed.antt =====
-- For when the timer of the whole runtime is armed: `meshcore_runtime_timer_sync` and
-- `meshcore_runtime_next_deadline_get` of `src/runtime/meshcore.c`, over what it waits for itself and what its dispatcher waits for.
use meshcore.Prelude.{
  ℕ, ◌^◌, ◌≤◌, ◌<◌, ◌≡◌, ◌⊎◌, refl, Bool, true, false, Option, none, some, List, [], ◌∷◌, ◌++◌,
  arith, inl, inr, sub32, sym, not, ap, ◌∙◌, if◌then◌else◌,
}
use meshcore.Queue.{is_due, earlier}
use meshcore.Queue.Deadline.{IsSchedule}
use meshcore.Dispatcher.{Dispatcher}
use meshcore.Dispatcher.Deadline.{deadline_accumulate, accumulate_all, candidates}
use meshcore.Dispatcher.Soonest.{
  Among, here, there, AreTimes, no_times, more_times, Soonest, Among-append, accumulate_all-Soonest,
  candidates-AreTimes, next_deadline_get_lem,
}
use meshcore.Mesh.{MeshHost}
use meshcore.Runtime.Pending.{expiries}
use meshcore.Runtime.Waiting.{expiries-AreTimes, correlation_next_deadline_get_lem}
use meshcore.Context.{timer_arm}
use meshcore.Runtime.Local.{notify, requests_of}
use meshcore.Runtime.Timer.{timer_call, runtime_next_deadline_get, timer_sync}

Among-left : {x : ℕ} (xs ys : List ℕ) → Among x xs → Among x (xs ++ ys)
Among-left [] ys m = elim m [ ]
Among-left (x ∷ xs) ys here = here
Among-left (x ∷ xs) ys (there m) = there (Among-left xs ys m)

Among-cases : {x : ℕ} (xs ys : List ℕ) → Among x (xs ++ ys) → Among x xs ⊎ Among x ys
Among-cases [] ys m = inr m
Among-cases (x ∷ xs) ys here = inl here
Among-cases (x ∷ xs) ys (there m) = elim (Among-cases xs ys m) [
  | inl l ↦ inl (there l)
  | inr r ↦ inr r
]

AreTimes-Among : {x : ℕ} {cs : List ℕ} → AreTimes cs → Among x cs → x < 2 ^ 32
AreTimes-Among no_times m = elim m [ ]
AreTimes-Among (more_times h v) here = h
AreTimes-Among (more_times h v) (there m) = AreTimes-Among v m

Soonest-bound :
    (cs : List ℕ) (now t : ℕ) → AreTimes cs → now < 2 ^ 32 → Soonest cs now t → t < 2 ^ 32
Soonest-bound cs now t v h (inl (c, m, due, e)) = rw e h
Soonest-bound cs now t v h (inr (m, all)) = AreTimes-Among v m

now-due : (now : ℕ) → is_due now now ≡ true
now-due now = ground arith

-- The soonest of some times, as far as it says of it.
Nearest : List ℕ → ℕ → ℕ → Type 0
Nearest cs now t =
    Among t cs × ((c : ℕ) → Among c cs → (is_due c now ≡ false) × (sub32 t now ≤ sub32 c now))

due-Soonest :
    (cs : List ℕ) (now t : ℕ)
    → Soonest cs now t
    → is_due t now ≡ true
    → (c : ℕ) × Among c cs × (is_due c now ≡ true)
due-Soonest cs now t (inl (c, m, due, e)) d = (c, m, due)
due-Soonest cs now t (inr (m, all)) d = (t, m, d)

later-Nearest :
    (cs : List ℕ) (now t : ℕ) → Soonest cs now t → is_due t now ≡ false → Nearest cs now t
unfolding Nearest
later-Nearest cs now t (inl (c, m, due, e)) d = absurd (ground (arith, now-due now))
later-Nearest cs now t (inr s) d = s

module _ (xs ys : List ℕ) (now t u : ℕ) (sx : Soonest xs now t) (sy : Soonest ys now u) where
  one_of : (r : ℕ) → Among r (t ∷ u ∷ []) → Among t xs → Among u ys → Among r (xs ++ ys)
  one_of r here mt mu = Among-left xs ys mt
  one_of r (there here) mt mu = Among-append u xs ys mu
  one_of r (there (there m)) mt mu = elim m [ ]

  both-Nearest :
      (r : ℕ)
      → is_due t now ≡ false
      → is_due u now ≡ false
      → Nearest (t ∷ u ∷ []) now r
      → Soonest (xs ++ ys) now r
  unfolding Nearest
  both-Nearest r later later' (m, all) =
      let (mt, all_t) = later-Nearest xs now t sx later in
      let (mu, all_u) = later-Nearest ys now u sy later' in
      inr (
        one_of r m mt mu,
        λ c k. elim (Among-cases xs ys k) [
          | inl l ↦
              let (d, le) = all_t c l in let (d', le') = all t here in (d, omega (arith, le, le'))
          | inr l ↦
              let (d, le) = all_u c l in
              let (d', le') = all u (there here) in (d, omega (arith, le, le'))
        ],
      )

  Soonest-both : (r : ℕ) → Soonest (t ∷ u ∷ []) now r → Soonest (xs ++ ys) now r
  unfolding Nearest
  Soonest-both r (inl (c, here, due, e)) =
      let (x, m, d) = due-Soonest xs now t sx due in inl (x, Among-left xs ys m, d, e)
  Soonest-both r (inl (c, there here, due, e)) =
      let (x, m, d) = due-Soonest ys now u sy due in inl (x, Among-append x xs ys m, d, e)
  Soonest-both r (inl (c, there (there m), due, e)) = elim m [ ]
  Soonest-both r (inr (m, all)) = both-Nearest r (all t here).0 (all u (there here)).0 (m, all)

if_same : (b : Bool) (x : Option ℕ) → (if b then x else x) ≡ x
if_same true x = refl
if_same false x = refl

-- The code takes one candidate after the other, as the loop over a list of two would.
accumulate_two :
    (now t u : ℕ)
    → let (done, next) = deadline_accumulate now t none in
      (if done then next else (deadline_accumulate now u next).1)
      ≡ accumulate_all now (t ∷ u ∷ []) none
unfolding accumulate_all
accumulate_two now t u =
    let (done, next) = deadline_accumulate now t none in
    let (done', last) = deadline_accumulate now u next in
    ap (λ x. if done then next else x) (sym (if_same done' last))

alone : (cs : List ℕ) (now u : ℕ) → Soonest cs now u → (deadline_accumulate now u none).1 ≡ some u
unfolding deadline_accumulate earlier
alone cs now u (inl (c, m, due, e)) = rw (e, now-due now) refl
alone cs now u (inr (m, all)) = rw (all u m).0 refl

-- There is always a deadline.
runtime_next_deadline_get_lem :
    (h : MeshHost) (d : Dispatcher) (now_ms : ℕ)
    → IsSchedule d.packet_manager.send_queue
    → IsSchedule d.packet_manager.rx_queue
    → now_ms < 2 ^ 32
    → (t : ℕ) × (runtime_next_deadline_get h d now_ms ≡ some t)
      × Soonest (expiries (requests_of d) ++ candidates h.platform d now_ms) now_ms t
unfolding runtime_next_deadline_get
runtime_next_deadline_get_lem h d now_ms send rx hn =
    let (u, is_u, su) = next_deadline_get_lem h.platform d now_ms send rx hn in
    let bu =
      Soonest-bound (candidates h.platform d now_ms) now_ms u
        (candidates-AreTimes h.platform d now_ms send rx hn) hn su in
    elim (correlation_next_deadline_get_lem (requests_of d) now_ms hn) [
      | inl (none_waits, e) ↦
          rw (e, is_u, none_waits) (u, alone (candidates h.platform d now_ms) now_ms u su, su)
      | inr (t, is_t, st) ↦
          let bt =
            Soonest-bound (expiries (requests_of d)) now_ms t (expiries-AreTimes (requests_of d)) hn
              st in
          let (r, is_r, s) =
            accumulate_all-Soonest (t ∷ u ∷ []) t now_ms (more_times bt (more_times bu no_times)) hn
              here in
          rw (is_t, is_u)
            (
              r,
              accumulate_two now_ms t u ∙ is_r,
              Soonest-both (expiries (requests_of d)) (candidates h.platform d now_ms) now_ms t u st
                  su r s,
            )
    ]

-- Where the runtime is initialized, `timer_sync` arms the timer, and does nothing else: for now, if
-- any of the times that the runtime or its dispatcher waits for has come, else for the one of all
-- these that is the least far ahead of now, modulo 2 ^ 32; where now and the times in the queues are
-- of 32 bits.
pub timer_sync_lem :
    (h : MeshHost) (d : Dispatcher) (now_ms : ℕ)
    → d.owner_mesh.runtime.initialized ≡ true
    → IsSchedule d.packet_manager.send_queue
    → IsSchedule d.packet_manager.rx_queue
    → now_ms < 2 ^ 32
    → (t : ℕ) × (timer_sync h d now_ms ≡ notify (timer_arm t ∷ []) d)
      × Soonest (expiries (requests_of d) ++ candidates h.platform d now_ms) now_ms t
unfolding timer_sync
timer_sync_lem h d now_ms on send rx hn =
    let (t, is_t, soonest) = runtime_next_deadline_get_lem h d now_ms send rx hn in
    (
      t,
      ap
            (λ b.
              if not b
              then d
              else notify (timer_call (runtime_next_deadline_get h d now_ms) ∷ []) d)
            on
          ∙ ap (λ deadline. notify (timer_call deadline ∷ []) d) is_t,
      soonest,
    )
