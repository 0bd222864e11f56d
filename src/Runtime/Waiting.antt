-- ===== src/Runtime/Waiting.antt =====
-- When `src/runtime/meshcore_runtime_pending.c` is to be run again.
use meshcore.Prelude.{ℕ, ◌^◌, ◌<◌, ◌≡◌, ◌⊎◌, refl, none, some, List, [], ◌∷◌, inl, inr}
use meshcore.Dispatcher.Deadline.{accumulate_all}
use meshcore.Dispatcher.Soonest.{
  Soonest, AreTimes, here, no_times, accumulate_all-Soonest, AreTimes-append, AreTimes-when,
}
use meshcore.Runtime.Pending.{
  ExpectedAck, Requests, ack_expiries, expiries, correlation_next_deadline_get,
}

acks-AreTimes : (entries : List ExpectedAck) → AreTimes (ack_expiries entries)
unfolding ack_expiries
acks-AreTimes [] = no_times
acks-AreTimes (entry ∷ entries) =
    AreTimes-append _ _ (AreTimes-when entry.valid entry.expires_at_ms) (acks-AreTimes entries)

pub expiries-AreTimes : (r : Requests) → AreTimes (expiries r)
unfolding expiries
expiries-AreTimes r = AreTimes-append _ _ (acks-AreTimes r.expected_acks) (
    AreTimes-append _ _ (AreTimes-when r.pending_discovery.valid r.pending_discovery.expires_at_ms)
      (AreTimes-append _ _ (AreTimes-when r.pending_trace.valid r.pending_trace.expires_at_ms) (
        AreTimes-append _ _
          (AreTimes-when r.pending_telemetry.valid r.pending_telemetry.expires_at_ms)
          (AreTimes-when r.pending_binary.valid r.pending_binary.expires_at_ms))))

Soonest-of :
    (cs : List ℕ) (now : ℕ)
    → AreTimes cs
    → now < 2 ^ 32
    → ((cs ≡ []) × (accumulate_all now cs none ≡ none))
      ⊎ ((t : ℕ) × (accumulate_all now cs none ≡ some t) × Soonest cs now t)
unfolding accumulate_all
Soonest-of [] now v h = inl (refl, refl)
Soonest-of (c ∷ cs) now v h = inr (accumulate_all-Soonest (c ∷ cs) c now v h here)

-- There is a deadline just when an acknowledgement or an answer is waited for: it is now if the time
-- of one of them has come, else the one of their times that is the least far ahead of now, modulo
-- 2 ^ 32.
pub correlation_next_deadline_get_lem :
    (r : Requests) (now : ℕ)
    → now < 2 ^ 32
    → ((expiries r ≡ []) × (correlation_next_deadline_get r now ≡ none))
      ⊎ ((t : ℕ) × (correlation_next_deadline_get r now ≡ some t) × Soonest (expiries r) now t)
unfolding correlation_next_deadline_get
correlation_next_deadline_get_lem r now h = Soonest-of (expiries r) now (expiries-AreTimes r) h
