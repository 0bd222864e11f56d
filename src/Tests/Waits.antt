-- ===== src/Tests/Waits.antt =====
-- What the runtime waits for.
use meshcore.Prelude.{
  ℕ, ◌+◌, ◌%◌, ◌^◌, ◌<◌, ◌≡◌, ◌≢◌, ◌⊎◌, refl, true, false, some, [], ◌∷◌, arith, get_or, replicate,
}
use meshcore.Runtime.{path_len_encode, path_len_decode, time_reached}
use meshcore.Runtime.Pending.{
  ExpectedAck, Requests, message_ack, expected_ack_clear, pending_clear, expected_ack_register,
  expected_ack_handle, awaited, find_slot, handle_loop, expected_ack_table_size, request_timeout_ms,
}
use meshcore.Runtime.Expected.{
  Waits, IsFree, IsTable, expected_ack_register_lem, expected_ack_handle-expected_ack_register,
}
use meshcore.Runtime.Paths.{path_len_decode-path_len_encode}

-- A node that waits for one trace.
abbrev pub waiting : Requests
waiting = record {
  expected_acks = replicate 8 expected_ack_clear;
  expected_ack_next = 7;
  pending_discovery = pending_clear;
  pending_trace = awaited 32 5000 77 [] 0;
  pending_telemetry = pending_clear;
  pending_binary = pending_clear;
}

pub waiting-IsTable : IsTable waiting
waiting-IsTable = record { slots = refl; index = omega arith }

abbrev asked : Requests
asked = expected_ack_register 32 4294967000 waiting 99 (some (1 ∷ 2 ∷ 3 ∷ 4 ∷ [])) 2

-- Across the wrap of the clock.
asked_runs :
    ((expected_ack_handle 32 5 asked 99).0 ≡ true)
    × ((expected_ack_handle 32 5 asked 99).1 ≡ message_ack (1 ∷ 2 ∷ 3 ∷ 4 ∷ []) 2 ∷ [])
    × ((expected_ack_handle 32 5 asked 98).0 ≡ false)
    × ((expected_ack_handle 32 10000 asked 99).0 ≡ false)
    × (asked.expected_ack_next ≡ 0)
unfolding expected_ack_handle expected_ack_register expected_ack_clear find_slot handle_loop
    time_reached
asked_runs = (refl, refl, refl, refl, refl)

expected_ack_register_lem_example :
    (k : ℕ) × (k < expected_ack_table_size)
    × (get_or asked.expected_acks k expected_ack_clear ≡ record {
      valid = true;
      msg_sent_ms = 4294967000;
      expires_at_ms = (4294967000 + request_timeout_ms) % 2 ^ 32;
      ack_crc = 99;
      target = 1 ∷ 2 ∷ 3 ∷ 4 ∷ [];
      attempt = 2;
    })
    × ((j : ℕ)
        → k ≢ j
        → get_or asked.expected_acks j expected_ack_clear
          ≡ get_or waiting.expected_acks j expected_ack_clear)
    × (IsFree 32 4294967000 (get_or waiting.expected_acks k expected_ack_clear)
        ⊎ ((j : ℕ)
            → j < expected_ack_table_size
            → Waits 32 4294967000 (get_or waiting.expected_acks j expected_ack_clear)))
expected_ack_register_lem_example =
    expected_ack_register_lem 32 4294967000 waiting waiting-IsTable 99 (λ e. omega arith)
      (1 ∷ 2 ∷ 3 ∷ 4 ∷ []) 2

still_early : time_reached 32 5 ((4294967000 + request_timeout_ms) % 2 ^ 32) ≡ false
unfolding time_reached
still_early = refl

expected_ack_handle-expected_ack_register_example :
    let answer = expected_ack_handle 32 5 asked 99 in
    (answer.0 ≡ true)
    × ((entry : ExpectedAck) × (answer.1 ≡ message_ack entry.target entry.attempt ∷ [])
        × Waits 32 5 entry
        × (entry.ack_crc ≡ 99))
expected_ack_handle-expected_ack_register_example =
    expected_ack_handle-expected_ack_register 32 4294967000 waiting waiting-IsTable 99
      (λ e. omega arith) (1 ∷ 2 ∷ 3 ∷ 4 ∷ []) 2 5 still_early

six_in_threes : path_len_encode 3 6 ≡ some 130
unfolding path_len_encode
six_in_threes = refl

path_len_decode-path_len_encode_example : path_len_decode 130 ≡ some (6, 3)
path_len_decode-path_len_encode_example =
    path_len_decode-path_len_encode 3 6 130 (omega arith) six_in_threes
