-- ===== src/Packet/Digest.antt =====
-- `meshcore_packet_calculate_hash`: what the duplicate filter compares.
use meshcore.Prelude.{
  ℕ, ◌+◌, ◌≤◌, ◌≡◌, ◌≢◌, refl, Option, none, some, List, [], ◌∷◌, ◌++◌, take, length, arith, ltb,
  ◌==◌, if◌then◌else◌, replicate, Bool-cases, inl, inr, ◌⊎◌, ◌↔◌,
}
use meshcore.Crypto.{Sha256, sha256, length-sha256}
use meshcore.Packet.{Packet, payload_max_len, payload_type_trace, get_payload_type}
use meshcore.Prelude.{bytes16}

abbrev pub packet_hash_size : ℕ
packet_hash_size = 8

abbrev zeros : List ℕ
zeros = replicate packet_hash_size 0

-- The bytes that are hashed.
unfoldable pub message : Packet → List ℕ
message p =
    let payload_type = get_payload_type (some p) in
    payload_type
    ∷ ((if payload_type == payload_type_trace then bytes16 p.path_len else [])
        ++ take p.payload_len p.payload)

-- The size of `data[]` is 1 + 2 + 184.
unfoldable pub calculate_hash : Sha256 → Option Packet → List ℕ
calculate_hash s none = zeros
calculate_hash s (some p) =
    let extra : ℕ = if get_payload_type (some p) == payload_type_trace then 2 else 0 in
    let data_len = 1 + extra + p.payload_len in
    if ltb payload_max_len p.payload_len
    then zeros
    else if ltb (1 + 2 + payload_max_len) data_len
    then zeros
    else sha256 s packet_hash_size (message p)

-- The hash always fills its eight bytes.
pub length-calculate_hash :
    (s : Sha256) (p : Option Packet) → length (calculate_hash s p) ≡ packet_hash_size
unfolding calculate_hash
length-calculate_hash s none = refl
length-calculate_hash s (some p) = ground (arith, length-sha256 s packet_hash_size (message p))

-- The buffer check behind the payload check never fires.
pub calculate_hash_in_range :
    (s : Sha256) (p : Packet)
    → p.payload_len ≤ payload_max_len
    → calculate_hash s (some p) ≡ sha256 s packet_hash_size (message p)
unfolding calculate_hash
calculate_hash_in_range s p h = ground arith

-- What two packets have to share for the filter to hash the same bytes.
pub record SameMessage (p q : Packet) : Type 0 where
  pub same_type : get_payload_type (some p) ≡ get_payload_type (some q)
  pub same_path_len : (get_payload_type (some p) ≢ payload_type_trace) ⊎ (p.path_len ≡ q.path_len)
  pub same_payload : take p.payload_len p.payload ≡ take q.payload_len q.payload

message-SameMessage : (p q : Packet) → message p ≡ message q → SameMessage p q
unfolding message
message-SameMessage p q e = elim (Bool-cases (get_payload_type (some p) == payload_type_trace)) [
  | inl t ↦ record {
    same_type = ground arith;
    same_path_len = inr (ground arith);
    same_payload = ground arith;
  }
  | inr t ↦ record {
    same_type = ground arith;
    same_path_len = inl (ground arith);
    same_payload = ground arith;
  }
]

-- The hashed bytes are the payload type and the payload, with the path length of a TRACE packet in
-- between, and nothing else of the packet: two packets hash the same bytes exactly when they share
-- these.
pub message_iff : (p q : Packet) → (message p ≡ message q) ↔ SameMessage p q
unfolding message
message_iff p q =
    (message-SameMessage p q, λ h. ground (arith, h.same_type, h.same_path_len, h.same_payload))
