-- ===== src/Tables/Window.antt =====
-- The filter as a sliding window: a packet that was let through is recognised for the next
-- `max_packet_hashes - 1` packets at least.
use meshcore.Prelude.{
  same_bytes_self, ℕ, zero, suc, ◌+◌, ◌-◌, ◌%◌, ◌≤◌, ◌<◌, ◌≡◌, ◌∙◌, true, false, Option, none, some,
  List, [], ◌∷◌, length, length-set, get_or, get_or-set_self, get_or-set_ne, arith, Bool-cases,
  if◌then◌else◌, inl, inr,
}
use meshcore.Crypto.{Sha256}
use meshcore.Packet.{Packet, is_route_direct}
use meshcore.Packet.Digest.{calculate_hash}
use meshcore.Tables.{
  Tables, max_packet_hashes, count_dup, is_stored, store, has_seen_hash, has_seen,
}

-- The search finds what stands in a slot.
pub is_stored_at :
    (hash : List ℕ) (slots : List (List ℕ)) (k : ℕ)
    → k < length slots
    → get_or slots k [] ≡ hash
    → is_stored hash slots ≡ true
unfolding is_stored
is_stored_at hash [] k h e = absurd (omega arith)
is_stored_at hash (slot ∷ slots) zero h e = rw (e, same_bytes_self hash)
is_stored_at hash (slot ∷ slots) (suc k) h e = ground (arith, is_stored_at hash slots k)

-- The index stays in the array, and the array keeps its size.
pub record IsTables (t : Tables) : Type 0 where
  pub slots : length t.hashes ≡ max_packet_hashes
  pub index : t.next_idx < max_packet_hashes

pub has_seen-IsTables :
    (s : Sha256) (t : Tables) (p : Option Packet) → IsTables t → IsTables (has_seen s t p).1
unfolding has_seen has_seen_hash count_dup store
has_seen-IsTables s t none v = v
has_seen-IsTables s t (some p) v =
    ground (arith, length-set t.hashes t.next_idx (calculate_hash s (some p)))

-- How many more hashes can be stored before slot `k` is written.
abbrev room : Tables → ℕ → ℕ
room t k = (k + max_packet_hashes - t.next_idx) % max_packet_hashes

-- `hash` stands in slot `k`, and `n` more hashes can be stored without loss.
record Keeps (t : Tables) (hash : List ℕ) (k n : ℕ) : Type 0 where
  valid : IsTables t
  in_range : k < max_packet_hashes
  held : get_or t.hashes k [] ≡ hash
  enough : n ≤ room t k

Keeps-is_stored :
    (t : Tables) (hash : List ℕ) (k n : ℕ) → Keeps t hash k n → is_stored hash t.hashes ≡ true
Keeps-is_stored t hash k n h =
    is_stored_at hash t.hashes k (omega (arith, h.valid.slots, h.in_range)) h.held

store-Keeps :
    (t : Tables) (other hash : List ℕ) (k n : ℕ)
    → Keeps t hash k (suc n)
    → Keeps (store t other) hash k n
unfolding store
store-Keeps t other hash k n h = record {
  valid = record {
    slots = length-set t.hashes t.next_idx other ∙ h.valid.slots;
    index = omega arith;
  };
  in_range = h.in_range;
  held =
      get_or-set_ne t.hashes t.next_idx k other []
        (λ e. absurd (omega (arith, h.enough, h.in_range, h.valid.index)))
      ∙ h.held;
  enough = omega (arith, h.enough, h.in_range, h.valid.index);
}

count_dup-Keeps :
    (t : Tables) (p : Packet) (hash : List ℕ) (k n : ℕ)
    → Keeps t hash k (suc n)
    → Keeps (count_dup t p) hash k n
unfolding count_dup
count_dup-Keeps t p hash k n h = elim (Bool-cases (is_route_direct (some p))) [
  | inl e ↦
      rw (e, if◌then◌else◌) (shorter (record { slots = h.valid.slots; index = h.valid.index }))
  | inr e ↦
      rw (e, if◌then◌else◌) (shorter (record { slots = h.valid.slots; index = h.valid.index }))
]
  where
    shorter : {d f : ℕ} → IsTables t → Keeps (record t { direct_dups = d; flood_dups = f }) hash k n
    shorter v = record {
      valid = record { slots = v.slots; index = v.index };
      in_range = h.in_range;
      held = h.held;
      enough = omega (arith, h.enough);
    }

has_seen-Keeps :
    (s : Sha256) (t : Tables) (p : Option Packet) (hash : List ℕ) (k n : ℕ)
    → Keeps t hash k (suc n)
    → Keeps (has_seen s t p).1 hash k n
unfolding has_seen has_seen_hash
has_seen-Keeps s t none hash k n h = record {
  valid = h.valid;
  in_range = h.in_range;
  held = h.held;
  enough = omega (arith, h.enough);
}
has_seen-Keeps s t (some p) hash k n h =
    elim (Bool-cases (is_stored (calculate_hash s (some p)) t.hashes)) [
      | inl e ↦ rw e (count_dup-Keeps t p hash k n h)
      | inr e ↦ rw e (store-Keeps t (calculate_hash s (some p)) hash k n h)
    ]

-- The filter after a list of packets.
unfoldable pub run : Sha256 → Tables → List (Option Packet) → Tables
run s t [] = t
run s t (p ∷ ps) = run s (has_seen s t p).1 ps

run-Keeps :
    (s : Sha256) (ps : List (Option Packet)) (t : Tables) (hash : List ℕ) (k : ℕ)
    → Keeps t hash k (length ps)
    → Keeps (run s t ps) hash k 0
unfolding run
run-Keeps s [] t hash k h = h
run-Keeps s (p ∷ ps) t hash k h =
    run-Keeps s ps (has_seen s t p).1 hash k (has_seen-Keeps s t p hash k (length ps) h)

let_through :
    (s : Sha256) (t : Tables) (p : Packet)
    → (has_seen s t (some p)).0 ≡ false
    → (has_seen s t (some p)).1 ≡ store t (calculate_hash s (some p))
unfolding has_seen has_seen_hash
let_through s t p e = ground arith

store-Keeps_new :
    (t : Tables) (hash : List ℕ)
    → IsTables t
    → Keeps (store t hash) hash t.next_idx (max_packet_hashes - 1)
unfolding store
store-Keeps_new t hash v = record {
  valid = record { slots = length-set t.hashes t.next_idx hash ∙ v.slots; index = omega arith };
  in_range = v.index;
  held = get_or-set_self t.hashes t.next_idx hash [] (omega (arith, v.slots, v.index));
  enough = omega (arith, v.index);
}

seen_when_stored :
    (s : Sha256) (t : Tables) (p : Packet)
    → is_stored (calculate_hash s (some p)) t.hashes ≡ true
    → (has_seen s t (some p)).0 ≡ true
unfolding has_seen has_seen_hash
seen_when_stored s t p e = rw e

Keeps-fewer : (t : Tables) (hash : List ℕ) (k m n : ℕ) → n ≤ m → Keeps t hash k m → Keeps t hash k n
Keeps-fewer t hash k m n le h = record {
  valid = h.valid;
  in_range = h.in_range;
  held = h.held;
  enough = omega (arith, h.enough);
}

-- A packet that was let through is reported as seen when it comes again, under the same hash, after
-- any fewer than 160 other packets.
pub has_seen_again :
    (s : Sha256) (t : Tables) (p p' : Packet) (between : List (Option Packet))
    → IsTables t
    → (has_seen s t (some p)).0 ≡ false
    → length between < max_packet_hashes
    → calculate_hash s (some p') ≡ calculate_hash s (some p)
    → (has_seen s (run s (has_seen s t (some p)).1 between) (some p')).0 ≡ true
has_seen_again s t p p' between v new few same =
    let hash = calculate_hash s (some p) in
    let start : Keeps (has_seen s t (some p)).1 hash t.next_idx (length between) =
      rw (let_through s t p new) (
        Keeps-fewer (store t hash) hash t.next_idx (max_packet_hashes - 1) (length between)
          (omega arith) (store-Keeps_new t hash v)) in
    let last = run s (has_seen s t (some p)).1 between in
    seen_when_stored s last p' (
      rw same (
        Keeps-is_stored last hash t.next_idx 0
          (run-Keeps s between (has_seen s t (some p)).1 hash t.next_idx start)))
