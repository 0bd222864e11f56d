-- ===== src/Tables.antt =====
-- `src/support/meshcore_tables.{h,c}`: the duplicate filter. The flat array `hashes` is the list of
-- its eight-byte slots.
pub mod Window
pub mod Recent
pub mod Stats
use meshcore.Prelude.{
  ℕ, ◌+◌, ◌%◌, Bool, true, false, ◌&&◌, Option, none, some, List, [], ◌∷◌, replicate, set, u32,
  same_bytes, ◌==◌, if◌then◌else◌,
}
use meshcore.Crypto.{Sha256}
use meshcore.Packet.{Packet, is_route_direct}
use meshcore.Packet.Digest.{packet_hash_size, calculate_hash}

abbrev pub max_packet_hashes : ℕ
max_packet_hashes = 160

pub record Tables : Type 0 where
  pub hashes : List (List ℕ)
  pub next_idx : ℕ
  pub direct_dups : ℕ
  pub flood_dups : ℕ

unfoldable pub tables_init : Tables
tables_init = record {
  hashes = replicate max_packet_hashes (replicate packet_hash_size 0);
  next_idx = 0;
  direct_dups = 0;
  flood_dups = 0;
}

unfoldable pub count_dup : Tables → Packet → Tables
count_dup t p =
    if is_route_direct (some p)
    then record t { direct_dups = u32 (t.direct_dups + 1) }
    else record t { flood_dups = u32 (t.flood_dups + 1) }

-- The search loop: whether some slot holds the hash.
unfoldable pub is_stored : List ℕ → List (List ℕ) → Bool
is_stored hash [] = false
is_stored hash (slot ∷ slots) = if same_bytes hash slot then true else is_stored hash slots

unfoldable pub store : Tables → List ℕ → Tables
store t hash = record t {
  hashes = set t.hashes t.next_idx hash;
  next_idx = (t.next_idx + 1) % max_packet_hashes;
}

unfoldable pub has_seen_hash : Sha256 → Tables → Packet → Bool × Tables
has_seen_hash s t p =
    let hash = calculate_hash s (some p) in
    if is_stored hash t.hashes then (true, count_dup t p) else (false, store t hash)

unfoldable pub has_seen : Sha256 → Tables → Option Packet → Bool × Tables
has_seen s t none = (false, t)
has_seen s t (some p) = has_seen_hash s t p

-- The first slot that holds the hash is zeroed.
unfoldable pub clear_first : List ℕ → List (List ℕ) → List (List ℕ)
clear_first hash [] = []
clear_first hash (slot ∷ slots) =
    if same_bytes hash slot
    then replicate packet_hash_size 0 ∷ slots
    else slot ∷ clear_first hash slots

unfoldable pub clear : Sha256 → Tables → Option Packet → Tables
clear s t none = t
clear s t (some p) = record t { hashes = clear_first (calculate_hash s (some p)) t.hashes }

unfoldable pub reset_stats : Tables → Tables
reset_stats t = record t { direct_dups = 0; flood_dups = 0 }
