-- ===== src/Tables/Stats.antt =====
-- The two duplicate counters.
use meshcore.Prelude.{◌+◌, ◌≡◌, some, arith, u32, ◌&&◌, if◌then◌else◌}
use meshcore.Crypto.{Sha256}
use meshcore.Packet.{Packet, is_route_direct, is_route_flood}
use meshcore.Packet.Fields.{route_is_flood_or_direct}
use meshcore.Tables.{Tables, count_dup, store, has_seen_hash, has_seen}

-- A reported duplicate is counted once, modulo 2 ^ 32, in the counter of its route, and leaves the
-- stored hashes alone; a packet that is let through changes neither counter.
pub has_seen_counts :
    (s : Sha256) (t : Tables) (p : Packet)
    → let (seen, t') = has_seen s t (some p) in
      (t'.direct_dups
        ≡ (if seen && is_route_direct (some p) then u32 (t.direct_dups + 1) else t.direct_dups))
      × (t'.flood_dups
          ≡ (if seen && is_route_flood (some p) then u32 (t.flood_dups + 1) else t.flood_dups))
      × (if seen then t'.hashes else t.hashes) ≡ t.hashes
unfolding has_seen has_seen_hash count_dup store
has_seen_counts s t p = (ground arith, ground (arith, route_is_flood_or_direct p), ground arith)
