-- ===== src/Tests/Filter.antt =====
-- The duplicate filter, over a toy digest.
use meshcore.Prelude.{
  ℕ, ◌+◌, ◌≡◌, refl, ap, sym, ◌∙◌, true, false, ◌&&◌, Option, some, List, [], ◌∷◌, ◌++◌, replicate,
  arith, take, length, length-take, length-append, length-replicate, u32, if◌then◌else◌,
}
use meshcore.Crypto.{Sha256, sha256, or_zeros}
use meshcore.Packet.{is_route_direct, is_route_flood, get_payload_type}
use meshcore.Packet.Digest.{calculate_hash, message}
use meshcore.Tables.{tables_init, has_seen, has_seen_hash, is_stored, store, count_dup}
use meshcore.Tables.Window.{IsTables, run, has_seen_again}
use meshcore.Tables.Recent.{recent, recent_step, has_seen_refines}
use meshcore.Tables.Stats.{has_seen_counts}
use meshcore.Tests.Packets.{text_packet, blank}

-- The message itself, cut or filled to the length.
abbrev pub toy_digest : ℕ → List ℕ → Option (List ℕ)
toy_digest n msg = some (take n (msg ++ replicate n 0))

pub toy_fills : (n : ℕ) (msg out : List ℕ) → toy_digest n msg ≡ some out → length out ≡ n
toy_fills n msg out e =
    let same : take n (msg ++ replicate n 0) ≡ out = cc in
    ap length (sym same)
    ∙ omega (
      arith,
      length-take n (msg ++ replicate n 0),
      length-append msg (replicate n 0),
      length-replicate {A = ℕ} n 0,
    )

abbrev pub toy : Sha256
toy = record { digest = toy_digest; digest_fills = toy_fills }

pub tables_init-IsTables : IsTables tables_init
unfolding tables_init
tables_init-IsTables = record { slots = refl; index = omega arith }

-- The second of two equal packets is a duplicate; a packet with another payload is not.
seen_twice :
    let t1 = (has_seen toy tables_init (some text_packet)).1 in
    ((has_seen toy tables_init (some text_packet)).0 ≡ false)
    × ((has_seen toy t1 (some text_packet)).0 ≡ true)
    × ((has_seen toy t1 (some (record text_packet { payload_len = 2 }))).0 ≡ false)
unfolding has_seen has_seen_hash is_stored store count_dup calculate_hash message sha256 or_zeros
    tables_init get_payload_type
seen_twice = (refl, refl, refl)

has_seen_refines_example :
    let (seen, t') = has_seen toy tables_init (some text_packet) in
    (seen, recent t') ≡ recent_step (calculate_hash toy (some text_packet)) (recent tables_init)
has_seen_refines_example = has_seen_refines toy tables_init text_packet tables_init-IsTables

-- The packet comes back with another path, after one other packet.
has_seen_again_example :
    (has_seen toy
      (run toy (has_seen toy tables_init (some text_packet)).1 (some blank ∷ []))
      (some (record text_packet { path_len = 65 }))).0
    ≡ true
has_seen_again_example =
    has_seen_again toy tables_init text_packet (record text_packet { path_len = 65 })
      (some blank ∷ []) tables_init-IsTables (seen_twice.0) (omega arith)
      (unfold calculate_hash message get_payload_type sha256 or_zeros in refl)

has_seen_counts_example :
    let (seen, t') = has_seen toy tables_init (some text_packet) in
    (t'.direct_dups ≡ (
      if seen && is_route_direct (some text_packet)
      then u32 (tables_init.direct_dups + 1)
      else tables_init.direct_dups))
    × (t'.flood_dups ≡ (
        if seen && is_route_flood (some text_packet)
        then u32 (tables_init.flood_dups + 1)
        else tables_init.flood_dups))
    × (if seen then t'.hashes else tables_init.hashes) ≡ tables_init.hashes
has_seen_counts_example = has_seen_counts toy tables_init text_packet
