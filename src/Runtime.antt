-- ===== src/Runtime.antt =====
-- `src/runtime/meshcore.c`: the comparisons of times and the path fields that the other files of the
-- runtime use. `long_bits` is the width of `unsigned long`.
pub mod Pending
pub mod Expected
pub mod Paths
pub mod Waiting
pub mod Policy
pub mod Loops
pub mod Once
pub mod Local
pub mod Publish
pub mod Lifecycle
pub mod Refused
pub mod Channels
pub mod Split
pub mod Replies
pub mod Receive
pub mod Sent
pub mod Whole
pub mod Timer
pub mod Armed
pub mod Validate
pub mod Outbox
pub mod Asking
pub mod Execute
pub mod Calls
pub mod Entry
pub mod Acknowledged
pub mod Answered
pub mod Asked
pub mod Conserved
use meshcore.Prelude.{
  ℕ, zero, suc, ◌+◌, ◌-◌, ◌*◌, ◌/◌, ◌%◌, ◌^◌, Bool, true, false, not, ◌||◌, Option, none, some,
  List, [], ◌∷◌, get_or, bit_and, bit_or, u8, u16, ◌<<<◌, ◌>>>◌, ltb, leb, ◌==◌, if◌then◌else◌,
}
use meshcore.Packet.{Packet, max_path_len, has_snr_flag, get_path_hash_size, get_path_hash_count}

-- `(long)(now_ms - expires_at_ms) >= 0`.
unfoldable pub time_reached : ℕ → ℕ → ℕ → Bool
time_reached long_bits now_ms expires_at_ms =
    ltb ((now_ms + 2 ^ long_bits - expires_at_ms) % 2 ^ long_bits) (2 ^ (long_bits - 1))

-- The RTC, or the uptime where it is not set; never 0.
unfoldable pub timestamp_now_seconds : ℕ → ℕ → ℕ
timestamp_now_seconds rtc_time millis =
    let timestamp : ℕ = if rtc_time == 0 then (millis / 1000) % 2 ^ 32 else rtc_time in
    if timestamp == 0 then 1 else timestamp

-- The number of bytes and the size of a hash, `none` where the function returns false.
unfoldable pub path_len_decode : ℕ → Option (ℕ × ℕ)
path_len_decode path_len_field =
    let path_hash_size = u8 ((path_len_field >>> 6) + 1) in
    let path_bytes = path_hash_size * u8 (bit_and path_len_field 0x3F) in
    if path_hash_size == 4
    then none
    else if ltb max_path_len path_bytes
    then none
    else some (u8 path_bytes, path_hash_size)

unfoldable pub path_len_encode : ℕ → ℕ → Option ℕ
path_len_encode path_hash_size path_byte_len =
    let hop_count = u8 (path_byte_len / path_hash_size) in
    if path_hash_size == 0 || ltb 3 path_hash_size
    then none
    else if path_byte_len == 0
    then some (u8 ((path_hash_size - 1) <<< 6))
    else if not (path_byte_len % path_hash_size == 0)
    then none
    else if ltb 63 hop_count
    then none
    else some (u8 (bit_or ((path_hash_size - 1) <<< 6) hop_count))

-- The loop over the hops: the last byte of each.
unfoldable pub last_bytes : ℕ → ℕ → ℕ → List ℕ → List ℕ
last_bytes zero i tuple_size path = []
last_bytes (suc hops) i tuple_size path =
    get_or path (i * tuple_size + tuple_size - 1) 0 ∷ last_bytes hops (i + 1) tuple_size path

unfoldable pub extract_return_path_snrs : Option Packet → Option (List ℕ)
extract_return_path_snrs none = none
extract_return_path_snrs (some packet) =
    let tuple_size = get_path_hash_size (some packet) in
    if not (has_snr_flag (some packet))
    then none
    else if ltb tuple_size 2 || tuple_size == 4
    then none
    else some (last_bytes (get_path_hash_count (some packet)) 0 tuple_size packet.path)

unfoldable pub normalize_path_hash_size : ℕ → ℕ
normalize_path_hash_size path_hash_size =
    if path_hash_size == 0 || ltb 3 path_hash_size then 1 else path_hash_size
