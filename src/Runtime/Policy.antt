-- ===== src/Runtime/Policy.antt =====
-- `src/runtime/meshcore_runtime_policy.c`: which packets a node sends on, and after what delay.
use meshcore.Prelude.{
  ℕ, zero, suc, ◌+◌, ◌-◌, ◌*◌, ◌/◌, Bool, true, false, ◌&&◌, ◌||◌, not, Option, none, some, List,
  [], ◌∷◌, drop, get_or, u8, u32, ltb, leb, ◌==◌, if◌then◌else◌,
}
use meshcore.Packet.{
  Packet, get_path_hash_size, get_path_hash_count, has_snr_flag, is_route_flood, get_raw_length,
}
pub use meshcore.Context.{Role, no_role, chat, repeater, room, sensor}
use meshcore.Identity.{Identity, is_hash_match_by_len}

pub data LoopDetect : Type 0 where
  off : LoopDetect
  minimal : LoopDetect
  moderate : LoopDetect
  strict : LoopDetect

-- What the policy reads of `meshcore_common_node_runtime_policy_t`, and of the host: `local_role` is
-- the role of this node, `synced` that its identity could be read, `airtime` the time on air of a
-- number of bytes, and `next_int` the generator of random numbers. The three functions are the casts
-- of the float products with the delay factors.
pub record NodePolicy : Type 0 where
  pub path_hash_size : ℕ
  pub disable_fwd : Bool
  pub flood_max : ℕ
  pub loop_detect : LoopDetect
  pub client_repeat : Bool

pub record PolicyHost : Type 0 where
  pub policy : Option NodePolicy
  pub local_role : Option Role
  pub synced : Bool
  pub airtime : ℕ → ℕ
  pub next_int : ℕ → ℕ → ℕ
  pub flood_scaled : ℕ → ℕ
  pub direct_scaled : ℕ → ℕ
  pub half : ℕ → ℕ
  pub fifth : ℕ → ℕ

-- The arrays of the greatest counts, by the size of a hash.
unfoldable pub loop_detect_max : LoopDetect → List ℕ
loop_detect_max minimal = 0 ∷ 4 ∷ 2 ∷ 1 ∷ []
loop_detect_max moderate = 0 ∷ 2 ∷ 1 ∷ 1 ∷ []
loop_detect_max off = 0 ∷ 1 ∷ 1 ∷ 1 ∷ []
loop_detect_max strict = 0 ∷ 1 ∷ 1 ∷ 1 ∷ []

-- The bytes of a hash that are compared: the last one of a packet with the flag is not. A size of 0
-- ends the function as the test of the stride does.
unfoldable pub compared_size : Packet → ℕ
compared_size packet =
    let stride = get_path_hash_size (some packet) in
    if has_snr_flag (some packet) then if ltb stride 2 then 0 else u8 (stride - 1) else stride

-- The loop over the hashes of the path.
unfoldable pub self_count : ℕ → Identity → ℕ → ℕ → List ℕ → ℕ
self_count zero id stride hash_size path = 0
self_count (suc hash_count) id stride hash_size path =
    let rest = self_count hash_count id stride hash_size (drop stride path) in
    if is_hash_match_by_len id path hash_size then u8 (rest + 1) else rest

unfoldable pub packet_is_looped : PolicyHost → Identity → Packet → List ℕ → Bool
packet_is_looped h id packet max_counters =
    let stride = get_path_hash_size (some packet) in
    let hash_size = compared_size packet in
    let count = self_count (get_path_hash_count (some packet)) id stride hash_size packet.path in
    if not h.synced
    then false
    else if hash_size == 0 || (ltb 3 hash_size || (stride == 0 || ltb 3 stride))
    then false
    else leb (get_or max_counters hash_size 0) count

abbrev pub is_off : LoopDetect → Bool
is_off off = true
is_off minimal = false
is_off moderate = false
is_off strict = false

abbrev pub is_repeater : Option Role → Bool
is_repeater (some repeater) = true
is_repeater (some chat) = false
is_repeater (some no_role) = false
is_repeater (some room) = false
is_repeater (some sensor) = false
is_repeater none = false

abbrev pub is_chat : Option Role → Bool
is_chat (some chat) = true
is_chat (some repeater) = false
is_chat (some no_role) = false
is_chat (some room) = false
is_chat (some sensor) = false
is_chat none = false

unfoldable pub client_repeat_active : PolicyHost → NodePolicy → Bool
client_repeat_active h policy = policy.client_repeat && is_chat h.local_role

-- What a repeater sends on.
unfoldable pub repeater_allows : PolicyHost → NodePolicy → Identity → Packet → Bool
repeater_allows h policy id packet =
    if policy.disable_fwd
    then false
    else if not (is_route_flood (some packet))
    then true
    else if leb policy.flood_max (get_path_hash_count (some packet))
    then false
    else is_off policy.loop_detect
      || not (packet_is_looped h id packet (loop_detect_max policy.loop_detect))

unfoldable pub allowed_by : PolicyHost → Option NodePolicy → Identity → Packet → Bool
allowed_by h none id packet = false
allowed_by h (some policy) id packet =
    if is_repeater h.local_role
    then repeater_allows h policy id packet
    else client_repeat_active h policy

unfoldable pub allow_packet_forward : PolicyHost → Identity → Packet → Bool
allow_packet_forward h id packet = allowed_by h h.policy id packet

unfoldable pub packet_airtime : PolicyHost → Packet → ℕ
packet_airtime h packet =
    let raw_len = get_raw_length (some packet) in if raw_len == 0 then 0 else h.airtime raw_len

-- `5U * t + 1U` on 32 bits.
unfoldable pub randomized_delay : PolicyHost → ℕ → ℕ
randomized_delay h t = h.next_int 0 (u32 (5 * t + 1))

unfoldable pub flood_delay : PolicyHost → Option NodePolicy → Packet → ℕ
flood_delay h none packet = 0
flood_delay h (some policy) packet =
    let airtime = packet_airtime h packet in
    if is_repeater h.local_role
    then randomized_delay h (h.flood_scaled airtime)
    else if client_repeat_active h policy
    then randomized_delay h (h.half airtime)
    else u32 (h.next_int 0 5 * (u32 (airtime * 52) / 50 / 2))

unfoldable pub get_retransmit_delay : PolicyHost → Packet → ℕ
get_retransmit_delay h packet = flood_delay h h.policy packet

unfoldable pub direct_delay : PolicyHost → Option NodePolicy → Packet → ℕ
direct_delay h none packet = 0
direct_delay h (some policy) packet =
    let airtime = packet_airtime h packet in
    if is_repeater h.local_role
    then randomized_delay h (h.direct_scaled airtime)
    else if client_repeat_active h policy
    then randomized_delay h (h.fifth airtime)
    else 0

unfoldable pub get_direct_retransmit_delay : PolicyHost → Packet → ℕ
get_direct_retransmit_delay h packet = direct_delay h h.policy packet
