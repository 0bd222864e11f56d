-- ===== src/Runtime/Local.antt =====
-- What the files of `src/runtime` ask of the platform, and the operations of `src/runtime/meshcore.c`
-- that they share: the local identity, the paths of the peers and the clocks.
use meshcore.Prelude.{
  ℕ, ◌&&◌, Bool, true, false, not, Option, none, some, List, ◌++◌, ◌==◌, if◌then◌else◌,
}
use meshcore.Context.{Role, no_role, chat, repeater, room, sensor, RuntimeState, Requests, Told}
use meshcore.Identity.{local_init_from_bytes}
use meshcore.Clock.{rtc_get_current_time_unique}
use meshcore.Dispatcher.{Dispatcher}
use meshcore.Mesh.{MeshHost}
use meshcore.Mesh.Send.{send_flood, send_direct}
use meshcore.Runtime.{path_len_encode, normalize_path_hash_size, timestamp_now_seconds}
use meshcore.Runtime.Policy.{NodePolicy}

-- `meshcore_common_node_identity_t`, and `meshcore_common_peer_path_t`.
pub record NodeIdentity : Type 0 where
  pub name : List ℕ
  pub role : Role
  pub public_key : List ℕ
  pub private_key : List ℕ

pub record PeerPath : Type 0 where
  pub out_path_len : ℕ
  pub is_neighbor : Bool
  pub out_path : List ℕ
  pub path_hash_size : ℕ

-- `meshcore_common_node_advert_profile_t`, as far as adverts read it.
pub record AdvertProfile : Type 0 where
  pub has_position : Bool
  pub latitude : ℕ
  pub longitude : ℕ

-- What the platform answers, by the state it is asked in; `none` is a failed call. `millis` is
-- `meshcore_clock_millis_get`, of type `unsigned long`, of `long_bits` bits. `fragments` is the digest
-- of two fragments, cut to a length; `telemetry` the values of this node for a peer and a mask of
-- permissions; `channel_hash` the hash of a channel's secret, and `has_channel` whether the host has
-- a channel of this hash and secret.
pub record RuntimeHost : Type 0 where
  pub long_bits : ℕ
  pub millis : Dispatcher → ℕ
  pub rtc : Dispatcher → ℕ
  pub identity : Dispatcher → Option NodeIdentity
  pub policy : Dispatcher → Option NodePolicy
  pub peer_path : Dispatcher → List ℕ → Option PeerPath
  pub fragments : ℕ → List ℕ → List ℕ → Option (List ℕ)
  pub telemetry : Dispatcher → List ℕ → ℕ → Option (List ℕ)
  pub last_modify : Dispatcher → Option ℕ
  pub advert_profile : Dispatcher → Option AdvertProfile
  pub channel_hash : List ℕ → Option (List ℕ)
  pub has_channel : Dispatcher → ℕ → List ℕ → Bool

unfoldable pub role_to_advert_type : Role → ℕ
role_to_advert_type no_role = 0
role_to_advert_type chat = 1
role_to_advert_type repeater = 2
role_to_advert_type room = 3
role_to_advert_type sensor = 4

-- The roles have the numbers of the types of adverts.
abbrev pub same_role : Role → Role → Bool
same_role a b = role_to_advert_type a == role_to_advert_type b

abbrev pub has_role : Option NodeIdentity → Role → Bool
has_role none role = false
has_role (some identity) role = same_role identity.role role

unfoldable pub local_role_is : RuntimeHost → Dispatcher → Role → Bool
local_role_is rh d role = has_role (rh.identity d) role

-- A change of the runtime's part of the state.
abbrev pub with_state : (RuntimeState → RuntimeState) → Dispatcher → Dispatcher
with_state f d = record d { owner_mesh = record d.owner_mesh { runtime = f d.owner_mesh.runtime } }

abbrev pub notify : List Told → Dispatcher → Dispatcher
notify told d = with_state (λ s. record s { told = s.told ++ told }) d

abbrev pub requests_of : Dispatcher → Requests
requests_of d = d.owner_mesh.runtime.requests

-- The requests are changed, and the host is told; whether an answer was taken is not asked for.
abbrev pub settle : Bool × List Told × Requests → Dispatcher → Dispatcher
settle (taken, told, requests) d =
    with_state (λ s. record s { requests = requests; told = s.told ++ told }) d

abbrev pub synced : Option NodeIdentity → Dispatcher → Bool × Dispatcher
synced none d = (false, d)
synced (some identity) d = (
  true,
  record d {
    owner_mesh = record d.owner_mesh {
      self_id = local_init_from_bytes identity.private_key identity.public_key;
    };
  },
)

-- Whether the result is 0, and the state.
unfoldable pub sync_local_identity : RuntimeHost → Dispatcher → Bool × Dispatcher
sync_local_identity rh d = synced (rh.identity d) d

abbrev pub path_hash_size_of : Option NodePolicy → ℕ
path_hash_size_of none = 1
path_hash_size_of (some policy) = normalize_path_hash_size policy.path_hash_size

unfoldable pub local_path_hash_size_get : RuntimeHost → Dispatcher → ℕ
local_path_hash_size_get rh d = path_hash_size_of (rh.policy d)

abbrev pub with_len : List ℕ → Option ℕ → Option (List ℕ × ℕ)
with_len path none = none
with_len path (some path_len) = some (path, path_len)

abbrev pub usable_path : Option PeerPath → Option (List ℕ × ℕ)
usable_path none = none
usable_path (some out) =
    if out.out_path_len == 0 && not out.is_neighbor
    then none
    else with_len out.out_path
        (path_len_encode (normalize_path_hash_size out.path_hash_size) out.out_path_len)

-- The path to a peer and its length byte.
unfoldable pub peer_path_get : RuntimeHost → Dispatcher → List ℕ → Option (List ℕ × ℕ)
peer_path_get rh d public_key = usable_path (rh.peer_path d public_key)

abbrev pub now_seconds : RuntimeHost → Dispatcher → ℕ
now_seconds rh d = timestamp_now_seconds (rh.rtc d) (rh.millis d)

abbrev pub clock_or : Option ℕ → ℕ → ℕ
clock_or none old = old
clock_or (some last_unique) old = last_unique

-- `meshcore_clock_rtc_get_current_time_unique` of the runtime's clock.
unfoldable pub unique_time : MeshHost → Dispatcher → ℕ × Dispatcher
unique_time h d =
    let (now, clock) =
      rtc_get_current_time_unique (h.rtc_time d) (some d.owner_mesh.runtime.rtc_clock) in
    (now, with_state (λ s. record s { rtc_clock = clock_or clock s.rtc_clock }) d)

-- A packet that was made is sent; where none was, nothing is.
unfoldable pub flood_made : MeshHost → RuntimeHost → Option ℕ × Dispatcher → ℕ → Dispatcher
flood_made h rh (none, d) delay_ms = d
flood_made h rh (some p, d) delay_ms =
    send_flood h d (some p) delay_ms (local_path_hash_size_get rh d)

unfoldable pub direct_made : MeshHost → Option ℕ × Dispatcher → List ℕ → ℕ → ℕ → Dispatcher
direct_made h (none, d) path path_len delay_ms = d
direct_made h (some p, d) path path_len delay_ms =
    send_direct h d (some p) (some path) path_len delay_ms

abbrev pub routed :
    MeshHost → RuntimeHost → Option ℕ × Dispatcher → Option (List ℕ × ℕ) → ℕ → Dispatcher
routed h rh made none delay_ms = flood_made h rh made delay_ms
routed h rh made (some (path, path_len)) delay_ms = direct_made h made path path_len delay_ms

-- To a peer, along the path to it where there is one; the path is read after the packet was made.
unfoldable pub send_to_peer :
    MeshHost → RuntimeHost → Option ℕ × Dispatcher → List ℕ → ℕ → Dispatcher
send_to_peer h rh made public_key delay_ms =
    routed h rh made (peer_path_get rh made.1 public_key) delay_ms
