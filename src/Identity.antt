-- ===== src/Identity.antt =====
-- `src/core/meshcore_identity.{h,c}`. The curve and its digest are those of Monocypher, so they are
-- parameters. Keys, hashes, messages and signatures are arrays of bytes; a pointer that is tested
-- against NULL is an `Option` where a caller can pass NULL.
pub mod Hash
pub mod Stored
use meshcore.Prelude.{
  ℕ, ◌+◌, ◌-◌, Bool, true, false, ◌&&◌, ◌||◌, not, List, [], ◌∷◌, ◌++◌, take, drop, replicate,
  get_or, overwrite, same_bytes, ltb, ◌==◌, if◌then◌else◌, ℤ, pos, negsuc, some,
}
use meshcore.Hex.{from_hex}

abbrev pub public_key_size : ℕ
public_key_size = 32

abbrev pub private_key_size : ℕ
private_key_size = 64

abbrev pub channel_hash_bytes : ℕ
channel_hash_bytes = 1

abbrev pub seed_size : ℕ
seed_size = 32

-- What the code calls of Monocypher.
pub record Curve : Type 0 where
  pub scalarbase : List ℕ → List ℕ
  pub sha512 : List ℕ → List ℕ
  pub reduce : List ℕ → List ℕ
  pub mul_add : List ℕ → List ℕ → List ℕ → List ℕ
  pub trim_scalar : List ℕ → List ℕ
  pub to_x25519 : List ℕ → List ℕ
  pub x25519 : List ℕ → List ℕ → List ℕ
  pub check : List ℕ → List ℕ → List ℕ → Bool

pub record Identity : Type 0 where
  pub pub_key : List ℕ

pub record LocalIdentity : Type 0 where
  pub identity : Identity
  pub prv_key : List ℕ

-- The four parts are those that are not NULL, in order.
unfoldable pub hash_reduce4 : Curve → List ℕ → List ℕ → List ℕ → List ℕ → List ℕ
hash_reduce4 k a b c d = k.reduce (k.sha512 (a ++ (b ++ (c ++ d))))

unfoldable pub sign_expanded_private_key : Curve → List ℕ → List ℕ → List ℕ → List ℕ
sign_expanded_private_key k public_key private_key message =
    let r = hash_reduce4 k (take 32 (drop 32 private_key)) message [] [] in
    let r_point = k.scalarbase r in
    let h = hash_reduce4 k r_point public_key message [] in r_point ++ k.mul_add h private_key r

unfoldable pub calculate_shared_secret : Curve → List ℕ → List ℕ → List ℕ
calculate_shared_secret k prv_key other_pub_key = k.x25519 prv_key (k.to_x25519 other_pub_key)

unfoldable pub identity_init : Identity
identity_init = record { pub_key = replicate public_key_size 0 }

-- What a text that is refused has left in the array is kept.
unfoldable pub init_from_pub_hex : Identity → List ℕ → Bool × Identity
init_from_pub_hex id pub_hex =
    let (ok, stored) = from_hex (pos public_key_size) (some pub_hex) in
    (ok, record { pub_key = overwrite id.pub_key stored })

unfoldable pub init_from_pub_key : List ℕ → Identity
init_from_pub_key pub_key = record { pub_key = take public_key_size pub_key }

-- The bytes stored at `dest`, and their number.
unfoldable pub copy_hash_by_len : Identity → ℕ → ℕ × List ℕ
copy_hash_by_len id len = if ltb public_key_size len then (0, []) else (len, take len id.pub_key)

unfoldable pub copy_hash_to : Identity → ℕ × List ℕ
copy_hash_to id = copy_hash_by_len id channel_hash_bytes

unfoldable pub is_hash_match_by_len : Identity → List ℕ → ℕ → Bool
is_hash_match_by_len id hash len =
    if ltb public_key_size len then false else same_bytes (take len hash) (take len id.pub_key)

unfoldable pub is_hash_match : Identity → List ℕ → Bool
is_hash_match id hash = is_hash_match_by_len id hash channel_hash_bytes

unfoldable pub matches_by_pub_key : Identity → List ℕ → Bool
matches_by_pub_key id other_pub_key =
    same_bytes (take public_key_size id.pub_key) (take public_key_size other_pub_key)

unfoldable pub matches : Identity → Identity → Bool
matches id other = matches_by_pub_key id other.pub_key

-- `message` is the array of `msg_len` bytes.
unfoldable pub verify : Curve → Identity → List ℕ → List ℕ → ℤ → Bool
verify k id sig message (negsuc n) = false
verify k id sig message (pos msg_len) = k.check sig id.pub_key (take msg_len message)

unfoldable pub local_init : LocalIdentity
local_init = record { identity = identity_init; prv_key = replicate private_key_size 0 }

-- The second text is read only when the first was taken.
unfoldable pub local_init_from_hex : LocalIdentity → List ℕ → List ℕ → Bool × LocalIdentity
local_init_from_hex l prv_hex pub_hex =
    let (ok, stored) = from_hex (pos private_key_size) (some prv_hex) in
    let l1 = record l { prv_key = overwrite l.prv_key stored } in
    let (ok2, id) = init_from_pub_hex l.identity pub_hex in
    if ok then (ok2, record l1 { identity = id }) else (false, l1)

unfoldable pub local_init_from_bytes : List ℕ → List ℕ → LocalIdentity
local_init_from_bytes prv_key_bytes pub_key_bytes = record {
  identity = record { pub_key = take public_key_size pub_key_bytes };
  prv_key = take private_key_size prv_key_bytes;
}

-- From the seed that the generator of random numbers filled.
unfoldable pub generate : Curve → List ℕ → LocalIdentity
generate k seed =
    let prv = k.trim_scalar (k.sha512 (take seed_size seed)) in
    record { identity = record { pub_key = k.scalarbase prv }; prv_key = prv }

-- The signature stored at `sig`; a negative length stores none.
unfoldable pub sign : Curve → LocalIdentity → List ℕ → ℤ → List ℕ
sign k l message (negsuc n) = []
sign k l message (pos msg_len) =
    sign_expanded_private_key k l.identity.pub_key l.prv_key (take msg_len message)

unfoldable pub calc_shared_secret : Curve → LocalIdentity → List ℕ → List ℕ
calc_shared_secret k l other_pub_key = calculate_shared_secret k l.prv_key other_pub_key

abbrev test_client_prv : List ℕ
test_client_prv =
    0x70 ∷ 0x65 ∷ 0xe1 ∷ 0x8f ∷ 0xd9 ∷ 0xfa ∷ 0xbb ∷ 0x70 ∷ 0xc1 ∷ 0xed ∷ 0x90 ∷ 0xdc ∷ 0xa1 ∷ 0x99
    ∷ 0x07 ∷ 0xde ∷ 0x69 ∷ 0x8c ∷ 0x88 ∷ 0xb7 ∷ 0x09 ∷ 0xea ∷ 0x14 ∷ 0x6e ∷ 0xaf ∷ 0xd9 ∷ 0x3d
    ∷ 0x9b ∷ 0x83 ∷ 0x0c ∷ 0x7b ∷ 0x60 ∷ 0xc4 ∷ 0x68 ∷ 0x11 ∷ 0x93 ∷ 0xc7 ∷ 0x9b ∷ 0xbc ∷ 0x39
    ∷ 0x94 ∷ 0x5b ∷ 0xa8 ∷ 0x06 ∷ 0x41 ∷ 0x04 ∷ 0xbb ∷ 0x61 ∷ 0x8f ∷ 0x8f ∷ 0xd7 ∷ 0xa8 ∷ 0x4a
    ∷ 0x0a ∷ 0xf6 ∷ 0xf5 ∷ 0x70 ∷ 0x33 ∷ 0xd6 ∷ 0xe8 ∷ 0xdd ∷ 0xcd ∷ 0x64 ∷ 0x71 ∷ []

abbrev test_client_pub : List ℕ
test_client_pub =
    0x1e ∷ 0xc7 ∷ 0x71 ∷ 0x75 ∷ 0xb0 ∷ 0x91 ∷ 0x8e ∷ 0xd2 ∷ 0x06 ∷ 0xf9 ∷ 0xae ∷ 0x04 ∷ 0xec ∷ 0x13
    ∷ 0x6d ∷ 0x6d ∷ 0x5d ∷ 0x43 ∷ 0x15 ∷ 0xbb ∷ 0x26 ∷ 0x30 ∷ 0x54 ∷ 0x27 ∷ 0xf6 ∷ 0x45 ∷ 0xb4
    ∷ 0x92 ∷ 0xe9 ∷ 0x35 ∷ 0x0c ∷ 0x10 ∷ []

-- The loop that looks for a byte that is not 0.
unfoldable pub has_nonzero : List ℕ → Bool
has_nonzero [] = false
has_nonzero (b ∷ bs) = not (b == 0) || has_nonzero bs

unfoldable pub validate_private_key : Curve → List ℕ → Bool
validate_private_key k prv_key =
    let pub_key = k.scalarbase prv_key in
    let first = get_or pub_key 0 0 in
    let ss1 = calculate_shared_secret k prv_key test_client_pub in
    let ss2 = calculate_shared_secret k test_client_prv pub_key in
    if first == 0x00 || first == 0xFF
    then false
    else if not (same_bytes ss1 ss2)
    then false
    else has_nonzero ss1

-- `meshcore_local_identity_write_to`: the bytes stored at `dest`; their number is what it returns.
unfoldable pub local_write_to : LocalIdentity → ℕ → List ℕ
local_write_to l max_len =
    if ltb max_len private_key_size
    then []
    else if ltb max_len (private_key_size + public_key_size)
    then take private_key_size l.prv_key
    else take private_key_size l.prv_key ++ take public_key_size l.identity.pub_key

-- `meshcore_local_identity_read_from`: a length that is neither size changes nothing.
unfoldable pub local_read_from : Curve → LocalIdentity → List ℕ → ℕ → LocalIdentity
local_read_from k l src len =
    let prv = take private_key_size src in
    if len == private_key_size + public_key_size
    then record {
      identity = record { pub_key = take public_key_size (drop private_key_size src) };
      prv_key = prv;
    }
    else if len == private_key_size
    then record { identity = record { pub_key = k.scalarbase prv }; prv_key = prv }
    else l
