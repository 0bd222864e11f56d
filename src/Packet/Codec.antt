-- ===== src/Packet/Codec.antt =====
-- `meshcore_packet_write_to` and `meshcore_packet_read_from`. The two bytes of a `uint16_t` that
-- `memcpy` moves are in little-endian order, as on every target of the library.
use meshcore.Prelude.{
  bytes16, word16, ℕ, ◌+◌, ◌-◌, Bool, true, false, ◌||◌, not, Option, none, some, List, [], ◌∷◌,
  ◌++◌, length, take, drop, get_or, overwrite, u8, u16, ltb, leb, ◌==◌, if◌then◌else◌,
}
use meshcore.Packet.{
  Packet, payload_max_len, path_len_field, has_transport_codes, is_valid_path_len,
  get_path_byte_len, write_path,
}

-- The bytes that stand in `dest[0..i)` on return, and the returned `i`.
pub record Written : Type 0 where
  pub count : ℕ
  pub bytes : List ℕ

unfoldable pub code_bytes : Packet → List ℕ
code_bytes p =
    if has_transport_codes (some p)
    then bytes16 p.transport_code0 ++ bytes16 p.transport_code1
    else []

unfoldable pub frame : Packet → List ℕ
frame p =
    p.header ∷ code_bytes p
    ++ (path_len_field (some p) ∷ write_path (some p.path) (path_len_field (some p))
        ++ take p.payload_len p.payload)

-- The flag says that `dest` is not NULL.
unfoldable pub write_to : Option Packet → Bool → Written
write_to none dest = record { count = 0; bytes = [] }
write_to (some p) false = record { count = 0; bytes = [] }
write_to (some p) true =
    if not (is_valid_path_len (path_len_field (some p))) || ltb payload_max_len p.payload_len
    then record { count = 0; bytes = [] }
    else record { count = u8 (length (frame p)); bytes = frame p }

-- The stages of `meshcore_packet_read_from`. Each has stored what the code has stored so far, also
-- where it returns false.
unfoldable pub read_payload : Packet → List ℕ → ℕ → ℕ → Bool × Packet
read_payload p src len i =
    let p1 = record p { payload_len = u16 (len - i) } in
    if leb len i
    then (false, p)
    else if ltb payload_max_len p1.payload_len
    then (false, p1)
    else (true, record p1 { payload = overwrite p.payload (take p1.payload_len (drop i src)) })

unfoldable pub read_path_bytes : Packet → List ℕ → ℕ → ℕ → Bool × Packet
read_path_bytes p src len i =
    let n = get_path_byte_len (some p) in
    if ltb len (i + n)
    then (false, p)
    else read_payload (record p { path = overwrite p.path (take n (drop i src)) }) src len
        (u8 (i + n))

unfoldable pub read_path_len : Packet → List ℕ → ℕ → ℕ → Bool × Packet
read_path_len p src len i =
    let p1 = record p { path_len = get_or src i 0 } in
    if leb len i
    then (false, p)
    else if not (is_valid_path_len (path_len_field (some p1)))
    then (false, p1)
    else read_path_bytes p1 src len (i + 1)

unfoldable pub read_codes : Packet → List ℕ → ℕ → Bool × Packet
read_codes p src len =
    if has_transport_codes (some p)
    then if ltb len 5
      then (false, p)
      else read_path_len
          (record p { transport_code0 = word16 src 1; transport_code1 = word16 src 3 }) src len 5
    else read_path_len (record p { transport_code0 = 0; transport_code1 = 0 }) src len 1

-- `len` is the `uint8_t` length of the array `src`.
unfoldable pub read_from : Packet → Option (List ℕ) → ℕ → Bool × Packet
read_from p none len = (false, p)
read_from p (some src) len =
    if len == 0 then (false, p) else read_codes (record p { header = get_or src 0 0 }) src len
