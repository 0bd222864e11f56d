-- ===== src/Dispatcher/Parse.antt =====
-- `meshcore_dispatcher_try_parse_packet`. `raw` is the array of the `len` bytes received; each stage
-- has stored what the code has stored so far, also where it returns false.
use meshcore.Prelude.{
  word16, ℕ, ◌+◌, ◌-◌, Bool, true, false, ◌||◌, List, take, drop, get_or, overwrite, u16, ◌>>>◌,
  ltb, leb, ◌==◌, if◌then◌else◌, some,
}
use meshcore.Packet.{
  Packet, max_path_len, payload_max_len, get_payload_ver, has_transport_codes, get_path_byte_len,
  path_len_field,
}

unfoldable pub parse_body : Packet → List ℕ → ℕ → ℕ → Bool × Packet
parse_body p raw len i =
    let n = get_path_byte_len (some p) in
    let p1 = record p { path = overwrite p.path (take n (drop i raw)) } in
    let p2 = record p1 { payload_len = u16 (len - (i + n)) } in
    if ltb max_path_len n || ltb len (i + n)
    then (false, p)
    else if ltb payload_max_len p2.payload_len
    then (false, p2)
    else (
      true,
      record p2 { payload = overwrite p.payload (take p2.payload_len (drop (i + n) raw)) },
    )

unfoldable pub parse_path : Packet → List ℕ → ℕ → ℕ → Bool × Packet
parse_path p raw len i =
    let p1 = record p { path_len = get_or raw i 0 } in
    if leb len i
    then (false, p)
    else if (path_len_field (some p1) >>> 6) == 3
    then (false, p1)
    else parse_body p1 raw len (i + 1)

unfoldable pub parse_codes : Packet → List ℕ → ℕ → Bool × Packet
parse_codes p raw len =
    if has_transport_codes (some p)
    then if ltb len 5
      then (false, p)
      else parse_path (record p { transport_code0 = word16 raw 1; transport_code1 = word16 raw 3 })
          raw len 5
    else parse_path (record p { transport_code0 = 0; transport_code1 = 0 }) raw len 1

unfoldable pub try_parse_packet : Packet → List ℕ → ℕ → Bool × Packet
try_parse_packet p raw len =
    let p1 = record p { header = get_or raw 0 0 } in
    if len == 0
    then (false, p)
    else if ltb 0 (get_payload_ver (some p1))
    then (false, p1)
    else parse_codes p1 raw len
