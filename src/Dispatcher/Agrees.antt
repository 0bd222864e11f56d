-- ===== src/Dispatcher/Agrees.antt =====
-- `meshcore_dispatcher_try_parse_packet` beside `meshcore_packet_read_from`: the two readers of one
-- format.
use meshcore.Prelude.{
  ℕ, ◌+◌, ◌/◌, ◌%◌, ◌≤◌, ◌<◌, ◌≡◌, refl, ◌∙◌, true, false, some, List, get_or, arith, ltb, leb,
  ◌==◌, Bool-cases, inl, inr, u8, le→ltb, lt→leb, le→leb, ltb→le, ne→==,
}
use native.Mathlib.Decide.{dec_lt}
use meshcore.Packet.{
  Packet, max_path_len, path_len_field, has_transport_codes, is_valid_path_len, get_path_byte_len,
  get_payload_ver,
}
use meshcore.Packet.Fields.{is_valid_path_len_iff, get_payload_ver_lem}
use meshcore.Packet.Codec.{read_payload, read_path_bytes, read_path_len, read_codes, read_from}
use meshcore.Packet.Length.{path_bytes-le, get_path_byte_len_lem}
use meshcore.Dispatcher.Parse.{parse_body, parse_path, parse_codes, try_parse_packet}

-- Where the payload is not empty, the two read the same.
parse_body_lem :
    (p : Packet) (src : List ℕ) (len i : ℕ)
    → len < 256
    → get_path_byte_len (some p) ≤ max_path_len
    → i + get_path_byte_len (some p) < len
    → parse_body p src len i ≡ read_path_bytes p src len i
unfolding parse_body read_path_bytes read_payload
parse_body_lem p src len i small fits inside =
    let n = get_path_byte_len (some p) in
    let at : u8 (i + n) ≡ i + n = omega arith in
    rw (le→ltb max_path_len n fits, le→ltb len (i + n) (omega arith), at, lt→leb len (i + n) inside)
      refl

body_inside :
    (p r : Packet) (src : List ℕ) (len i : ℕ)
    → len < 256
    → read_path_bytes p src len i ≡ (true, r)
    → i + get_path_byte_len (some p) < len
unfolding read_path_bytes read_payload
body_inside p r src len i small e =
    let n = get_path_byte_len (some p) in
    elim (Bool-cases (ltb len (i + n))) [
      | inl past ↦ absurd (ground (arith, past, e))
      | inr within ↦ elim (dec_lt (i + n) len) [
        | yes lt ↦ lt
        | no ge ↦
            let at : u8 (i + n) ≡ i + n = omega (arith, ltb→le len (i + n) within) in
            let none_left : leb len (u8 (i + n)) ≡ true =
              rw at (le→leb len (i + n) (omega arith)) in
            absurd (ground (arith, within, none_left, e))
      ]
    ]

field_lem : (p : Packet) → path_len_field (some p) ≡ p.path_len % 256
unfolding path_len_field
field_lem p = refl

parse_path-read :
    (p r : Packet) (src : List ℕ) (len i : ℕ)
    → len < 256
    → read_path_len p src len i ≡ (true, r)
    → parse_path p src len i ≡ (true, r)
unfolding read_path_len parse_path
parse_path-read p r src len i small e =
    let p1 : Packet = record p { path_len = get_or src i 0 } in
    elim (Bool-cases (leb len i)) [
      | inl past ↦ absurd (ground (arith, past, e))
      | inr within ↦ elim (Bool-cases (is_valid_path_len (path_len_field (some p1)))) [
        | inr invalid ↦ absurd (ground (arith, within, invalid, e))
        | inl valid ↦
            let e1 : read_path_bytes p1 src len (i + 1) ≡ (true, r) =
              ground (arith, within, valid, e) in
            let (size_ok, mode_ok) =
              (is_valid_path_len_iff (path_len_field (some p1)) (omega (arith, field_lem p1))).0
                valid in
            rw (within, ne→== (path_len_field (some p1) / 64) 3 (omega arith))
              (parse_body_lem p1 src len (i + 1) small
                  (omega (arith, get_path_byte_len_lem p1 valid, path_bytes-le p1 valid))
                  (body_inside p1 r src len (i + 1) small e1)
                ∙ e1)
      ]
    ]

parse_codes-read :
    (p r : Packet) (src : List ℕ) (len : ℕ)
    → len < 256
    → read_codes p src len ≡ (true, r)
    → parse_codes p src len ≡ (true, r)
unfolding read_codes parse_codes
parse_codes-read p r src len small e = elim (Bool-cases (has_transport_codes (some p))) [
  | inl codes ↦ elim (Bool-cases (ltb len 5)) [
    | inl short ↦ absurd (ground (arith, codes, short, e))
    | inr enough ↦
        rw (codes, enough) (parse_path-read _ r src len 5 small (ground (arith, codes, enough, e)))
  ]
  | inr none_there ↦
      rw none_there (parse_path-read _ r src len 1 small (ground (arith, none_there, e)))
]

-- What the packet decoder takes, the dispatcher takes as the same packet, if the version in the
-- first byte is 0.
pub try_parse_packet-read_from :
    (q r : Packet) (raw : List ℕ) (len : ℕ)
    → len < 256
    → get_or raw 0 0 / 64 % 4 ≡ 0
    → read_from q (some raw) len ≡ (true, r)
    → try_parse_packet q raw len ≡ (true, r)
unfolding try_parse_packet read_from
try_parse_packet-read_from q r raw len small ver e = elim (Bool-cases (len == 0)) [
  | inl empty ↦ absurd (ground (arith, empty, e))
  | inr some_bytes ↦
      let q1 : Packet = record q { header = get_or raw 0 0 } in
      let old : ltb 0 (get_payload_ver (some q1)) ≡ false =
        le→ltb 0 (get_payload_ver (some q1)) (omega (arith, get_payload_ver_lem q1)) in
      rw (some_bytes, old) (parse_codes-read q1 r raw len small (ground (arith, some_bytes, e)))
]
