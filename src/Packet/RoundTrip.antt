-- ===== src/Packet/RoundTrip.antt =====
-- `meshcore_packet_read_from` after `meshcore_packet_write_to`.
use meshcore.Prelude.{
  ℕ, ◌+◌, ◌-◌, ◌*◌, ◌/◌, ◌%◌, ◌≤◌, ◌<◌, ◌≡◌, refl, ap, sym, ◌∙◌, true, some, List, ◌∷◌, ◌++◌, take,
  drop, overwrite, length, length-take, arith, if◌then◌else◌, Bool-cases, u8, u16, inl, inr,
  take-append, drop-append, append_assoc, get_or-drop, drop-drop, ne→==, le→ltb,
}
use meshcore.Packet.{
  Packet, payload_max_len, path_len_field, get_path_byte_len, has_transport_codes,
  is_valid_path_len, write_path, get_route_type, get_path_hash_count, get_path_hash_size,
  get_raw_length,
}
use meshcore.Packet.Codec.{
  write_to, frame, code_bytes, read_payload, read_path_bytes, read_path_len, read_codes, read_from,
}
use meshcore.Packet.Length.{
  IsSendable, path_bytes, get_path_byte_len_lem, length-write_path, length-frame, write_to_sendable,
  get_raw_length_lem,
}

-- The stages of the reader, each where the input from its index on is known.
read_payload_lem :
    (p : Packet) (src : List ℕ) (len i : ℕ) (body rest : List ℕ)
    → drop i src ≡ body ++ rest
    → length body + i ≡ len
    → 0 < length body
    → length body ≤ payload_max_len
    → read_payload p src len i
      ≡ (true, record p { payload_len = length body; payload = overwrite p.payload body })
unfolding read_payload
read_payload_lem p src len i body rest tail size pos fits =
    let n : u16 (len - i) ≡ length body = omega arith in
    rw (n, tail, take-append (length body) body rest refl) (ground arith)

read_path_bytes_lem :
    (p : Packet) (src : List ℕ) (len i : ℕ) (path rest : List ℕ)
    → drop i src ≡ path ++ rest
    → get_path_byte_len (some p) ≡ length path
    → i + length path ≤ len
    → len < 256
    → read_path_bytes p src len i
      ≡ read_payload (record p { path = overwrite p.path path }) src len (i + length path)
unfolding read_path_bytes
read_path_bytes_lem p src len i path rest tail size fits small =
    rw (size, tail, take-append (length path) path rest refl) (ground (arith))

read_path_len_lem :
    (p : Packet) (src : List ℕ) (len i b : ℕ) (rest : List ℕ)
    → drop i src ≡ b ∷ rest
    → b < 256
    → is_valid_path_len b ≡ true
    → i < len
    → read_path_len p src len i ≡ read_path_bytes (record p { path_len = b }) src len (i + 1)
unfolding read_path_len path_len_field
read_path_len_lem p src len i b rest tail small valid fits =
    let e : u8 b ≡ b = omega arith in rw (get_or-drop i src 0, tail, e, valid) (ground arith)

byte_len_congr :
    (p q : Packet)
    → path_len_field (some q) ≡ path_len_field (some p)
    → get_path_byte_len (some q) ≡ get_path_byte_len (some p)
unfolding get_path_byte_len get_path_hash_count get_path_hash_size
byte_len_congr p q e = rw e refl

-- `q` with the path and the payload of `p` read into it.
abbrev with_body : Packet → Packet → Packet
with_body q p = record q {
  path_len = path_len_field (some p);
  path = overwrite q.path (write_path (some p.path) (path_len_field (some p)));
  payload_len = p.payload_len;
  payload = overwrite q.payload (take p.payload_len p.payload);
}

length-body : (p : Packet) → IsSendable p → length (take p.payload_len p.payload) ≡ p.payload_len
length-body p v =
    omega (arith, length-take p.payload_len p.payload, v.packet.payload_array, v.payload_fits)

field-byte : (p : Packet) → path_len_field (some p) < 256
unfolding path_len_field
field-byte p = omega arith

field_of_field :
    (p q : Packet)
    → path_len_field (some (record q { path_len = path_len_field (some p) }))
      ≡ path_len_field (some p)
unfolding path_len_field
field_of_field p q = omega arith

module _ (p : Packet) (v : IsSendable p) (pos : 0 < p.payload_len) (rest : List ℕ) where
  read_body :
      (q : Packet) (src : List ℕ) (len i : ℕ)
      → drop i src
        ≡ path_len_field (some p)
          ∷ (write_path (some p.path) (path_len_field (some p))
              ++ (take p.payload_len p.payload ++ rest))
      → len ≡ i + 1 + path_bytes p + p.payload_len
      → len < 256
      → read_path_len q src len i ≡ (true, with_body q p)
  read_body q src len i tail size small =
      let b = path_len_field (some p) in
      let path = write_path (some p.path) b in
      let body = take p.payload_len p.payload in
      let q1 : Packet = record q { path_len = b } in
      let q2 : Packet = record q1 { path = overwrite q.path path } in
      let plen = length-write_path p v.packet v.path_fits in
      let blen = length-body p v in
      let tail1 : drop (i + 1) src ≡ path ++ (body ++ rest) =
        drop-drop i 1 src ∙ ap (drop 1) tail in
      let tail2 : drop (i + 1 + length path) src ≡ body ++ rest =
        drop-drop (i + 1) (length path) src
        ∙ ap (drop (length path)) tail1
        ∙ drop-append (length path) path (body ++ rest) refl in
      read_path_len_lem q src len i b (path ++ (body ++ rest)) tail (field-byte p) v.path_fits
        (omega arith)
      ∙ read_path_bytes_lem q1 src len (i + 1) path (body ++ rest) tail1
          (byte_len_congr p q1 (field_of_field p q)
            ∙ get_path_byte_len_lem p v.path_fits
            ∙ sym plen)
          (omega arith) small
      ∙ read_payload_lem q2 src len (i + 1 + length path) body rest tail2 (omega arith)
          (omega arith) (omega (arith, v.payload_fits))
      ∙ ap (λ (n : ℕ). (true, record q2 { payload_len = n; payload = overwrite q2.payload body }))
          blen

-- What `meshcore_packet_read_from` makes of `q` when it reads the frame of `p`.
abbrev pub restored : Packet → Packet → Packet
restored q p = record (with_body q p) {
  header = p.header;
  transport_code0 = if has_transport_codes (some p) then p.transport_code0 else 0;
  transport_code1 = if has_transport_codes (some p) then p.transport_code1 else 0;
}

has_codes_congr :
    (p q : Packet)
    → q.header ≡ p.header
    → has_transport_codes (some q) ≡ has_transport_codes (some p)
unfolding has_transport_codes get_route_type
has_codes_congr p q e = rw e refl

word16-bytes16 : (w : ℕ) → w % 256 + 256 * (w / 256) ≡ w
word16-bytes16 w = omega arith

-- Reading what was written gives the packet back.
pub read_from-write_to :
    (p q : Packet) (rest : List ℕ)
    → IsSendable p
    → 0 < p.payload_len
    → let w = write_to (some p) true in
      read_from q (some (w.bytes ++ rest)) w.count ≡ (true, restored q p)
unfolding read_from read_codes frame code_bytes
read_from-write_to p q rest v pos = elim (Bool-cases (has_transport_codes (some p))) [
  | inl e ↦
      let size : get_raw_length (some p) ≡ 5 + 1 + path_bytes p + p.payload_len =
        get_raw_length_lem p v ∙ rw e (omega arith) in
      rw
        (
          write_to_sendable p v,
          has_codes_congr p (record q { header = p.header }) refl,
          e,
          ne→== (get_raw_length (some p)) 0 (omega arith),
          le→ltb (get_raw_length (some p)) 5 (omega arith),
          word16-bytes16 p.transport_code0,
          word16-bytes16 p.transport_code1,
          append_assoc,
        )
        (read_body p v pos rest _ _ _ 5 refl size (omega (arith, length-frame p v)))
  | inr e ↦
      let size : get_raw_length (some p) ≡ 1 + 1 + path_bytes p + p.payload_len =
        get_raw_length_lem p v ∙ rw e (omega arith) in
      rw
        (
          write_to_sendable p v,
          has_codes_congr p (record q { header = p.header }) refl,
          e,
          ne→== (get_raw_length (some p)) 0 (omega arith),
          append_assoc,
        )
        (read_body p v pos rest _ _ _ 1 refl size (omega (arith, length-frame p v)))
]
