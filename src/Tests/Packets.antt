-- ===== src/Tests/Packets.antt =====
-- Packets on the wire.
use meshcore.Prelude.{
  ◌≡◌, ◌≤◌, refl, true, false, none, some, [], ◌∷◌, ◌++◌, replicate, arith, length, ◌↔◌,
}
use meshcore.Packet.{
  Packet, path_len_field, is_valid_path_len, has_transport_codes, get_route_type, get_raw_length,
  write_path, get_path_byte_len, get_path_hash_size, get_path_hash_count, set_path_hash_count,
}
use meshcore.Packet.Codec.{
  write_to, read_from, frame, code_bytes, read_codes, read_path_len, read_path_bytes, read_payload,
}
use meshcore.Packet.Length.{IsPacket, IsSendable, length-frame}
use meshcore.Packet.RoundTrip.{restored, read_from-write_to}
use meshcore.Packet.Digest.{message, SameMessage, message_iff}
use meshcore.Packet.Fields.{path_len-set_path_hash_count}

-- A flooded text message with transport codes, two hashes of two bytes and a payload of three.
abbrev pub text_packet : Packet
text_packet = record {
  header = 0x08;
  payload_len = 3;
  path_len = 66;
  transport_code0 = 0x534E;
  transport_code1 = 0x0102;
  path = 10 ∷ 11 ∷ 12 ∷ 13 ∷ replicate 60 0;
  payload = 7 ∷ 8 ∷ 9 ∷ replicate 181 0;
  snr_q4 = 0;
}

abbrev pub blank : Packet
blank = record {
  header = 0;
  payload_len = 0;
  path_len = 0;
  transport_code0 = 0;
  transport_code1 = 0;
  path = replicate 64 0;
  payload = replicate 184 0;
  snr_q4 = 5;
}

text_frame :
    (write_to (some text_packet) true).bytes
    ≡ 0x08 ∷ 0x4E ∷ 0x53 ∷ 0x02 ∷ 0x01 ∷ 66 ∷ 10 ∷ 11 ∷ 12 ∷ 13 ∷ 7 ∷ 8 ∷ 9 ∷ []
unfolding write_to frame code_bytes is_valid_path_len path_len_field has_transport_codes
    get_route_type write_path
text_frame = refl

-- The packets that the decoder takes from short inputs.
short_inputs :
    ((read_from blank (some (9 ∷ 0 ∷ [])) 2).0 ≡ false)
    × ((read_from blank (some (9 ∷ 0 ∷ 5 ∷ [])) 3).0 ≡ true)
    × ((read_from blank (some (9 ∷ 0xC0 ∷ 5 ∷ [])) 3).0 ≡ false)
    × ((read_from blank none 3).0 ≡ false)
unfolding read_from read_codes read_path_len read_path_bytes read_payload has_transport_codes
    get_route_type is_valid_path_len path_len_field get_path_byte_len get_path_hash_count
    get_path_hash_size
short_inputs = (refl, refl, refl, refl)

pub text_packet-IsPacket : IsPacket text_packet
text_packet-IsPacket = omega arith

pub text_packet_path : is_valid_path_len (path_len_field (some text_packet)) ≡ true
unfolding is_valid_path_len path_len_field
text_packet_path = refl

text_packet-IsSendable : IsSendable text_packet
text_packet-IsSendable = record {
  packet = text_packet-IsPacket;
  path_fits = text_packet_path;
  payload_fits = omega arith;
}

read_from-write_to_example :
    let w = write_to (some text_packet) true in
    read_from blank (some (w.bytes ++ (99 ∷ []))) w.count ≡ (true, restored blank text_packet)
read_from-write_to_example =
    read_from-write_to text_packet blank (99 ∷ []) text_packet-IsSendable (omega arith)

length-frame_example :
    (length (frame text_packet) ≡ get_raw_length (some text_packet))
    × (length (frame text_packet) ≤ 254)
length-frame_example = length-frame text_packet text_packet-IsSendable

message_iff_example :
    (message text_packet ≡ message (record text_packet { path_len = 65 }))
    ↔ SameMessage text_packet (record text_packet { path_len = 65 })
message_iff_example = message_iff text_packet (record text_packet { path_len = 65 })

path_len-set_path_hash_count_example : (set_path_hash_count text_packet 5).path_len ≡ 69
path_len-set_path_hash_count_example = path_len-set_path_hash_count text_packet 5 (omega arith)
