-- ===== src/Wire.antt =====
-- `_encode_with_checksum`, which stop_and_wait.py, go_back_n.py and selective_repeat.py each
-- define in the same words, and the packets that the transports build with it.
pub mod Sound
use udp_arq_lab.Prelude.{ℕ, List, [], length}
use udp_arq_lab.Prelude.Result.{Result, ok, err, ◌>>=◌}
use udp_arq_lab.Packet.{Header, PacketError, make, encode, flag_data, flag_ack, protocol_version}
use udp_arq_lab.Checksum.{checksum}

-- Encode with the header's own checksum field, and again with the checksum of that draft.
unfoldable pub encode_with_checksum : Header → List ℕ → Result PacketError (List ℕ)
encode_with_checksum h payload = do
  draft ← encode h payload
  final ← make (record h { checksum = checksum draft })
  encode final payload

-- `Header(seq=…, ack=…, flags=…, payload_len=…)`, the other fields by their defaults
abbrev pub header_of : ℕ → ℕ → ℕ → ℕ → Header
header_of seq ack flags payload_len = record {
  seq = seq;
  ack = ack;
  flags = flags;
  version = protocol_version;
  payload_len = payload_len;
  checksum = 0;
}

unfoldable pub build : Header → List ℕ → Result PacketError (List ℕ)
build header payload = do h ← make header; encode_with_checksum h payload

-- The DATA packet of `seq`.
unfoldable pub data_packet : ℕ → List ℕ → Result PacketError (List ℕ)
data_packet seq payload = build (header_of seq 0 flag_data (length payload)) payload

-- The ACK packet that names the next expected number.
unfoldable pub ack_packet : ℕ → Result PacketError (List ℕ)
ack_packet ack = build (header_of 0 ack flag_ack 0) []
