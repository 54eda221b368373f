-- ===== src/Null.antt =====
-- udp_arq/transport/null.py: one packet for each datagram, and no acknowledgement. What the channel
-- delivers before the timeout is an argument of `recvfrom`.
pub mod Delivery
use udp_arq_lab.Prelude.{ℕ, Bool, Option, none, some, List, [], ◌∷◌, length, ltb, if◌then◌else◌}
use udp_arq_lab.Prelude.Result.{Result, ok, err, ◌>>=◌}
use udp_arq_lab.Packet.{Header, PacketError, make, encode, flag_data}
use udp_arq_lab.Checksum.{checksum}
use udp_arq_lab.Wire.{header_of}
use udp_arq_lab.StopAndWait.{parse}

pub data NullError : Type 0 where
  too_long : NullError
  bad_packet : PacketError → NullError

-- The packet with its header's checksum field 0, and again with the checksum of that.
unfoldable pub null_packet : List ℕ → Result PacketError (List ℕ)
null_packet payload = do
  header ← make (header_of 0 0 flag_data (length payload))
  pkt_bytes ← encode header payload
  final_header ←
      make (record (header_of 0 0 flag_data (length payload)) { checksum = checksum pkt_bytes })
  encode final_header payload

-- What `sendto` hands to the channel.
unfoldable pub null_sendto : ℕ → List ℕ → Result NullError (List ℕ)
null_sendto mss payload =
    if ltb mss (length payload)
    then err too_long
    else elim (null_packet payload) [ err x ↦ err (bad_packet x) | ok packet ↦ ok packet ]

-- The payload and its sender, with what is left unread; `none` is the TimeoutError.
unfoldable pub null_recvfrom :
    {A : Type 0} → List (List ℕ × A) → Option (List ℕ × A × List (List ℕ × A))
null_recvfrom [] = none
null_recvfrom ((raw, addr) ∷ more) = elim (parse raw) [
  | none ↦ null_recvfrom more
  | some (header, payload) ↦ some (payload, addr, more)
]
