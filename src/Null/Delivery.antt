-- ===== src/Null/Delivery.antt =====
-- A datagram of the null transport gets through behind damaged ones.
use udp_arq_lab.Prelude.{
  ℕ, ◌≤◌, ◌≡◌, refl, ◌∙◌, inl, inr, false, none, some, List, [], ◌∷◌, ◌++◌, length, arith, All,
}
use udp_arq_lab.Prelude.Result.{ok, Result-cases}
use udp_arq_lab.Packet.{make, validate, flag_data, max_payload}
use udp_arq_lab.Checksum.{verify}
use udp_arq_lab.Wire.{header_of, build, data_packet, encode_with_checksum}
use udp_arq_lab.Wire.Sound.{Carries, data_packet-Carries}
use udp_arq_lab.StopAndWait.{parse}
use udp_arq_lab.StopAndWait.Receiving.{parse_of_Carries}
use udp_arq_lab.Null.{null_packet, null_sendto, null_recvfrom}

-- `sendto` builds the packet that the other transports build for number 0.
null_packet-data_packet : (payload : List ℕ) → null_packet payload ≡ data_packet 0 payload
unfolding null_packet data_packet build encode_with_checksum make
null_packet-data_packet payload =
    elim (Result-cases (validate (header_of 0 0 flag_data (length payload)))) [
      | inl (u, h) ↦ rw h refl
      | inr (x, h) ↦ rw h refl
    ]

null_sendto_built :
    (mss : ℕ) (payload packet : List ℕ)
    → length payload ≤ mss
    → data_packet 0 payload ≡ ok packet
    → null_sendto mss payload ≡ ok packet
unfolding null_sendto
null_sendto_built mss payload packet fits built =
    rw (null_packet-data_packet payload, built) (ground arith)

parse_rejected : (raw : List ℕ) → verify raw ≡ false → parse raw ≡ none
unfolding parse
parse_rejected raw h = rw h refl

module _ {A : Type 0} where
  skip_rejected :
      (bad rest : List (List ℕ × A))
      → All (λ d. verify d.0 ≡ false) bad
      → null_recvfrom (bad ++ rest) ≡ null_recvfrom rest
  unfolding null_recvfrom
  skip_rejected [] rest h = refl
  skip_rejected ((raw, addr) ∷ bad) rest h =
      rw (null_recvfrom, parse_rejected raw h.0) (skip_rejected bad rest h.1)

  read_packet :
      (packet payload : List ℕ) (addr : A) (rest : List (List ℕ × A))
      → Carries packet (header_of 0 0 flag_data (length payload)) payload
      → null_recvfrom ((packet, addr) ∷ rest) ≡ some (payload, addr, rest)
  unfolding null_recvfrom
  read_packet packet payload addr rest c = rw (null_recvfrom, parse_of_Carries c) refl

  -- For a payload of at most `mss` and at most MAX_PAYLOAD bytes, `sendto` hands a packet to the
  -- channel, and a peer that reads it behind any datagrams that `verify` rejects gets exactly the
  -- payload, with its sender, and what follows is left to read.
  pub null_delivers :
      (mss : ℕ) (payload : List ℕ) (bad rest : List (List ℕ × A)) (addr : A)
      → length payload ≤ mss
      → length payload ≤ max_payload
      → All (λ d. verify d.0 ≡ false) bad
      → (packet : List ℕ) × (null_sendto mss payload ≡ ok packet)
        × (null_recvfrom (bad ++ (packet, addr) ∷ rest) ≡ some (payload, addr, rest))
  null_delivers mss payload bad rest addr fits small rejected =
      let (packet, built, carries) = data_packet-Carries 0 payload (omega arith) small in
      (
        packet,
        null_sendto_built mss payload packet fits built,
        skip_rejected bad ((packet, addr) ∷ rest) rejected
            ∙ read_packet packet payload addr rest carries,
      )
