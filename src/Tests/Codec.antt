-- ===== src/Tests/Codec.antt =====
-- Packets, checksums and the wire format at concrete inputs.
use udp_arq_lab.Prelude.{ℕ, ◌-◌, ◌≡◌, refl, true, false, List, [], ◌∷◌, arith, All}
use udp_arq_lab.Prelude.Result.{ok}
use udp_arq_lab.Packet.{IsByte, Header, encode, decode, make, validate, pack}
use udp_arq_lab.Packet.RoundTrip.{decode-encode, encode-decode}
use udp_arq_lab.Checksum.{checksum, verify, pad, sum_words, fold_carry}
use udp_arq_lab.Checksum.Residue.{checksum-residue, residue, word_sum}
use udp_arq_lab.Wire.{header_of, build, encode_with_checksum, data_packet, ack_packet}
use udp_arq_lab.Wire.Sound.{Carries, data_packet-Carries, ack_packet-Carries}
use udp_arq_lab.Channel.Corrupt.{flip_bit, corrupt}
use udp_arq_lab.Channel.Detection.{verify-flip_bit, verify-corrupt}
use udp_arq_lab.Tests.{units}

-- "hi"
abbrev pub hi : List ℕ
hi = 104 ∷ 105 ∷ []

-- The DATA packet that carries it as number 0.
abbrev pub hi_packet : List ℕ
hi_packet = 241 ∷ 56 ∷ 0 ∷ 0 ∷ 0 ∷ 0 ∷ 0 ∷ 0 ∷ 0 ∷ 0 ∷ 1 ∷ 1 ∷ 0 ∷ 2 ∷ 165 ∷ 90 ∷ 104 ∷ 105 ∷ []

abbrev hi_header : Header
hi_header = record (header_of 0 0 1 2) { checksum = 61752 }

pub hi_bytes : All IsByte hi_packet
hi_bytes = ground arith

pub hi_built : data_packet 0 hi ≡ ok hi_packet
unfolding data_packet build make validate encode_with_checksum encode pack checksum fold_carry
    sum_words pad
hi_built = refl

hi_encoded : encode hi_header hi ≡ ok hi_packet
unfolding encode validate pack
hi_encoded = refl

pub hi_verified : verify hi_packet ≡ true
unfolding verify checksum fold_carry sum_words pad
hi_verified = refl

-- "!" as number 1
abbrev pub next_packet : List ℕ
next_packet = 56 ∷ 162 ∷ 0 ∷ 0 ∷ 0 ∷ 1 ∷ 0 ∷ 0 ∷ 0 ∷ 0 ∷ 1 ∷ 1 ∷ 0 ∷ 1 ∷ 165 ∷ 90 ∷ 33 ∷ []

pub next_built : data_packet 1 (33 ∷ []) ≡ ok next_packet
unfolding data_packet build make validate encode_with_checksum encode pack checksum fold_carry
    sum_words pad
next_built = refl

-- The ACK that names number 1
abbrev pub ack_bytes : List ℕ
ack_bytes = 88 ∷ 163 ∷ 0 ∷ 0 ∷ 0 ∷ 0 ∷ 0 ∷ 0 ∷ 0 ∷ 1 ∷ 2 ∷ 1 ∷ 0 ∷ 0 ∷ 165 ∷ 90 ∷ []

pub ack_built : ack_packet 1 ≡ ok ack_bytes
unfolding ack_packet build make validate encode_with_checksum encode pack checksum fold_carry
    sum_words pad
ack_built = refl

pub next_verified : verify next_packet ≡ true
unfolding verify checksum fold_carry sum_words pad
next_verified = refl

decode-encode_example : decode hi_packet ≡ ok (hi_header, hi)
decode-encode_example = decode-encode hi_header hi hi_packet hi_encoded

encode-decode_example : encode hi_header hi ≡ ok hi_packet
encode-decode_example =
    encode-decode hi_packet hi_header hi hi_bytes (decode-encode hi_header hi hi_packet hi_encoded)

checksum-residue_example : checksum hi ≡ 65535 - residue (word_sum hi)
checksum-residue_example = checksum-residue hi (ground arith)

data_packet-Carries_example :
    (buf : List ℕ) × (data_packet 0 hi ≡ ok buf) × Carries buf (header_of 0 0 1 2) hi
data_packet-Carries_example = data_packet-Carries 0 hi (omega arith) (omega arith)

ack_packet-Carries_example :
    (buf : List ℕ) × (ack_packet 1 ≡ ok buf) × Carries buf (header_of 0 1 2 0) []
ack_packet-Carries_example = ack_packet-Carries 1 (omega arith)

verify-flip_bit_example : verify (flip_bit hi_packet 17 3) ≡ false
verify-flip_bit_example =
    verify-flip_bit hi_packet 17 3 hi_bytes (omega arith) (omega arith) hi_verified

verify-corrupt_example : verify (corrupt {T = ℕ} 5000 hi_packet) ≡ false
verify-corrupt_example = verify-corrupt 5000 hi_packet hi_bytes hi_verified
