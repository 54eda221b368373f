-- ===== src/Wire/Sound.antt =====
-- What the transports put on the wire passes `verify` and decodes to what was meant.
use mathlib.Core.Path.{subst}
use udp_arq_lab.Prelude.{ℕ, ◌≤◌, ◌<◌, ◌≡◌, refl, ap, sym, ◌∙◌, true, List, [], ◌∷◌, arith, length}
use udp_arq_lab.Prelude.Result.{Result, ok}
use udp_arq_lab.Packet.{
  Header, PacketError, make, encode, pack, decode, max_payload, magic_number, u16, u32, flag_data,
  flag_ack,
}
use udp_arq_lab.Packet.RoundTrip.{
  IsValid, IsValid→validate, validate→IsValid, encode_of_valid, decode-encode,
}
use udp_arq_lab.Checksum.{checksum, verify}
use udp_arq_lab.Wire.{encode_with_checksum, header_of, build, data_packet, ack_packet}

checksum-lt : (buf : List ℕ) → checksum buf < 0x1_0000
unfolding checksum
checksum-lt buf = omega arith

-- `buf` is a packet for `h` and `p`: it verifies, and it decodes to them but for the checksum.
pub record Carries (buf : List ℕ) (h : Header) (p : List ℕ) : Type 0 where
  pub sum : ℕ
  pub verified : verify buf ≡ true
  pub decoded : decode buf ≡ ok (record h { checksum = sum }, p)

abbrev with_sum : Header → ℕ → Header
with_sum h c = record h { checksum = c }

with_sum-IsValid : (h : Header) (c : ℕ) → IsValid h → c < 0x1_0000 → IsValid (with_sum h c)
with_sum-IsValid h c v b = ground arith

-- What follows the checksum field.
body : Header → List ℕ → List ℕ
body h p = u32 h.seq (u32 h.ack (h.flags ∷ h.version ∷ u16 h.payload_len (u16 magic_number p)))

pack_zero : (h : Header) (p : List ℕ) → h.checksum ≡ 0 → pack h p ≡ 0 ∷ 0 ∷ body h p
unfolding pack body
pack_zero h p z = ground arith

verify_of_sum : (c : ℕ) (rest : List ℕ) → checksum (0 ∷ 0 ∷ rest) ≡ c → verify (u16 c rest) ≡ true
unfolding verify
verify_of_sum c rest e = ground (arith, e)

verify_of_pack :
    (h : Header) (p : List ℕ)
    → h.checksum ≡ 0
    → verify (pack (with_sum h (checksum (pack h p))) p) ≡ true
unfolding pack body
verify_of_pack h p z = verify_of_sum _ (body h p) (ap checksum (sym (pack_zero h p z)))

-- On a valid header whose checksum field is 0 and whose length field is that of the payload,
-- `_encode_with_checksum` returns a packet, and that packet verifies and decodes to them.
pub encode_with_checksum-Carries :
    (h : Header) (p : List ℕ)
    → IsValid h
    → h.payload_len ≡ length p
    → h.checksum ≡ 0
    → (buf : List ℕ) × (encode_with_checksum h p ≡ ok buf) × Carries buf h p
unfolding encode_with_checksum make
encode_with_checksum-Carries h p v len z = (
  pack final p,
  rw (encode_of_valid h p v len, IsValid→validate final vf, encoded),
  record {
    sum = checksum (pack h p);
    verified = verify_of_pack h p z;
    decoded = decode-encode final p _ encoded;
  },
)
  where
    final : Header
    final = with_sum h (checksum (pack h p))

    vf : IsValid final
    vf = with_sum-IsValid h _ v (checksum-lt (pack h p))

    encoded : encode final p ≡ ok (pack final p)
    encoded = encode_of_valid final p vf len

build-Carries :
    (h : Header) (p : List ℕ)
    → IsValid h
    → h.payload_len ≡ length p
    → h.checksum ≡ 0
    → (buf : List ℕ) × (build h p ≡ ok buf) × Carries buf h p
unfolding build make
build-Carries h p v len z =
    let (buf, e, c) = encode_with_checksum-Carries h p v len z in
    (buf, rw (IsValid→validate h v) e, c)

data_header-IsValid :
    (seq n : ℕ) → seq < 0x1_0000_0000 → n ≤ max_payload → IsValid (header_of seq 0 flag_data n)
data_header-IsValid seq n hs hn = omega arith

ack_header-IsValid : (ack : ℕ) → ack < 0x1_0000_0000 → IsValid (header_of 0 ack flag_ack 0)
ack_header-IsValid ack h = omega arith

-- Every 32-bit sequence number and every payload of at most MAX_PAYLOAD bytes has a DATA packet:
-- it verifies, and it decodes to that number, the DATA flag and that payload.
pub data_packet-Carries :
    (seq : ℕ) (p : List ℕ)
    → seq < 0x1_0000_0000
    → length p ≤ max_payload
    → (buf : List ℕ) × (data_packet seq p ≡ ok buf)
      × Carries buf (header_of seq 0 flag_data (length p)) p
unfolding data_packet
data_packet-Carries seq p hs hp =
    build-Carries (header_of seq 0 flag_data (length p)) p
      (data_header-IsValid seq (length p) hs hp) refl refl

-- Every 32-bit acknowledgement number has an ACK packet: it verifies, and it decodes to that
-- number, the ACK flag and no payload.
pub ack_packet-Carries :
    (ack : ℕ)
    → ack < 0x1_0000_0000
    → (buf : List ℕ) × (ack_packet ack ≡ ok buf) × Carries buf (header_of 0 ack flag_ack 0) []
unfolding ack_packet
ack_packet-Carries ack h =
    build-Carries (header_of 0 ack flag_ack 0) [] (ack_header-IsValid ack h) refl refl

ok_inj : {a b : List ℕ} → ◌≡◌ {A = Result PacketError (List ℕ)} (ok a) (ok b) → a ≡ b
ok_inj e = cc

-- A packet that could be built was in range, and it carries what it was built from.
pub Carries-of_data :
    (seq : ℕ) (p buf : List ℕ)
    → data_packet seq p ≡ ok buf
    → Carries buf (header_of seq 0 flag_data (length p)) p
unfolding data_packet build make
Carries-of_data seq p buf e =
    let v = validate→IsValid (header_of seq 0 flag_data (length p)) (ground arith) in
    let (b, built, c) = data_packet-Carries seq p v.seq_fits v.payload_fits in
    subst (λ x. Carries x (header_of seq 0 flag_data (length p)) p)
      (ok_inj (sym built ∙ unfold data_packet build make in e)) c

pub Carries-of_ack :
    (ack : ℕ) (buf : List ℕ) → ack_packet ack ≡ ok buf → Carries buf (header_of 0 ack flag_ack 0) []
unfolding ack_packet build make
Carries-of_ack ack buf e =
    let v = validate→IsValid (header_of 0 ack flag_ack 0) (ground arith) in
    let (b, built, c) = ack_packet-Carries ack v.ack_fits in
    subst (λ x. Carries x (header_of 0 ack flag_ack 0) [])
      (ok_inj (sym built ∙ unfold ack_packet build make in e)) c
