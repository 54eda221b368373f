-- ===== src/Packet/RoundTrip.antt =====
-- `encode` and `decode` are inverse to one another.
use udp_arq_lab.Prelude.{
  ℕ, ◌/◌, ◌%◌, ◌≤◌, ◌<◌, ◌≡◌, some, List, ◌∷◌, arith, length, All, Option-cases, inl, inr,
}
use udp_arq_lab.Prelude.Result.{ok}
use udp_arq_lab.Packet.{
  IsByte, Header, Fields, max_payload, magic_number, validate, pack, encode, unpack, check_fields,
  from_u32, decode, make,
}

pub record IsValid (h : Header) : Type 0 where
  pub seq_fits : h.seq < 0x1_0000_0000
  pub ack_fits : h.ack < 0x1_0000_0000
  pub known : h.flags < 8
  pub version_one : h.version ≡ 1
  pub payload_fits : h.payload_len ≤ max_payload
  pub checksum_fits : h.checksum < 0x1_0000

pub validate→IsValid : (h : Header) → validate h ≡ ok tt → IsValid h
unfolding validate
validate→IsValid h e = ground arith

pub IsValid→validate : (h : Header) → IsValid h → validate h ≡ ok tt
unfolding validate
IsValid→validate h v = ground arith

-- What `encode` returns, and when.
pub encode_of_valid :
    (h : Header) (p : List ℕ) → IsValid h → h.payload_len ≡ length p → encode h p ≡ ok (pack h p)
unfolding encode
encode_of_valid h p v e = ground (arith, IsValid→validate h v)

pub IsValid-of_encode :
    (h : Header) (p buf : List ℕ)
    → encode h p ≡ ok buf
    → IsValid h × (h.payload_len ≡ length p) × (buf ≡ pack h p)
unfolding encode
IsValid-of_encode h p buf e = (validate→IsValid h (ground arith), ground arith, ground arith)

abbrev fields_of : Header → List ℕ → Fields
fields_of h p = record { header = h; magic = magic_number; payload = p }

unpack-pack : (h : Header) (p : List ℕ) → IsValid h → unpack (pack h p) ≡ some (fields_of h p)
unfolding unpack pack
unpack-pack h p v = ground arith

check_fields_ok :
    (h : Header) (p : List ℕ)
    → IsValid h
    → h.payload_len ≡ length p
    → check_fields (fields_of h p) ≡ ok (h, p)
unfolding check_fields make
check_fields_ok h p v e = ground (arith, IsValid→validate h v)

-- A packet that `encode` built decodes to the header and the payload that it was built from.
pub decode-encode : (h : Header) (p buf : List ℕ) → encode h p ≡ ok buf → decode buf ≡ ok (h, p)
unfolding decode
decode-encode h p buf e =
    let (v, len, shape) = IsValid-of_encode h p buf e in
    rw (shape, decode, unpack-pack h p v) (check_fields_ok h p v len)

IsValid-of_check :
    (u : Fields) (h : Header) (p : List ℕ)
    → check_fields u ≡ ok (h, p)
    → IsValid h
      × (h.payload_len ≡ length p)
      × (u.header ≡ h)
      × (u.magic ≡ magic_number)
      × (u.payload ≡ p)
unfolding check_fields make
IsValid-of_check u h p e =
    (validate→IsValid h (ground arith), ground arith, ground arith, ground arith, ground arith)

u32-from_u32 :
    (a b c d : ℕ)
    → a < 256
    → b < 256
    → c < 256
    → d < 256
    → (from_u32 a b c d / 0x100_0000 ≡ a)
      × (from_u32 a b c d / 0x1_0000 % 256 ≡ b)
      × (from_u32 a b c d / 256 % 256 ≡ c)
      × (from_u32 a b c d % 256 ≡ d)
u32-from_u32 a b c d ha hb hc hd = omega arith

pack-unpack :
    (buf : List ℕ) (u : Fields)
    → All IsByte buf
    → unpack buf ≡ some u
    → u.magic ≡ magic_number
    → pack u.header u.payload ≡ buf
unfolding unpack pack
pack-unpack (c1 ∷ c0 ∷ s3 ∷ s2 ∷ s1 ∷ s0 ∷ a3 ∷ a2 ∷ a1 ∷ a0 ∷ f ∷ v ∷ l1 ∷ l0 ∷ m1 ∷ m0 ∷ payload)
      u b e m =
    ground (arith, u32-from_u32 s3 s2 s1 s0, u32-from_u32 a3 a2 a1 a0)
pack-unpack _ u b e m = cc

encode_of_fields :
    (buf : List ℕ) (u : Fields) (h : Header) (p : List ℕ)
    → All IsByte buf
    → unpack buf ≡ some u
    → check_fields u ≡ ok (h, p)
    → encode h p ≡ ok buf
encode_of_fields buf u h p b e c =
    let (v, len, eh, em, ep) = IsValid-of_check u h p c in
    rw (encode_of_valid h p v len, ← eh, ← ep, pack-unpack buf u b e em)

-- A list of bytes that `decode` accepts is the one that `encode` makes of the decoded header and
-- payload.
pub encode-decode :
    (buf : List ℕ) (h : Header) (p : List ℕ)
    → All IsByte buf
    → decode buf ≡ ok (h, p)
    → encode h p ≡ ok buf
unfolding decode
encode-decode buf h p b e = elim (Option-cases (unpack buf)) [
  | inl none_e ↦ ground arith
  | inr (u, some_e) ↦ encode_of_fields buf u h p b some_e (ground arith)
]
