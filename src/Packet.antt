-- ===== src/Packet.antt =====
-- udp_arq/packet.py: the 16-byte header, `encode` and `decode`. A byte string is a list of
-- numbers; the header's fields are numbers that are not negative. The type tests that raise
-- TypeError have no counterpart, since the arguments are typed.
pub mod RoundTrip
use udp_arq_lab.Prelude.{
  ℕ, ◌+◌, ◌-◌, ◌*◌, ◌/◌, ◌%◌, ◌<◌, Option, none, some, List, [], ◌∷◌, length, leb, ◌==◌, Bool,
}
use udp_arq_lab.Prelude.Result.{Result, ok, err, ◌>>=◌, ◌>>◌, require}

abbrev pub IsByte : ℕ → Type 0
IsByte b = b < 256

abbrev pub header_size : ℕ
header_size = 16

abbrev pub protocol_version : ℕ
protocol_version = 1

abbrev pub magic_number : ℕ
magic_number = 0xa55a

abbrev pub flag_data : ℕ
flag_data = 1

abbrev pub flag_ack : ℕ
flag_ack = 2

-- 65507 - HEADER_SIZE
abbrev pub max_payload : ℕ
max_payload = 65507 - header_size

pub data PacketError : Type 0 where
  seq_range ack_range unknown_flags bad_version payload_len_range checksum_range : PacketError
  length_mismatch truncated bad_magic : PacketError

pub record Header : Type 0 where
  pub seq : ℕ
  pub ack : ℕ
  pub flags : ℕ
  pub version : ℕ
  pub payload_len : ℕ
  pub checksum : ℕ

-- `flags & ~KNOWN_FLAGS`: KNOWN_FLAGS is 7, the low three bits.
abbrev pub unknown_bits : ℕ → ℕ
unknown_bits flags = flags / 8 * 8

unfoldable pub validate : Header → Result PacketError (Unit {0})
validate h = do
  require (leb h.seq 0xffff_ffff) seq_range
  require (leb h.ack 0xffff_ffff) ack_range
  require (unknown_bits h.flags == 0) unknown_flags
  require (h.version == protocol_version) bad_version
  require (leb h.payload_len max_payload) payload_len_range
  require (leb h.checksum 0xffff) checksum_range

-- `Header(...)`: the fields are validated as the object is made.
unfoldable pub make : Header → Result PacketError Header
make h = do validate h; ok h

-- Big-endian fields in front of a rest. `validate` keeps each value within its field.
abbrev pub u16 : ℕ → List ℕ → List ℕ
u16 n rest = (n / 256) ∷ (n % 256) ∷ rest

abbrev pub u32 : ℕ → List ℕ → List ℕ
u32 n rest = (n / 0x100_0000) ∷ (n / 0x1_0000 % 256) ∷ (n / 256 % 256) ∷ (n % 256) ∷ rest

abbrev pub from_u16 : ℕ → ℕ → ℕ
from_u16 a b = a * 256 + b

abbrev pub from_u32 : ℕ → ℕ → ℕ → ℕ → ℕ
from_u32 a b c d = ((a * 256 + b) * 256 + c) * 256 + d

-- struct.pack("!HIIBBHH", …) + payload
unfoldable pub pack : Header → List ℕ → List ℕ
pack h payload =
    u16 h.checksum
      (u32 h.seq (u32 h.ack (h.flags ∷ h.version ∷ u16 h.payload_len (u16 magic_number payload))))

unfoldable pub encode : Header → List ℕ → Result PacketError (List ℕ)
encode h payload = do
  validate h
  require (h.payload_len == length payload) length_mismatch
  ok (pack h payload)

pub record Fields : Type 0 where
  pub header : Header
  pub magic : ℕ
  pub payload : List ℕ

-- struct.unpack_from("!HIIBBHH", view), and what follows the header; `none` if it is truncated.
unfoldable pub unpack : List ℕ → Option Fields
unpack (c1 ∷ c0 ∷ s3 ∷ s2 ∷ s1 ∷ s0 ∷ a3 ∷ a2 ∷ a1 ∷ a0 ∷ f ∷ v ∷ l1 ∷ l0 ∷ m1 ∷ m0 ∷ payload) =
    some (record {
      header = record {
        seq = from_u32 s3 s2 s1 s0;
        ack = from_u32 a3 a2 a1 a0;
        flags = f;
        version = v;
        payload_len = from_u16 l1 l0;
        checksum = from_u16 c1 c0;
      };
      magic = from_u16 m1 m0;
      payload = payload;
    })
unpack _ = none

-- The checks of `decode` behind the unpacking, in the order of the source.
unfoldable pub check_fields : Fields → Result PacketError (Header × List ℕ)
check_fields u = do
  require (u.magic == magic_number) bad_magic
  require (u.header.version == protocol_version) bad_version
  require (unknown_bits u.header.flags == 0) unknown_flags
  require (u.header.payload_len == length u.payload) length_mismatch
  h ← make u.header
  ok (h, u.payload)

unfoldable pub decode : List ℕ → Result PacketError (Header × List ℕ)
decode buf = elim (unpack buf) [ none ↦ err truncated | some u ↦ check_fields u ]

-- `header.flags & flag`, for a flag of one bit
abbrev pub has_flag : ℕ → ℕ → Bool
has_flag flags flag = flags / flag % 2 == 1
