-- ===== src/Checksum.antt =====
-- udp_arq/checksum.py: the 16-bit one's-complement checksum and its verification.
pub mod Residue
use udp_arq_lab.Prelude.{
  ℕ, zero, suc, ◌+◌, ◌-◌, ◌*◌, ◌/◌, ◌%◌, Bool, true, false, List, [], ◌∷◌, ◌++◌, length, ◌==◌,
  if◌then◌else◌,
}

-- `if len(buf) % 2: buf += b"\x00"`
unfoldable pub pad : List ℕ → List ℕ
pad buf = if length buf % 2 == 0 then buf else buf ++ 0 ∷ []

-- `(total & 0xFFFF) + (total >> 16)`
abbrev pub fold : ℕ → ℕ
fold total = total % 0x1_0000 + total / 0x1_0000

-- `(buf[i] << 8) | buf[i + 1]`, on bytes
abbrev pub word : ℕ → ℕ → ℕ
word hi lo = hi * 256 + lo

-- The loop over the 16-bit words. Behind `pad` the number of bytes is even.
unfoldable pub sum_words : ℕ → List ℕ → ℕ
sum_words total [] = total
sum_words total (hi ∷ []) = total
sum_words total (hi ∷ lo ∷ rest) = sum_words (fold (total + word hi lo)) rest

-- `while total >> 16`, on fuel; a round makes the total smaller, so `total` rounds are enough.
unfoldable pub fold_carry : ℕ → ℕ → ℕ
fold_carry zero total = total
fold_carry (suc fuel) total = elim (total / 0x1_0000 == 0) [
  | true ↦ total
  | false ↦ fold_carry fuel (fold total)
]

unfoldable pub checksum : List ℕ → ℕ
checksum buf = let total = sum_words 0 (pad buf) in 0xffff - fold_carry total total % 0x1_0000

-- The stored checksum is compared with that of the packet whose first two bytes are zero.
unfoldable pub verify : List ℕ → Bool
verify [] = false
verify (c1 ∷ []) = false
verify (c1 ∷ c0 ∷ rest) = checksum (0 ∷ 0 ∷ rest) == word c1 c0
