-- ===== src/Channel/Corrupt.antt =====
-- udp_arq/channel.py: the corruption of one bit in `sendto`.
use udp_arq_lab.Prelude.{
  ℕ, zero, suc, ◌-◌, ◌*◌, ◌/◌, ◌%◌, ◌^◌, List, [], ◌∷◌, length, leb, if◌then◌else◌, bit_xor,
}
use udp_arq_lab.Prelude.Float.{Float}

-- `corrupted[byte_index] ^= 1 << bit_index`
unfoldable pub flip_bit : List ℕ → ℕ → ℕ → List ℕ
flip_bit [] i k = []
flip_bit (b ∷ bs) zero k = bit_xor b (2 ^ k) ∷ bs
flip_bit (b ∷ bs) (suc i) k = b ∷ flip_bit bs i k

module _ {T : Type 0} ⦃f : Float T⦄ where
  -- `int(corruption_draw * total_bits)`, kept below `total_bits`
  unfoldable pub bit_position : T → ℕ → ℕ
  bit_position draw total_bits =
      let position = f.trunc (f.mul draw (f.ratio total_bits 1)) in
      if leb total_bits position then total_bits - 1 else position

  unfoldable pub corrupt : T → List ℕ → List ℕ
  corrupt draw packet =
      let position = bit_position draw (length packet * 8) in
      flip_bit packet (position / 8) (position % 8)
