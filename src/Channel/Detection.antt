-- ===== src/Channel/Detection.antt =====
-- Every corruption that the channel can make is caught by `verify`.
use Prim.Native.Nat.{bit_xor}
use udp_arq_lab.Prelude.{
  ℕ, zero, suc, ◌+◌, ◌*◌, ◌/◌, ◌%◌, ◌^◌, ◌≤◌, ◌<◌, ◌≡◌, ◌≢◌, refl, ◌⊎◌, Bool, true, false, List, [],
  ◌∷◌, arith, length, All, ◌==◌, leb, ltb, ◌&&◌, ◌||◌,
}
use udp_arq_lab.Prelude.Float.{Float}
use udp_arq_lab.Packet.{IsByte}
use udp_arq_lab.Checksum.{verify, word, checksum}
use udp_arq_lab.Checksum.Residue.{word_sum, residue, checksum-residue, residue-le}
use udp_arq_lab.Channel.Corrupt.{flip_bit, bit_position, corrupt}

-- `b` differs from `a` by `d`, upwards or downwards.
pub record Shifted (a b d : ℕ) : Type 0 where
  pub positive : 0 < d
  pub small : d ≤ 32768
  pub by : (b ≡ a + d) ⊎ (b + d ≡ a)

flips_well : ℕ → Bool
flips_well n =
    let b = n / 8 in
    let m = 2 ^ (n % 8) in
    let c = bit_xor b m in ltb c 256 && ltb 0 m && leb m 128 && (c == b + m || c + m == b)

flip_table : ℕ → Bool
flip_table zero = true
flip_table (suc n) = flips_well n && flip_table n

flip_table_sound : (n i : ℕ) → flip_table n ≡ true → i < n → flips_well i ≡ true
unfolding flip_table
flip_table_sound zero i e h = absurd (omega arith)
flip_table_sound (suc n) i e h = ground (arith, flip_table_sound n i)

flip_table_holds : flip_table 2048 ≡ true
unfolding flip_table flips_well
flip_table_holds = refl

record ByteFlip (b c m : ℕ) : Type 0 where
  below : c < 256
  positive : 0 < m
  small : m ≤ 128
  by : (c ≡ b + m) ⊎ (c + m ≡ b)

ByteFlip-of_test :
    (b k : ℕ)
    → (let m = 2 ^ k in
        let c = bit_xor b m in ltb c 256 && ltb 0 m && leb m 128 && (c == b + m || c + m == b))
      ≡ true
    → ByteFlip b (bit_xor b (2 ^ k)) (2 ^ k)
ByteFlip-of_test b k e = ground arith

-- The other seven bits are kept.
flip_byte : (b k : ℕ) → b < 256 → k < 8 → ByteFlip b (bit_xor b (2 ^ k)) (2 ^ k)
unfolding flips_well
flip_byte b k hb hk = ByteFlip-of_test b k (rw (quotient, remainder) at entry)
  where
    quotient : (b * 8 + k) / 8 ≡ b
    quotient = omega arith

    remainder : (b * 8 + k) % 8 ≡ k
    remainder = omega arith

    entry : flips_well (b * 8 + k) ≡ true
    entry = flip_table_sound 2048 (b * 8 + k) flip_table_holds (omega arith)

high_byte :
    {x c m : ℕ} (y rest : ℕ)
    → ByteFlip x c m
    → Shifted (word x y + rest) (word c y + rest) (256 * m)
high_byte y rest h = ground arith

low_byte : {y c m : ℕ} (x rest : ℕ) → ByteFlip y c m → Shifted (word x y + rest) (word x c + rest) m
low_byte x rest h = ground arith

Shifted-zero : {a b d : ℕ} → Shifted (a + 0) (b + 0) d → Shifted a b d
Shifted-zero h = ground arith

Shifted-add : {a b d : ℕ} (n : ℕ) → Shifted a b d → Shifted (n + a) (n + b) d
Shifted-add n h = ground arith

-- A flipped bit changes the sum of the words by less than 65535.
pub word_sum-flip_bit :
    (buf : List ℕ) (i k : ℕ)
    → All IsByte buf
    → i < length buf
    → k < 8
    → (d : ℕ) × Shifted (word_sum buf) (word_sum (flip_bit buf i k)) d
unfolding word_sum flip_bit
word_sum-flip_bit [] i k b hi hk = absurd (omega arith)
word_sum-flip_bit (x ∷ []) zero k b hi hk =
    (256 * 2 ^ k, Shifted-zero (high_byte 0 0 (flip_byte x k b.0 hk)))
word_sum-flip_bit (x ∷ []) (suc i) k b hi hk = absurd (omega arith)
word_sum-flip_bit (x ∷ y ∷ rest) zero k b hi hk =
    (256 * 2 ^ k, high_byte y (word_sum rest) (flip_byte x k b.0 hk))
word_sum-flip_bit (x ∷ y ∷ rest) (suc zero) k b hi hk =
    (2 ^ k, low_byte x (word_sum rest) (flip_byte y k b.1.0 hk))
word_sum-flip_bit (x ∷ y ∷ rest) (suc (suc i)) k b hi hk =
    let (d, s) = word_sum-flip_bit rest i k b.1.1 (omega arith) hk in (d, Shifted-add (word x y) s)

flip_bit-IsByte : (buf : List ℕ) (i k : ℕ) → All IsByte buf → k < 8 → All IsByte (flip_bit buf i k)
unfolding flip_bit
flip_bit-IsByte [] i k b hk = tt
flip_bit-IsByte (x ∷ xs) zero k b hk = ((flip_byte x k b.0 hk).below, b.1)
flip_bit-IsByte (x ∷ xs) (suc i) k b hk = (b.0, flip_bit-IsByte xs i k b.1 hk)

-- Sums that differ so have different residues.
residue-Shifted : {a b d : ℕ} → Shifted a b d → residue a ≢ residue b
residue-Shifted {a = zero} {b = zero} h e = ground arith
residue-Shifted {a = zero} {b = suc b} h e = ground arith
residue-Shifted {a = suc a} {b = zero} h e = ground arith
residue-Shifted {a = suc a} {b = suc b} h e = ground arith

checksum-Shifted :
    (buf other : List ℕ) {d : ℕ}
    → All IsByte buf
    → All IsByte other
    → Shifted (word_sum buf) (word_sum other) d
    → checksum buf ≢ checksum other
checksum-Shifted buf other b c s e = residue-Shifted s (
    omega (
      arith,
      checksum-residue buf b,
      checksum-residue other c,
      residue-le (word_sum buf),
      residue-le (word_sum other),
    ))

Shifted-ne : {a b d : ℕ} → Shifted a b d → a ≢ b
Shifted-ne h e = omega arith

differs : (a b c : ℕ) → (a == b) ≡ true → b ≢ c → (a == c) ≡ false
differs a b c e n = ground arith

differs_left : (a b c : ℕ) → (a == c) ≡ true → a ≢ b → (b == c) ≡ false
differs_left a b c e n = ground arith

behind_zero :
    (rest other : List ℕ) {d : ℕ}
    → Shifted (word_sum rest) (word_sum other) d
    → Shifted (word_sum (0 ∷ 0 ∷ rest)) (word_sum (0 ∷ 0 ∷ other)) d
unfolding word_sum
behind_zero rest other s = Shifted-add 0 s

zero_bytes : (rest : List ℕ) → All IsByte rest → All IsByte (0 ∷ 0 ∷ rest)
zero_bytes rest b = (omega arith, (omega arith, b))

-- A packet of bytes that verifies no longer does when any one of its bits is flipped.
pub verify-flip_bit :
    (buf : List ℕ) (i k : ℕ)
    → All IsByte buf
    → i < length buf
    → k < 8
    → verify buf ≡ true
    → verify (flip_bit buf i k) ≡ false
unfolding verify flip_bit
verify-flip_bit [] i k b hi hk e = refl
verify-flip_bit (c1 ∷ []) i k b hi hk e = cc
verify-flip_bit (c1 ∷ c0 ∷ rest) zero k b hi hk e =
    differs _ _ _ e (Shifted-ne (Shifted-zero {b = _} (high_byte c0 0 (flip_byte c1 k b.0 hk))))
verify-flip_bit (c1 ∷ c0 ∷ rest) (suc zero) k b hi hk e =
    differs _ _ _ e (Shifted-ne (Shifted-zero (low_byte c1 0 (flip_byte c0 k b.1.0 hk))))
verify-flip_bit (c1 ∷ c0 ∷ rest) (suc (suc i)) k b hi hk e =
    let (d, s) = word_sum-flip_bit rest i k b.1.1 (omega arith) hk in
    differs_left _ _ _ e (
      checksum-Shifted (0 ∷ 0 ∷ rest) (0 ∷ 0 ∷ flip_bit rest i k) (zero_bytes rest b.1.1)
        (zero_bytes (flip_bit rest i k) (flip_bit-IsByte rest i k b.1.1 hk))
        (behind_zero rest (flip_bit rest i k) s))

module _ {T : Type 0} ⦃f : Float T⦄ where
  bit_position-lt : (draw : T) (n : ℕ) → 0 < n → bit_position draw n < n
  unfolding bit_position
  bit_position-lt draw n h = ground arith

  -- Whatever the draw, a packet of bytes that verifies no longer does once it is corrupted.
  pub verify-corrupt :
      (draw : T) (packet : List ℕ)
      → All IsByte packet
      → verify packet ≡ true
      → verify (corrupt draw packet) ≡ false
  unfolding corrupt
  verify-corrupt draw [] b e = unfold verify in cc
  verify-corrupt draw (x ∷ xs) b e =
      let h = bit_position-lt draw (length (x ∷ xs) * 8) (omega arith) in
      verify-flip_bit (x ∷ xs) _ _ b (omega arith) (omega arith) e
