-- ===== src/Checksum/Residue.antt =====
-- The checksum in arithmetic: the folded total is the sum of the words modulo 65535.
use udp_arq_lab.Prelude.{
  ℕ, zero, suc, ◌+◌, ◌-◌, ◌%◌, ◌≤◌, ◌≡◌, refl, ◌∙◌, ap, List, [], ◌∷◌, ◌++◌, arith, length,
  length-append, All, ◌==◌, All-append, Bool-cases, inl, inr,
}
use native.Mathlib.Nat.{add_assoc, zero-add}
use udp_arq_lab.Packet.{IsByte}
use udp_arq_lab.Checksum.{pad, fold, word, sum_words, fold_carry, checksum}

-- The sum of the words of a byte string, a missing last byte read as 0.
unfoldable pub word_sum : List ℕ → ℕ
word_sum [] = 0
word_sum (hi ∷ []) = word hi 0
word_sum (hi ∷ lo ∷ rest) = word hi lo + word_sum rest

-- The representative of `n` modulo 65535 in 1 … 65535, and 0 for 0 alone.
abbrev pub residue : ℕ → ℕ
residue zero = 0
residue (suc n) = suc (n % 65535)

fold-residue : (t w : ℕ) → t ≤ 65535 → w ≤ 65535 → fold (t + w) ≡ residue (t + w)
fold-residue t w ht hw = ground arith

residue-add : (n m : ℕ) → residue (residue n + m) ≡ residue (n + m)
residue-add zero m = refl
residue-add (suc n) m = ground arith

pub residue-le : (n : ℕ) → residue n ≤ 65535
residue-le zero = omega arith
residue-le (suc n) = omega arith

residue-residue : (n : ℕ) → residue (residue n) ≡ residue n
residue-residue zero = refl
residue-residue (suc n) = omega arith

-- The loop keeps the total within 16 bits, and it adds the words modulo 65535.
sum_words-residue :
    (t : ℕ) (buf : List ℕ)
    → All IsByte buf
    → length buf % 2 ≡ 0
    → sum_words (residue t) buf ≡ residue (t + word_sum buf)
unfolding sum_words word_sum
sum_words-residue t [] b e = ap residue (omega arith)
sum_words-residue t (hi ∷ []) b e = absurd (omega arith)
sum_words-residue t (hi ∷ lo ∷ rest) b e =
    rw
      (
        fold-residue (residue t) (word hi lo) (residue-le t) (omega arith),
        residue-add t (word hi lo),
      )
      (sum_words-residue (t + word hi lo) rest b.1.1 (omega arith)
        ∙ ap residue (add_assoc t (word hi lo) (word_sum rest)))

length-pad : (buf : List ℕ) → length (pad buf) % 2 ≡ 0
unfolding pad
length-pad buf = ground (arith, length-append buf (0 ∷ []))

pad-IsByte : (buf : List ℕ) → All IsByte buf → All IsByte (pad buf)
unfolding pad
pad-IsByte buf b = elim (Bool-cases (length buf % 2 == 0)) [
  | inl e ↦ rw e b
  | inr e ↦ rw e (All-append IsByte buf (0 ∷ []) b (omega arith, tt))
]

word_sum-append_zero : (buf : List ℕ) → word_sum (buf ++ 0 ∷ []) ≡ word_sum buf
unfolding word_sum
word_sum-append_zero [] = refl
word_sum-append_zero (hi ∷ []) = omega arith
word_sum-append_zero (hi ∷ lo ∷ rest) = ap (λ n. word hi lo + n) (word_sum-append_zero rest)

word_sum-pad : (buf : List ℕ) → word_sum (pad buf) ≡ word_sum buf
unfolding pad
word_sum-pad buf = ground (arith, word_sum-append_zero buf)

fold_carry-small : (fuel n : ℕ) → n ≤ 65535 → fold_carry fuel n ≡ n
unfolding fold_carry
fold_carry-small zero n h = refl
fold_carry-small (suc fuel) n h = ground arith

-- The checksum of a list of bytes is the complement of the sum of the words modulo 65535.
pub checksum-residue :
    (buf : List ℕ) → All IsByte buf → checksum buf ≡ 65535 - residue (word_sum buf)
unfolding checksum
checksum-residue buf b =
    rw (total_eq, fold_carry-small _ _ (residue-le (word_sum buf)))
      (omega (arith, residue-le (word_sum buf)))
  where
    total_eq : sum_words 0 (pad buf) ≡ residue (word_sum buf)
    total_eq =
        sum_words-residue 0 (pad buf) (pad-IsByte buf b) (length-pad buf)
        ∙ rw (word_sum-pad, zero-add)
