-- ===== src/FileLayer/Whole.antt =====
-- Nothing is lost between a file and its chunks.
use mathlib.Core.Logic.{◌≢◌, ◌⊎◌, inl, inr}
use native.Mathlib.Nat.{zero-add, suc-add, add-sub_cancel_left}
use native.Mathlib.Decide.{dec_lt}
use udp_arq_lab.Prelude.{
  ◌↔◌, ℕ, zero, suc, ◌+◌, ◌≤◌, ◌<◌, ◌≡◌, refl, ap, ◌∙◌, sym, true, List, [], ◌∷◌, ◌++◌, map, length,
  take, drop, ◌==◌, arith, All, take-append-drop, length-take, length-drop, append-nil,
  append_assoc,
}
use udp_arq_lab.Prelude.Result.{ok}
use udp_arq_lab.FileLayer.{
  slice, range, chunk, reassemble, read_loop, read_file_chunks, reassemble_file,
}

-- The loop that reads and the slices that `chunk` takes are the same chunks.
pub length_zero : (xs : List ℕ) → length xs ≡ 0 → xs ≡ []
length_zero [] e = refl
length_zero (x ∷ xs) e = absurd (omega arith)

take_empty : (n : ℕ) (xs : List ℕ) → 0 < n → (length (take n xs) == 0) ≡ true → xs ≡ []
take_empty n xs h e = length_zero xs (ground (arith, length-take n xs))

read_loop_more :
    (fuel : ℕ) (bytes : List ℕ) (mss : ℕ)
    → 0 < mss
    → length (take mss bytes) ≢ 0
    → read_loop (suc fuel) bytes mss ≡ take mss bytes ∷ read_loop fuel (drop mss bytes) mss
unfolding read_loop
read_loop_more fuel bytes mss h e = ground arith

read_loop_done :
    (fuel : ℕ) (bytes : List ℕ) (mss : ℕ)
    → length (take mss bytes) ≡ 0
    → read_loop fuel bytes mss ≡ []
unfolding read_loop
read_loop_done zero bytes mss e = refl
read_loop_done (suc fuel) bytes mss e = ground arith

pub take_cases :
    (mss : ℕ) (bytes : List ℕ)
    → 0 < mss
    → ((length (take mss bytes) ≡ 0) × (bytes ≡ []))
      ⊎ ((length (take mss bytes) ≢ 0) × (length (drop mss bytes) < length bytes))
take_cases mss [] h = inl (length-take mss [] ∙ omega arith, refl)
take_cases mss (x ∷ xs) h =
    inr (omega (arith, length-take mss (x ∷ xs)), omega (arith, length-drop mss (x ∷ xs)))

-- What is read puts the file together again.
reassemble-read_loop :
    (fuel : ℕ) (bytes : List ℕ) (mss : ℕ)
    → 0 < mss
    → length bytes ≤ fuel
    → reassemble (read_loop fuel bytes mss) ≡ bytes
unfolding reassemble
reassemble-read_loop zero bytes mss h f = unfold read_loop in sym (length_zero bytes (omega arith))
reassemble-read_loop (suc fuel) bytes mss h f = elim (take_cases mss bytes h) [
  | inl (e, nil) ↦ rw (read_loop_done (suc fuel) bytes mss e) (sym nil)
  | inr (e, less) ↦
      rw
        (
          read_loop_more fuel bytes mss h e,
          reassemble-read_loop fuel (drop mss bytes) mss h (omega arith),
        )
        (take-append-drop mss bytes)
]

-- Each chunk holds a byte at least, and `mss` bytes at most.
abbrev pub IsChunk : ℕ → List ℕ → Type 0
IsChunk mss part = (0 < length part) × (length part ≤ mss)

read_loop-IsChunk :
    (fuel : ℕ) (bytes : List ℕ) (mss : ℕ) → 0 < mss → All (IsChunk mss) (read_loop fuel bytes mss)
read_loop-IsChunk zero bytes mss h = unfold read_loop in tt
read_loop-IsChunk (suc fuel) bytes mss h = elim (take_cases mss bytes h) [
  | inl (e, nil) ↦ rw (read_loop_done (suc fuel) bytes mss e) tt
  | inr (e, less) ↦
      rw (read_loop_more fuel bytes mss h e)
        (omega (arith, length-take mss bytes), read_loop-IsChunk fuel (drop mss bytes) mss h)
]

drop-drop : (a b : ℕ) (xs : List ℕ) → drop b (drop a xs) ≡ drop (a + b) xs
drop-drop zero b xs = rw zero-add
drop-drop (suc a) zero [] = rw suc-add
drop-drop (suc a) (suc b) [] = rw suc-add
drop-drop (suc a) b (x ∷ xs) = rw suc-add (drop-drop a b xs)

slice_at :
    (bytes : List ℕ) (start mss : ℕ) → slice bytes start (start + mss) ≡ take mss (drop start bytes)
slice_at bytes start mss = rw add-sub_cancel_left

chunks_from : List ℕ → ℕ → ℕ → ℕ → List (List ℕ)
chunks_from bytes mss fuel start =
    map (λ s. slice bytes s (s + mss)) (range fuel start (length bytes) mss)

more_left :
    (start : ℕ) (bytes : List ℕ) (mss : ℕ)
    → 0 < mss
    → (length (take mss (drop start bytes)) ≡ 0) ↔ (length bytes ≤ start)
more_left start bytes mss h = (
  λ e. omega (arith, length-take mss (drop start bytes), length-drop start bytes),
  λ e. omega (arith, length-take mss (drop start bytes), length-drop start bytes),
)

range_more :
    (fuel start stop step : ℕ)
    → start < stop
    → range (suc fuel) start stop step ≡ start ∷ range fuel (start + step) stop step
unfolding range
range_more fuel start stop step h = ground arith

range_done : (fuel start stop step : ℕ) → stop ≤ start → range fuel start stop step ≡ []
unfolding range
range_done zero start stop step h = refl
range_done (suc fuel) start stop step h = ground arith

-- The slices of `chunk` are the reads of `read_file_chunks`.
chunks_from-read_loop :
    (fuel start : ℕ) (bytes : List ℕ) (mss : ℕ)
    → 0 < mss
    → chunks_from bytes mss fuel start ≡ read_loop fuel (drop start bytes) mss
unfolding chunks_from
chunks_from-read_loop zero start bytes mss h = unfold range read_loop in refl
chunks_from-read_loop (suc fuel) start bytes mss h = elim (dec_lt start (length bytes)) [
  | yes more ↦
      rw
        (
          range_more fuel start (length bytes) mss more,
          read_loop_more fuel (drop start bytes) mss h
              (λ e. omega (arith, (more_left start bytes mss h).0 e)),
          slice_at bytes start mss,
          drop-drop start mss bytes,
        )
        (ap (λ cs. take mss (drop start bytes) ∷ cs)
          (chunks_from-read_loop fuel (start + mss) bytes mss h))
  | no done ↦ rw (
    range_done (suc fuel) start (length bytes) mss (omega arith),
    read_loop_done (suc fuel) (drop start bytes) mss
        ((more_left start bytes mss h).1 (omega arith)),
  )
]

-- `chunk` on a whole file and `read_file_chunks` give the same chunks, or the same error.
pub read_file_chunks-eq-chunk :
    (file : List ℕ) (mss : ℕ) → read_file_chunks file mss ≡ chunk file mss
unfolding read_file_chunks chunk chunks_from
read_file_chunks-eq-chunk file zero = refl
read_file_chunks-eq-chunk file (suc m) =
    ground (arith, chunks_from-read_loop (length file) 0 file (suc m) (omega arith))

-- For a positive `mss`, `chunk` succeeds; every chunk has between 1 and `mss` bytes, and joining the
-- chunks gives the data back.
pub chunk_lem :
    (bytes : List ℕ) (mss : ℕ)
    → 0 < mss
    → (parts : List (List ℕ)) × (chunk bytes mss ≡ ok parts)
      × (reassemble parts ≡ bytes)
      × All (IsChunk mss) parts
chunk_lem bytes mss h = (
  read_loop (length bytes) bytes mss,
  rw (← read_file_chunks-eq-chunk) (unfold read_file_chunks in ground arith),
  reassemble-read_loop (length bytes) bytes mss h (omega arith),
  read_loop-IsChunk (length bytes) bytes mss h,
)

-- Writing the chunks to a file appends their concatenation.
reassemble_file-reassemble :
    (written : List ℕ) (parts : List (List ℕ))
    → reassemble_file written parts ≡ written ++ reassemble parts
unfolding reassemble_file reassemble
reassemble_file-reassemble written [] = sym (append-nil written)
reassemble_file-reassemble written (part ∷ parts) =
    reassemble_file-reassemble (written ++ part) parts
    ∙ append_assoc written part (reassemble parts)

-- A file that is read in chunks and written from them is the same file.
pub reassemble_file-read_file_chunks :
    (file : List ℕ) (mss : ℕ) (parts : List (List ℕ))
    → read_file_chunks file mss ≡ ok parts
    → reassemble_file [] parts ≡ file
unfolding read_file_chunks
reassemble_file-read_file_chunks file zero parts e = cc
reassemble_file-read_file_chunks file (suc m) parts e =
    rw (reassemble_file-reassemble [] parts)
      (ground (arith, reassemble-read_loop (length file) file (suc m) (omega arith) (omega arith)))
