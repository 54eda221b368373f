-- ===== src/Tests/Files.antt =====
-- Chunking and digests at concrete inputs.
use udp_arq_lab.Prelude.{
  ℕ, ◌≡◌, refl, List, [], ◌∷◌, ◌++◌, ◌==◌, length, All, arith, append-nil, append_assoc,
}
use udp_arq_lab.Prelude.Result.{ok}
use udp_arq_lab.FileLayer.{
  chunk, reassemble, read_loop, read_file_chunks, reassemble_file, Sha256, sha256_hex, sha256_file,
  files_match,
}
use udp_arq_lab.FileLayer.Whole.{
  IsChunk, chunk_lem, read_file_chunks-eq-chunk, reassemble_file-read_file_chunks,
}
use udp_arq_lab.FileLayer.Digest.{sha256_file-eq-sha256_hex, files_match_lem}

abbrev file : List ℕ
file = 1 ∷ 2 ∷ 3 ∷ 4 ∷ 5 ∷ []

abbrev parts : List (List ℕ)
parts = (1 ∷ 2 ∷ []) ∷ (3 ∷ 4 ∷ []) ∷ (5 ∷ []) ∷ []

read_parts : read_file_chunks file 2 ≡ ok parts
unfolding read_file_chunks read_loop
read_parts = refl

-- A stand-in for the digest: the bytes themselves, and their number.
abbrev count_bytes : Sha256 (List ℕ) ℕ
count_bytes = record {
  initial = [];
  update = λ h a. h ++ a;
  hexdigest = λ h. length h;
  update_nil = λ h. append-nil h;
  update_update = λ h a b. append_assoc h a b;
}

chunk_lem_example :
    (cs : List (List ℕ)) × (chunk file 2 ≡ ok cs) × (reassemble cs ≡ file) × All (IsChunk 2) cs
chunk_lem_example = chunk_lem file 2 (omega arith)

read_file_chunks-eq-chunk_example : read_file_chunks file 2 ≡ chunk file 2
read_file_chunks-eq-chunk_example = read_file_chunks-eq-chunk file 2

reassemble_file-read_file_chunks_example : reassemble_file [] parts ≡ file
reassemble_file-read_file_chunks_example = reassemble_file-read_file_chunks file 2 parts read_parts

sha256_file-eq-sha256_hex_example :
    sha256_file count_bytes file 2 ≡ ok (sha256_hex count_bytes file)
sha256_file-eq-sha256_hex_example = sha256_file-eq-sha256_hex count_bytes file 2 (omega arith)

files_match_lem_example :
    files_match count_bytes (λ a b. a == b) file (5 ∷ [])
    ≡ ok (sha256_hex count_bytes file == sha256_hex count_bytes (5 ∷ []))
files_match_lem_example = files_match_lem count_bytes (λ a b. a == b) file (5 ∷ [])
