-- ===== src/FileLayer/Digest.antt =====
-- Hashing a file piece by piece gives the hash of the whole.
use mathlib.Core.Logic.{◌≢◌, inl, inr}
use udp_arq_lab.Prelude.{
  ℕ, zero, suc, ◌≤◌, ◌<◌, ◌≡◌, refl, ap, ◌∙◌, sym, Bool, List, length, take, drop, arith,
  take-append-drop,
}
use udp_arq_lab.Prelude.Result.{ok}
use udp_arq_lab.FileLayer.{Sha256, sha256_hex, digest_loop, sha256_file, files_match}
use udp_arq_lab.FileLayer.Whole.{length_zero, take_cases}

module _ {H D : Type 0} (sha : Sha256 H D) where
  digest_more :
      (fuel : ℕ) (h : H) (bytes : List ℕ) (size : ℕ)
      → length (take size bytes) ≢ 0
      → digest_loop sha (suc fuel) h bytes size
        ≡ digest_loop sha fuel (sha.update h (take size bytes)) (drop size bytes) size
  unfolding digest_loop
  digest_more fuel h bytes size e = ground arith

  digest_done :
      (fuel : ℕ) (h : H) (bytes : List ℕ) (size : ℕ)
      → length (take size bytes) ≡ 0
      → digest_loop sha fuel h bytes size ≡ h
  unfolding digest_loop
  digest_done zero h bytes size e = refl
  digest_done (suc fuel) h bytes size e = ground arith

  digest_loop-update :
      (fuel : ℕ) (h : H) (bytes : List ℕ) (size : ℕ)
      → 0 < size
      → length bytes ≤ fuel
      → digest_loop sha fuel h bytes size ≡ sha.update h bytes
  digest_loop-update zero h bytes size p f =
      rw (length_zero bytes (omega arith)) (unfold digest_loop in sym (sha.update_nil h))
  digest_loop-update (suc fuel) h bytes size p f = elim (take_cases size bytes p) [
    | inl (e, nil) ↦ digest_done (suc fuel) h bytes size e ∙ rw nil (sym (sha.update_nil h))
    | inr (e, less) ↦
        digest_more fuel h bytes size e
        ∙ digest_loop-update fuel (sha.update h (take size bytes)) (drop size bytes) size p
            (omega arith)
        ∙ sha.update_update h (take size bytes) (drop size bytes)
        ∙ ap (sha.update h) (take-append-drop size bytes)
  ]

  -- For an incremental digest, and whatever the positive chunk size, `sha256_file` is `sha256_hex` of the file's bytes.
  pub sha256_file-eq-sha256_hex :
      (file : List ℕ) (chunk_size : ℕ)
      → 0 < chunk_size
      → sha256_file sha file chunk_size ≡ ok (sha256_hex sha file)
  unfolding sha256_file sha256_hex
  sha256_file-eq-sha256_hex file chunk_size h =
      ground (arith, digest_loop-update (length file) sha.initial file chunk_size h (omega arith))

  -- `files_match` compares the SHA-256 of the two files' bytes, and raises nothing.
  pub files_match_lem :
      (same : D → D → Bool) (source destination : List ℕ)
      → files_match sha same source destination
        ≡ ok (same (sha256_hex sha source) (sha256_hex sha destination))
  unfolding files_match
  files_match_lem same source destination = rw (
    sha256_file-eq-sha256_hex source 0x10_0000 (omega arith),
    sha256_file-eq-sha256_hex destination 0x10_0000 (omega arith),
  )
