-- ===== src/FileLayer.antt =====
-- udp_arq/file_layer.py: chunking, reassembly and hashing. A file is the list of its bytes; SHA-256
-- is a parameter, an incremental digest as `hashlib` documents it.
pub mod Whole
pub mod Digest
use udp_arq_lab.Prelude.{
  ℕ, zero, suc, ◌+◌, ◌-◌, Bool, true, false, List, [], ◌∷◌, ◌++◌, map, length, take, drop, ltb,
  ◌==◌, if◌then◌else◌, ◌≡◌,
}
use udp_arq_lab.Prelude.Result.{Result, ok, err, ◌>>=◌, ◌>>◌, require}

pub data ValueError : Type 0 where
  not_positive : ValueError

-- `mss <= 0` on a number that is not negative
abbrev pub positive : ℕ → Bool
positive n = ltb 0 n

-- `data[start:stop]`
abbrev pub slice : List ℕ → ℕ → ℕ → List ℕ
slice bytes start stop = take (stop - start) (drop start bytes)

-- `range(start, stop, step)`, on fuel; the step is positive, so `stop` rounds are enough.
unfoldable pub range : ℕ → ℕ → ℕ → ℕ → List ℕ
range zero start stop step = []
range (suc fuel) start stop step =
    let rest = range fuel (start + step) stop step in if ltb start stop then start ∷ rest else []

unfoldable pub chunk : List ℕ → ℕ → Result ValueError (List (List ℕ))
chunk bytes mss = do
  require (positive mss) not_positive
  ok (map (λ start. slice bytes start (start + mss)) (range (length bytes) 0 (length bytes) mss))

-- `b"".join(chunks)`
unfoldable pub reassemble : List (List ℕ) → List ℕ
reassemble [] = []
reassemble (part ∷ parts) = part ++ reassemble parts

-- `while True: data = file.read(mss)`, `bytes` being what is left of the file; on fuel, and a round
-- reads a byte at least.
unfoldable pub read_loop : ℕ → List ℕ → ℕ → List (List ℕ)
read_loop zero bytes mss = []
read_loop (suc fuel) bytes mss =
    let rest = take mss bytes ∷ read_loop fuel (drop mss bytes) mss in
    if length (take mss bytes) == 0 then [] else rest

unfoldable pub read_file_chunks : List ℕ → ℕ → Result ValueError (List (List ℕ))
read_file_chunks file mss = do
  require (positive mss) not_positive
  ok (read_loop (length file) file mss)

-- The file that is left on disk: each chunk is written behind the ones before.
unfoldable pub reassemble_file : List ℕ → List (List ℕ) → List ℕ
reassemble_file written [] = written
reassemble_file written (part ∷ parts) = reassemble_file (written ++ part) parts

-- `hashlib.sha256()`: `update` with no bytes changes nothing, and `update` twice is `update` with
-- the concatenation.
pub record Sha256 (H D : Type 0) : Type 0 where
  pub initial : H
  pub update : H → List ℕ → H
  pub hexdigest : H → D
  pub update_nil : (h : H) → update h [] ≡ h
  pub update_update : (h : H) (a b : List ℕ) → update (update h a) b ≡ update h (a ++ b)

module _ {H D : Type 0} (sha : Sha256 H D) where
  -- `hashlib.sha256(data).hexdigest()`
  unfoldable pub sha256_hex : List ℕ → D
  sha256_hex bytes = sha.hexdigest (sha.update sha.initial bytes)

  -- The loop of `sha256_file`.
  unfoldable pub digest_loop : ℕ → H → List ℕ → ℕ → H
  digest_loop zero h bytes size = h
  digest_loop (suc fuel) h bytes size =
      let rest = digest_loop fuel (sha.update h (take size bytes)) (drop size bytes) size in
      if length (take size bytes) == 0 then h else rest

  unfoldable pub sha256_file : List ℕ → ℕ → Result ValueError D
  sha256_file file chunk_size = do
    require (positive chunk_size) not_positive
    ok (sha.hexdigest (digest_loop (length file) sha.initial file chunk_size))

  -- DEFAULT_HASH_CHUNK_SIZE = 1024 * 1024. `same` is `==` on digests.
  unfoldable pub files_match : (D → D → Bool) → List ℕ → List ℕ → Result ValueError Bool
  files_match same source destination = do
    a ← sha256_file source 0x10_0000
    b ← sha256_file destination 0x10_0000
    ok (same a b)
