-- ===== src/Tests/Nulls.antt =====
-- The null transport at a concrete input.
use udp_arq_lab.Prelude.{ℕ, ◌≡◌, some, List, [], ◌∷◌, ◌++◌, arith}
use udp_arq_lab.Prelude.Result.{ok}
use udp_arq_lab.Null.{null_sendto, null_recvfrom}
use udp_arq_lab.Null.Delivery.{null_delivers}
use udp_arq_lab.Channel.Corrupt.{flip_bit}
use udp_arq_lab.Channel.Detection.{verify-flip_bit}
use udp_arq_lab.Tests.Codec.{hi, hi_packet, hi_bytes, hi_verified}

-- A damaged packet arrives first.
abbrev damaged : List (List ℕ × ℕ)
damaged = (flip_bit hi_packet 3 1, 9) ∷ []

null_delivers_example :
    (packet : List ℕ) × (null_sendto 1024 hi ≡ ok packet)
    × (null_recvfrom (damaged ++ (packet, 7) ∷ []) ≡ some (hi, 7, []))
null_delivers_example =
    null_delivers 1024 hi damaged [] 7 (omega arith) (omega arith)
      (verify-flip_bit hi_packet 3 1 hi_bytes (omega arith) (omega arith) hi_verified, tt)
