-- ===== src/Tests/StopWait.antt =====
-- Stop-and-wait at concrete inputs.
use udp_arq_lab.Prelude.{ℕ, ◌≡◌, refl, Bool, true, none, List, [], ◌∷◌, arith}
use udp_arq_lab.Prelude.Dict.{nat_eq_inst, get_or, get}
use udp_arq_lab.Prelude.Result.{ok, err}
use udp_arq_lab.Packet.{make, validate, decode, unpack, check_fields}
use udp_arq_lab.Checksum.{verify, checksum, fold_carry, sum_words, pad}
use udp_arq_lab.Sliding.{Link}
use udp_arq_lab.Rto
use udp_arq_lab.Rto.{RtoEstimator}
use udp_arq_lab.StopAndWait.{
  Sender, Attempt, datagram, acked, bad_timeout, new_estimator, parse, answer, wait_ack, is_ack,
  sendto, recv_all,
}
use udp_arq_lab.StopAndWait.Receiving.{Message, stream, recv_all-stream}
use udp_arq_lab.StopAndWait.Attempts.{Survive, backed_off}
use udp_arq_lab.StopAndWait.Sending.{
  Finished, sendto-Finished, sendto_succeeds, sendto_long_timeout,
}
use udp_arq_lab.Tests.{units}
use udp_arq_lab.Tests.Codec.{next_packet, next_built, ack_bytes, hi, hi_packet, hi_built}

abbrev always : ℕ → Bool
always n = true

abbrev link : Link ℕ
link = record { sends = 0; wire = [] }

-- The first packet arrives three times, the second twice.
abbrev two_messages : List Message
two_messages =
    record { payload = hi; raw = hi_packet; extra = 2 }
    ∷ record { payload = 33 ∷ []; raw = next_packet; extra = 1 }
    ∷ []

recv_all-stream_example :
    recv_all {A = ℕ} always 5 [] (stream 7 two_messages) link ≡ hi ∷ (33 ∷ []) ∷ []
unfolding get_or get
recv_all-stream_example =
    recv_all-stream always (λ n. refl) 5 two_messages [] 7 0 link refl (omega arith)
      (hi_built, (next_built, tt)) (omega arith)

abbrev sender : ℕ → Sender ℕ ℕ
sender timeout = record { mss = 1024; timeout = timeout; adaptive = true; rto = []; send_bit = [] }

-- A damaged ACK, and the ACK, read 7000 after the packet was sent: that is too late for the first
-- attempt, whose timeout is 5000, but not for the next one.
abbrev attempts_made : ℕ → Attempt ℕ ℕ
attempts_made n = record {
  sent_at = 10;
  accepted = true;
  arrivals =
      record { asked = 11; reading = datagram (0 ∷ 0 ∷ []) 7; got = 7000 }
      ∷ record { asked = 7001; reading = datagram ack_bytes 7; got = 7010 }
      ∷ [];
}

abbrev estimator : RtoEstimator ℕ
estimator = record { min_rto = 1000; max_rto = 50000; g = 500; smoothed = none; rto = 5000 }

estimator_made : new_estimator {T = ℕ} 5000 ≡ ok estimator
unfolding new_estimator Rto.new
estimator_made = refl

second_answered :
    Survive (sender 5000) 7 0 attempts_made 1 0 estimator
    × (answer (sender 5000) 7 0 attempts_made 1 (backed_off (sender 5000) 1 estimator) ≡ acked 7010)
unfolding Survive answer wait_ack is_ack parse verify checksum fold_carry sum_words pad decode
    unpack check_fields make validate Rto.on_timeout
second_answered = (((λ h. ground arith), tt), refl)

sendto-Finished_example :
    Finished (sender 5000) 7 attempts_made estimator (sendto (sender 5000) hi 7 attempts_made)
unfolding get_or get
sendto-Finished_example =
    sendto-Finished (sender 5000) hi 7 attempts_made estimator hi_packet (omega arith)
      estimator_made hi_built

sendto_succeeds_example : (sendto (sender 5000) hi 7 attempts_made).1 ≡ ok tt
unfolding get_or get
sendto_succeeds_example =
    sendto_succeeds (sender 5000) hi 7 attempts_made estimator hi_packet 1 7010 (omega arith)
      estimator_made hi_built (omega arith) second_answered.0 second_answered.1

sendto_long_timeout_example :
    sendto (sender 60000) hi 7 attempts_made ≡ (sender 60000, err bad_timeout)
sendto_long_timeout_example =
    sendto_long_timeout (sender 60000) hi 7 attempts_made (omega arith) refl
