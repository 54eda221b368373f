-- ===== src/Tests/Wires.antt =====
-- The channel at concrete inputs.
use udp_arq_lab.Prelude.{ℕ, ◌≡◌, refl, Bool, true, false, List, [], ◌∷◌, ◌++◌, arith}
use udp_arq_lab.Prelude.Result.{Result, ok, err}
use udp_arq_lab.Channel
use udp_arq_lab.Channel.{Config, Channel, Event, sends, rounds, closes, run, worker, close}
use udp_arq_lab.Channel.Counters.{Counted, run-Counted, sendto_draws}
use udp_arq_lab.Channel.Integrity.{IsGenuine, run-IsGenuine}
use udp_arq_lab.Channel.Drain.{Drained, refusals, close_drains}
use udp_arq_lab.Tests.{units, draws}
use udp_arq_lab.Tests.Codec.{hi_packet, hi_bytes, hi_verified}

-- Every impairment is on.
abbrev settings : Config ℕ
settings = record {
  loss = 2000;
  delay = 100;
  jitter = 50;
  duplication = 5000;
  reorder = 300;
  corruption = 5000;
}

abbrev fresh : Channel ℕ ℕ ℕ
fresh = record {
  config = settings;
  rng = 1;
  heap = [];
  tiebreak = 0;
  closed = false;
  sent = 0;
  dropped = 0;
  delivered = 0;
  wire = [];
}

-- One packet twice on its way, to the peer 7.
abbrev busy : Channel ℕ ℕ ℕ
busy = record fresh {
  heap =
      record { at = 20; tiebreak = 0; item = (hi_packet, 7) }
      ∷ record { at = 30; tiebreak = 1; item = (hi_packet, 7) }
      ∷ [];
  sent = 1;
}

abbrev traffic : List (Event ℕ ℕ)
traffic =
    sends 10 hi_packet 7
    ∷ rounds 15 true
    ∷ sends 20 hi_packet 7
    ∷ rounds 900 true
    ∷ closes
    ∷ rounds 950 false
    ∷ []

-- The callers send the one packet.
abbrev IsHi : List ℕ → ℕ → Type 0
IsHi packet addr = packet ≡ hi_packet

fresh-IsGenuine : IsGenuine IsHi fresh
fresh-IsGenuine = record { queued = tt; delivered = tt }

run-IsGenuine_example : IsGenuine IsHi (run draws fresh traffic)
run-IsGenuine_example =
    run-IsGenuine draws IsHi traffic fresh
      ((hi_bytes, hi_verified, refl), (tt, ((hi_bytes, hi_verified, refl), (tt, (tt, (tt, tt))))))
      fresh-IsGenuine

fresh-Counted : Counted fresh
fresh-Counted = record {
  at_least = omega arith;
  at_most = omega arith;
  on_way = omega arith;
  on_wire = refl;
}

run-Counted_example : Counted (run draws fresh traffic)
run-Counted_example = run-Counted draws traffic fresh fresh-Counted

abbrev after_send : Channel ℕ ℕ ℕ → Result Channel.ChannelError (Channel ℕ ℕ ℕ) → Channel ℕ ℕ ℕ
after_send ch (ok c) = c
after_send ch (err e) = ch

abbrev one_sent : Channel ℕ ℕ ℕ
one_sent = after_send fresh (Channel.sendto draws fresh 10 hi_packet 7)

one_sent_lem : Channel.sendto draws fresh 10 hi_packet 7 ≡ ok one_sent
unfolding Channel.sendto
one_sent_lem = refl

sendto_draws_example : one_sent.rng ≡ (draws (draws (draws (draws (draws fresh.rng).1).1).1).1).1
sendto_draws_example = sendto_draws draws fresh one_sent 10 hi_packet 7 one_sent_lem

-- The first round comes too early, the next for one of the two; the socket refuses the first.
abbrev early : List (ℕ × Bool)
early = (10, true) ∷ (25, false) ∷ []

abbrev late : List (ℕ × Bool)
late = (100, true) ∷ (200, true) ∷ (300, true) ∷ []

close_drains_example :
    ((worker (close busy) (early ++ late)).1 ≡ true)
    × Drained busy busy.heap (refusals (early ++ late)) (worker (close busy) (early ++ late)).0
close_drains_example =
    close_drains busy early late (omega arith)
      ((refl, (refl, tt)), ((refl, (refl, tt)), ((refl, (refl, tt)), tt)))
