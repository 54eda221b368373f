-- ===== src/Tests/Selective.antt =====
-- Selective repeat at concrete inputs.
use udp_arq_lab.Prelude.{
  ℕ, zero, suc, ◌+◌, ◌≤◌, ◌<◌, ◌≡◌, refl, true, none, some, List, [], ◌∷◌, ◌++◌, arith, length,
}
use mathlib.Core.Logic.{inl, inr}
use udp_arq_lab.Prelude.Dict.{nat_eq_inst, get, get_or, has}
use udp_arq_lab.Channel.Corrupt.{flip_bit}
use udp_arq_lab.TimerHeap.{empty}
use udp_arq_lab.Sliding.{Link, Item, at}
use udp_arq_lab.GoBackN.Receiver.Prefix.{payloads_of, messages}
use udp_arq_lab.GoBackN.Receiver.Arrivals.{Datagram}
use udp_arq_lab.SelectiveRepeat.State.{Sender}
use udp_arq_lab.SelectiveRepeat.Ack.{handle_ack}
use udp_arq_lab.SelectiveRepeat.Ack.Individual.{AckEffect, handle_ack-AckEffect}
use udp_arq_lab.SelectiveRepeat.Pump.{pump_peer}
use udp_arq_lab.SelectiveRepeat.Overrun.{IsAssigned, ack_overruns}
use udp_arq_lab.SelectiveRepeat.Receiver.Peers.{IsOrderly}
use udp_arq_lab.SelectiveRepeat.Receiver.Arrivals.{
  hear, Progresses, damaged, is_ack, is_data, hear-Progresses,
}
use udp_arq_lab.SelectiveRepeat.Receiver.Complete.{Brings, hear_completes}
use udp_arq_lab.SelectiveRepeat.Loop.{Event, send, receive_call, close_call, background, run, start}
use udp_arq_lab.SelectiveRepeat.Timed.{IsTimed}
use udp_arq_lab.SelectiveRepeat.Timed.Turns.{run-IsTimed}
use udp_arq_lab.Tests.{units, units_order}
use udp_arq_lab.Tests.Codec.{hi, hi_packet, hi_built, next_packet, next_built, ack_bytes, ack_built}
use udp_arq_lab.Tests.Window.{always, said, config, next_damaged}

-- Message 1 comes before message 0.
abbrev datagrams : List (Datagram ℕ ℕ)
datagrams =
    record { raw = next_packet; from = 7; got_at = 10 }
    ∷ record { raw = flip_bit next_packet 4 2; from = 7; got_at = 11 }
    ∷ record { raw = ack_bytes; from = 8; got_at = 12 }
    ∷ record { raw = hi_packet; from = 7; got_at = 13 }
    ∷ record { raw = next_packet; from = 7; got_at = 14 }
    ∷ []

still_alive : (start {T = ℕ} {A = ℕ} config).died ≡ none
unfolding start
still_alive = refl

start-IsOrderly : IsOrderly said (start {T = ℕ} config).receiver
unfolding start get_or get has
start-IsOrderly = record {
  genuine = λ a n p h. absurd (ground arith);
  next_missing = λ a. refl;
  below = λ a. record { expected_le = omega arith; buffer_lt = λ n h. absurd (ground arith) };
}

hear-Progresses_example : Progresses said (start config) (hear always (start config) datagrams)
hear-Progresses_example =
    hear-Progresses said always (λ k. refl) (start config) datagrams still_alive start-IsOrderly
      (
        is_data 1 (omega arith) next_built,
        (
          damaged next_damaged,
          (
            is_ack 1 ack_built,
            (is_data 0 (omega arith) hi_built, (is_data 1 (omega arith) next_built, tt)),
          ),
        ),
      )

first_two :
    (n : ℕ)
    → get_or (start {T = ℕ} {A = ℕ} config).receiver.expected 7 0 ≤ n
    → n < get_or (start {T = ℕ} {A = ℕ} config).receiver.expected 7 0 + 2
    → Brings said always (λ k. refl) 7 n datagrams
unfolding start get_or get
first_two zero low high = inr (inr (inr (inl (refl, hi_built))))
first_two (suc zero) low high = inl (refl, next_built)
first_two (suc (suc n)) low high = absurd (omega (arith, high))

two_fit :
    (2 ≤ (start {T = ℕ} {A = ℕ} config).config.window_size)
    × (get_or (start {T = ℕ} {A = ℕ} config).receiver.expected 7 0 + 2 ≤ 0xffff_ffff)
unfolding start get_or get
two_fit = (omega arith, omega arith)

hear_completes_example :
    (m : ℕ) × (2 ≤ m)
    × (get_or (hear always (start {T = ℕ} config) datagrams).receiver.expected 7 0
        ≡ get_or (start {T = ℕ} {A = ℕ} config).receiver.expected 7 0 + m)
    × (payloads_of {A = ℕ} 7 (hear always (start config) datagrams).receiver.incoming
        ≡ payloads_of {A = ℕ} 7 (start {T = ℕ} config).receiver.incoming
          ++ messages (said 7) (get_or (start {T = ℕ} {A = ℕ} config).receiver.expected 7 0) m)
hear_completes_example =
    hear_completes said always (λ k. refl) (start config) datagrams 7 2 still_alive start-IsOrderly
      (
        is_data 1 (omega arith) next_built,
        (
          damaged next_damaged,
          (
            is_ack 1 ack_built,
            (is_data 0 (omega arith) hi_built, (is_data 1 (omega arith) next_built, tt)),
          ),
        ),
      )
      two_fit.0 two_fit.1 first_two

abbrev item : ℕ → Item ℕ
item n = record { addr = 7; seq = n; bytes = hi; error = none }

-- Only number 3 is out to the peer 7, and 4, 5 and 6 wait, with a window of two.
abbrev sender : Sender ℕ ℕ
sender = record {
  base = (7, 3) ∷ [];
  next_seq = (7, 7) ∷ [];
  outstanding = (7, (3, hi) ∷ []) ∷ [];
  sent_items = (7, (3, item 3) ∷ []) ∷ [];
  pending = (7, (4, item 4) ∷ (5, item 5) ∷ (6, item 6) ∷ []) ∷ [];
  timer_heap = empty;
  retries = [];
  peer_errors = [];
  rto = [];
  send_time = [];
  retransmitted = [];
  retransmissions = 0;
  outbound = [];
}

base_of_sender : get sender.base 7 ≡ some 3
unfolding get
base_of_sender = refl

handle_ack-AckEffect_example :
    AckEffect sender 7 3 (get_or sender.next_seq 7 3) 4 (handle_ack config sender 7 4 800)
handle_ack-AckEffect_example = handle_ack-AckEffect config sender 7 3 4 800 base_of_sender

abbrev link : Link ℕ
link = record { sends = 0; wire = [] }

numbers :
    (at sender.outstanding 7 ≡ (3, hi) ∷ [])
    × (3 < get_or sender.next_seq 7 3)
    × (3 ≤ get_or sender.next_seq 7 3)
    × (get_or sender.next_seq 7 3 ≤ 0x1_0000_0000)
unfolding get_or get
numbers = (refl, omega arith, omega arith, omega arith)

sender-IsAssigned : IsAssigned (get_or sender.next_seq 7 3) sender 7
unfolding get_or get
sender-IsAssigned n i h = ground arith

ack_overruns_example :
    (get (handle_ack config sender 7 (3 + 1) 800).base 7 ≡ some (get_or sender.next_seq 7 3))
    × ((n : ℕ)
        → has (at sender.pending 7) n ≡ true
        → has
            (at
              (pump_peer always config 801
                (length (at sender.pending 7))
                (handle_ack config sender 7 (3 + 1) 800)
                link
                7).sender.outstanding
              7)
            n
          ≡ true)
ack_overruns_example =
    ack_overruns always config sender link 7 3 3 hi 800 801 (λ n. refl) base_of_sender numbers.0
      numbers.1 numbers.2 numbers.3 sender-IsAssigned

abbrev events : List (Event ℕ ℕ)
events =
    send hi 7
    ∷ send hi 7
    ∷ background
        (record { pumped_at = 10; timers_at = 11; got_at = 12; arrival = some (hi_packet, 9) })
    ∷ receive_call
    ∷ background (record { pumped_at = 9000; timers_at = 9001; got_at = 9002; arrival = none })
    ∷ close_call
    ∷ []

run-IsTimed_example : IsTimed (λ a n. ⊥) (run always (start config) events).sender
run-IsTimed_example = run-IsTimed units_order always config events
