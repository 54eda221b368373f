-- ===== src/Tests/Window.antt =====
-- Go-Back-N at concrete inputs.
use udp_arq_lab.Prelude.{
  ◌==◌, if◌then◌else◌, ℕ, ◌+◌, ◌<◌, ◌≤◌, ◌≡◌, ◌⊎◌, refl, Bool, true, false, none, some, List, [],
  ◌∷◌, arith,
}
use udp_arq_lab.Prelude.Dict.{nat_eq_inst, get, get_or}
use udp_arq_lab.Wire.{header_of}
use udp_arq_lab.GoBackN.State.{Sender, Receiver}
use udp_arq_lab.GoBackN.Receiver.{on_data}
use udp_arq_lab.GoBackN.Receiver.Prefix.{Data, feed, Grows, feed-Grows}
use udp_arq_lab.GoBackN.Receiver.Lost.{on_data_lost}
use udp_arq_lab.GoBackN.Ack.{handle_ack}
use udp_arq_lab.GoBackN.Ack.Cumulative.{Acked, handle_ack_lem}
use mathlib.Core.Logic.{◌≢◌, inl}
use udp_arq_lab.GoBackN.State.{GoBackN}
use udp_arq_lab.GoBackN.Calls.{close}
use udp_arq_lab.GoBackN.Calls.Closing.{close-flush}
use udp_arq_lab.Prelude.Result.{ok, err}
use udp_arq_lab.GoBackN.Calls.{enqueue, items_of, seen, seen_errors, flush}
use udp_arq_lab.GoBackN.Calls.Flush.{QuietLook, flush_lem, flush_misses_queued}
use udp_arq_lab.Checksum.{verify}
use udp_arq_lab.Channel.Corrupt.{flip_bit}
use udp_arq_lab.Channel.Detection.{verify-flip_bit}
use udp_arq_lab.GoBackN.Receiver.Arrivals.{
  Datagram, hear, damaged, is_ack, is_data, Heard, hear-Heard,
}
use udp_arq_lab.GoBackN.Loop.{Event, send, receive_call, close_call, background, run, start}
use udp_arq_lab.GoBackN.Window.Turns.{Fits, run-IsWindowed}
use udp_arq_lab.Tests.{units}
use udp_arq_lab.Tests.Codec.{
  hi, hi_packet, hi_built, next_packet, next_built, next_verified, ack_bytes, ack_built,
}
use udp_arq_lab.Sliding.{Config, Link, Failure, failed, at, values, errors_of, item_errors}
use udp_arq_lab.Sliding.{Item}
use udp_arq_lab.Wire.Sound.{data_packet-Carries}
use udp_arq_lab.GoBackN.Pump.{pump_peer}
use udp_arq_lab.GoBackN.Calls.Silent.{failed_send-flush}

abbrev pub always : ℕ → Bool
always n = true

-- Message `n` is the byte `n` alone.
abbrev pub message : ℕ → List ℕ
message n = n ∷ []

abbrev data_of : ℕ → ℕ → Data ℕ
data_of addr n = record { from = addr; header = header_of n 0 1 1; payload = message n }

-- Numbers 0, 2, 1, 1, 2 of the peer 7, and number 0 of the peer 8 between them.
abbrev arrivals : List (Data ℕ)
arrivals = data_of 7 0 ∷ data_of 7 2 ∷ data_of 8 0 ∷ data_of 7 1 ∷ data_of 7 1 ∷ data_of 7 2 ∷ []

abbrev receiver : Receiver ℕ
receiver = record { expected = []; incoming = [] }

abbrev link : Link ℕ
link = record { sends = 0; wire = [] }

none_expected : (a : ℕ) → get_or {K = ℕ} {V = ℕ} [] a 0 + 6 < 0x1_0000_0000
unfolding get_or get
none_expected a = omega arith

feed-Grows_example :
    ((feed always receiver link arrivals).died ≡ none)
    × Grows message 7 receiver (feed always receiver link arrivals).receiver
feed-Grows_example =
    feed-Grows always message 7 arrivals receiver link (λ n. refl) none_expected
      ((λ h. refl), ((λ h. refl), ((λ h. refl), ((λ h. refl), ((λ h. refl), ((λ h. refl), tt))))))

first_expected : 0 ≡ get_or {K = ℕ} {V = ℕ} [] 7 0
unfolding get_or get
first_expected = refl

on_data_lost_example :
    ((on_data (λ n. false) receiver link 7 (header_of 0 0 1 1) (message 0)).receiver.incoming ≡ [])
    × (get_or
          (on_data (λ n. false) receiver link 7 (header_of 0 0 1 1) (message 0)).receiver.expected
          7
          0
        ≡ 1)
    × ((on_data
          (λ n. false)
          (on_data (λ n. false) receiver link 7 (header_of 0 0 1 1) (message 0)).receiver
          link
          7
          (header_of 0 0 1 1)
          (message 0)).receiver
        ≡ (on_data (λ n. false) receiver link 7 (header_of 0 0 1 1) (message 0)).receiver)
on_data_lost_example =
    on_data_lost (λ n. false) receiver link link (data_of 7 0) first_expected (omega arith) refl

abbrev pub config : Config ℕ
config = record { mss = 1024; timeout = 5000; window_size = 2; adaptive = true }

-- Numbers 3, 4 and 5 are out to the peer 7, and 6 is assigned next.
abbrev sender : Sender ℕ ℕ
sender = record {
  base = (7, 3) ∷ [];
  next_seq = (7, 6) ∷ [];
  outstanding = (7, (3, message 3) ∷ (4, message 4) ∷ (5, message 5) ∷ []) ∷ [];
  sent_items = [];
  pending = [];
  timer_deadline = (7, some 900) ∷ [];
  retries = [];
  peer_errors = [];
  rto = [];
  send_time = [];
  retransmitted = [];
  outbound = [];
}

base_of_sender : get sender.base 7 ≡ some 3
unfolding get
base_of_sender = refl

handle_ack_lem_example :
    ((3 < 5)
      × (5 ≤ get_or sender.next_seq 7 3)
      × Acked config sender 7 5 (get_or sender.next_seq 7 3) 800 (handle_ack config sender 7 5 800))
    ⊎ (((5 ≤ 3) ⊎ (get_or sender.next_seq 7 3 < 5)) × (handle_ack config sender 7 5 800 ≡ sender))
handle_ack_lem_example = handle_ack_lem config sender 7 3 5 800 base_of_sender

abbrev events : List (Event ℕ ℕ)
events =
    send hi 7
    ∷ send hi 7
    ∷ send hi 7
    ∷ background
        (record { pumped_at = 10; timers_at = 11; got_at = 12; arrival = some (hi_packet, 9) })
    ∷ receive_call
    ∷ background (record { pumped_at = 9000; timers_at = 9001; got_at = 9002; arrival = none })
    ∷ close_call
    ∷ []

run-IsWindowed_example : Fits (run always (start config) events)
run-IsWindowed_example = run-IsWindowed always config events

-- Nothing is out to the peer 8 of `sender`.
nothing_pending : at sender.pending 8 ≡ []
unfolding get_or get
nothing_pending = refl

nothing_sent : at sender.sent_items 8 ≡ []
unfolding get_or get
nothing_sent = refl

flush_misses_queued_example :
    flush {T = ℕ} (λ addrs. addrs) ((enqueue sender hi 8, 100) ∷ []) (some 8) 600000 ≡ some (ok tt)
flush_misses_queued_example =
    flush_misses_queued (λ addrs. addrs) sender hi 8 100 600000 [] nothing_pending nothing_sent

quiet_flush : flush {T = ℕ} (λ addrs. addrs) ((sender, 100) ∷ []) (some 8) 600000 ≡ some (ok tt)
unfolding flush seen_errors seen errors_of items_of item_errors values get_or get
quiet_flush = refl

flush_lem_example : QuietLook (λ addrs. addrs) ((sender, 100) ∷ []) 8
flush_lem_example = flush_lem (λ addrs. addrs) ((sender, 100) ∷ []) 8 600000 quiet_flush

-- The messages of every peer: "hi", and then "!".
abbrev pub said : ℕ → ℕ → List ℕ
said addr n = if n == 0 then hi else 33 ∷ []

abbrev datagrams : List (Datagram ℕ ℕ)
datagrams =
    record { raw = hi_packet; from = 7; got_at = 10 }
    ∷ record { raw = flip_bit next_packet 4 2; from = 7; got_at = 11 }
    ∷ record { raw = ack_bytes; from = 8; got_at = 12 }
    ∷ record { raw = hi_packet; from = 7; got_at = 13 }
    ∷ record { raw = next_packet; from = 7; got_at = 14 }
    ∷ []

pub next_damaged : verify (flip_bit next_packet 4 2) ≡ false
next_damaged =
    verify-flip_bit next_packet 4 2 (ground arith) (omega arith) (omega arith) next_verified

far_below : (a : ℕ) → get_or (start {T = ℕ} config).receiver.expected a 0 + 5 < 0x1_0000_0000
unfolding start get_or get
far_below a = omega arith

still_alive : (start {T = ℕ} {A = ℕ} config).died ≡ none
unfolding start
still_alive = refl

hear-Heard_example : Heard said 0 (start config) (hear always (start config) datagrams)
hear-Heard_example =
    hear-Heard said always (start config) datagrams (λ k. refl) still_alive far_below
      (
        is_data 0 hi_built,
        (
          damaged next_damaged,
          (is_ack 1 ack_built, (is_data 0 hi_built, (is_data 1 next_built, tt))),
        ),
      )

-- Number 6 waits for room in the window.
abbrev waiting : GoBackN ℕ ℕ
waiting = record (start config) {
  sender = record sender {
    pending = (7, (6, record { addr = 7; seq = 6; bytes = hi; error = none }) ∷ []) ∷ [];
  };
}

waiting_open : waiting.stopped ≡ false
unfolding start
waiting_open = refl

something_pending : at waiting.sender.pending 7 ≢ []
unfolding get_or get
something_pending h = cc

close-flush_example :
    (x : Failure) × (flush {T = ℕ}
        (λ addrs. addrs)
        (((close waiting).sender, 100) ∷ [])
        (some 7)
        600000
      ≡ some (err (failed x)))
close-flush_example =
    close-flush (λ addrs. addrs) waiting 7 100 600000 [] waiting_open (inl something_pending)

-- Number 6 alone waits for the peer 8, and the channel raises.
abbrev refused_item : Item ℕ
refused_item = record { addr = 8; seq = 6; bytes = hi; error = none }

abbrev about_to_fail : Sender ℕ ℕ
about_to_fail = record sender { base = (8, 6) ∷ []; pending = (8, (6, refused_item) ∷ []) ∷ [] }

failing :
    (at about_to_fail.pending 8 ≡ (6, refused_item) ∷ [])
    × (at about_to_fail.sent_items 8 ≡ [])
    × (6 < get_or about_to_fail.base 8 0 + config.window_size)
    × (get about_to_fail.peer_errors 8 ≡ none)
unfolding get_or get
failing = (refl, refl, omega arith, refl)

failed_send-flush_example :
    ((pump_peer (λ n. false) config 801 1 about_to_fail link 8).link.wire ≡ [])
    × (flush {T = ℕ}
          (λ addrs. addrs)
          (((pump_peer (λ n. false) config 801 1 about_to_fail link 8).sender, 802) ∷ [])
          (some 8)
          600000
        ≡ some (ok tt))
failed_send-flush_example =
    let (packet, built, carries) = data_packet-Carries 6 hi (omega arith) (omega arith) in
    failed_send-flush (λ n. false) config 801 about_to_fail link 8 6 refused_item failing.0
      failing.1 failing.2 packet built refl (λ addrs. addrs) 802 600000 [] failing.3
