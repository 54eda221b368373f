-- ===== src/Tests/Transfer.antt =====
-- A transfer between two selective-repeat transports, on a channel that is not kind.
use mathlib.Core.Logic.{inl, inr}
use udp_arq_lab.Prelude.{ℕ, ◌≡◌, refl, none, some, List, [], ◌∷◌, arith}
use udp_arq_lab.Channel.Corrupt.{flip_bit}
use udp_arq_lab.Heapq.{before, heappush}
use udp_arq_lab.Prelude.Dict.{nat_eq_inst, pair_beq, get_or, has, remove, set_default}
use udp_arq_lab.Sliding.{channel_send, adjust, min_key, keys}
use udp_arq_lab.SelectiveRepeat.State.{rto_value}
use udp_arq_lab.SelectiveRepeat.Receiver.{
  take_ready, ack_number, buffered, arrange, deliver, acknowledge, on_data,
}
use udp_arq_lab.SelectiveRepeat.Ack.{account, take_out, advance, ack_one, ack_from, handle_ack}
use udp_arq_lab.SelectiveRepeat.Pump.{
  enter_pending, drain, drain_outbound, enter_window, after_send, pump_one, take_item, next_item,
  pump_peer, pump_all,
}
use udp_arq_lab.SelectiveRepeat.Timeouts.{
  group_due, expire, timeout_all, handle_timeouts, next_wait_time,
}
use udp_arq_lab.SelectiveRepeat.Calls.{enqueue, sendto, received}
use udp_arq_lab.SelectiveRepeat.Loop.{
  dispatch, handle_incoming, after_drain, after_pump, after_timers, unless_dead, receive, turn,
  start,
}
use udp_arq_lab.SelectiveRepeat.Transfer.{
  move, play, Move, sends, turns, hears, opened, IsSettled, AllAllowed,
}
use udp_arq_lab.TimerHeap.{schedule, cancel, is_current, drop_stale, nearest, pop_loop, pop_due}
use udp_arq_lab.Rto.{new}
use udp_arq_lab.Wire.{encode_with_checksum, build, data_packet, ack_packet}
use udp_arq_lab.Packet.{validate, make, pack, encode, unpack, check_fields, decode}
use udp_arq_lab.Checksum.{pad, sum_words, fold_carry, checksum, verify}
use udp_arq_lab.StopAndWait.{parse}
use udp_arq_lab.GoBackN.Receiver.Prefix.{payloads_of, messages}
use udp_arq_lab.SelectiveRepeat.Transfer.Delivery.{transfer_delivers}
use udp_arq_lab.Tests.{units}
use udp_arq_lab.Tests.Codec.{hi, hi_packet, hi_built, next_packet, next_built, ack_bytes}
use udp_arq_lab.Tests.Window.{always, said, config, next_damaged}

-- The ACK of number 1
abbrev second_ack : List ℕ
second_ack = 88 ∷ 162 ∷ 0 ∷ 0 ∷ 0 ∷ 0 ∷ 0 ∷ 0 ∷ 0 ∷ 2 ∷ 2 ∷ 1 ∷ 0 ∷ 0 ∷ 165 ∷ 90 ∷ []

-- Two calls of `sendto`; the packets are damaged, swapped and repeated, and an ACK is.
abbrev moves : List (Move ℕ ℕ)
moves =
    sends hi 8
    ∷ sends (33 ∷ []) 8
    ∷ turns (record { pumped_at = 10; timers_at = 11; got_at = 12; arrival = none })
    ∷ hears (record { raw = flip_bit next_packet 4 2; from = 7; got_at = 13 })
    ∷ hears (record { raw = next_packet; from = 7; got_at = 14 })
    ∷ hears (record { raw = hi_packet; from = 7; got_at = 15 })
    ∷ hears (record { raw = next_packet; from = 7; got_at = 16 })
    ∷ turns (record { pumped_at = 20; timers_at = 21; got_at = 22; arrival = some (second_ack, 8) })
    ∷ turns (record { pumped_at = 23; timers_at = 24; got_at = 25; arrival = some (ack_bytes, 8) })
    ∷ turns (record { pumped_at = 26; timers_at = 27; got_at = 28; arrival = some (second_ack, 8) })
    ∷ []

-- The channel is allowed to do so, and behind it all nothing is left over.
moves_lem :
    AllAllowed said 2 7 8 always (opened config config) moves
    × IsSettled 8 (play always (opened config config) moves).near.sender
    × (get_or (play always (opened config config) moves).near.sender.next_seq 8 0 ≡ 2)
unfolding pair_beq get_or has remove set_default channel_send adjust min_key keys rto_value
    take_ready ack_number buffered arrange deliver acknowledge on_data account take_out advance
    ack_one ack_from handle_ack enter_pending drain drain_outbound enter_window after_send pump_one
    take_item next_item pump_peer pump_all group_due expire timeout_all handle_timeouts
    next_wait_time enqueue sendto received dispatch handle_incoming after_drain after_pump
    after_timers unless_dead receive turn start move play schedule cancel is_current drop_stale
    nearest pop_loop pop_due new encode_with_checksum build data_packet ack_packet validate make
    pack encode unpack check_fields decode pad sum_words fold_carry checksum verify parse before
    heappush flip_bit
moves_lem = (
  (
    λ o s. (refl, (refl, omega arith, hi_packet, hi_built)),
    (
      λ o s. (refl, (refl, omega arith, next_packet, next_built)),
      (
        tt,
        (
          ((λ t. inl next_damaged), λ n. absurd (ground arith)),
          (
            ((λ t. inr (inr (inl (refl, refl)))), λ n. absurd (ground arith)),
            (
              ((λ t. inr (inl (refl, refl))), λ n. absurd (ground arith)),
              (
                ((λ t. inr (inr (inl (refl, refl)))), λ n. absurd (ground arith)),
                (
                  λ t. inr (inl (refl, refl)),
                  (λ t. inr (inr (inl (refl, refl))), (λ t. inr (inl (refl, refl)), tt)),
                ),
              ),
            ),
          ),
        ),
      ),
    ),
  ),
  record { queue = tt; pending = refl; outstanding = refl; healthy = refl },
  refl,
)

transfer_delivers_example :
    payloads_of 7 (play always (opened config config) moves).far.receiver.incoming
    ≡ messages (said 7) 0 2
transfer_delivers_example =
    transfer_delivers said 2 7 8 always (λ n. refl) (omega arith) config config moves moves_lem.0
      moves_lem.1 moves_lem.2
