-- ===== src/StopAndWait.antt =====
-- udp_arq/transport/stop_and_wait.py: one datagram in flight, sequence numbers 0 and 1. What the
-- channel delivers, and when, and which of its calls raise, are arguments of each call.
pub mod Receiving
pub mod Attempts
pub mod Sending
use udp_arq_lab.Prelude.{
  ℕ, zero, suc, ◌+◌, Bool, true, false, ◌&&◌, Option, none, some, List, [], ◌∷◌, ◌++◌, length, ltb,
  leb, ◌==◌, if◌then◌else◌, bit_xor,
}
use udp_arq_lab.Prelude.Dict.{Dict, Eq, get, get_or, put, set_default}
use udp_arq_lab.Prelude.Float.{Float, max_f, min_f, le_f, zero_f}
use udp_arq_lab.Prelude.Result.{Result, ok, err, ◌>>=◌, ◌>>◌, require}
use udp_arq_lab.Packet.{Header, PacketError, decode, has_flag, flag_data, flag_ack}
use udp_arq_lab.Checksum.{verify}
use udp_arq_lab.Wire.{data_packet, ack_packet}
use udp_arq_lab.Rto
use udp_arq_lab.Rto.{RtoEstimator}
use udp_arq_lab.Sliding.{Link, channel_send}

-- MAX_RETRIES
abbrev pub max_retries : ℕ
max_retries = 1000

-- `if not verify(raw): continue`, and `decode` with its PacketError caught
unfoldable pub parse : List ℕ → Option (Header × List ℕ)
parse raw = if verify raw then (elim (decode raw) [ ok p ↦ some p | err e ↦ none ]) else none

-- `bit ^ 1`
abbrev pub flip : ℕ → ℕ
flip bit = bit_xor bit 1

-- What `recvfrom` makes of a datagram: it is ignored, or it is acknowledged, and perhaps returned.
pub data Reply (A : Type 0) : Type 0 where
  ignored : Reply A
  replied : Dict A ℕ → Result PacketError (List ℕ) → Option (List ℕ) → Reply A

module _ {A : Type 0} ⦃e : Eq A⦄ where
  unfoldable pub on_data : Dict A ℕ → A → Header → List ℕ → Reply A
  on_data recv_bit addr header payload =
      let expected = get_or recv_bit addr 0 in
      if header.seq == expected
      then replied (put recv_bit addr (flip expected)) (ack_packet (flip expected)) (some payload)
      else replied recv_bit (ack_packet expected) none

  unfoldable pub on_parsed : Dict A ℕ → A → Option (Header × List ℕ) → Reply A
  on_parsed recv_bit addr none = ignored
  on_parsed recv_bit addr (some (header, payload)) =
      if has_flag header.flags flag_data then on_data recv_bit addr header payload else ignored

  unfoldable pub on_datagram : Dict A ℕ → List ℕ × A → Reply A
  on_datagram recv_bit (raw, addr) = on_parsed recv_bit addr (parse raw)

-- What a call of the channel's `recvfrom` does before its timeout: it returns a datagram, or raises
-- another error than TimeoutError, as a closed channel does.
pub data Reading (A : Type 0) : Type 0 where
  datagram : List ℕ → A → Reading A
  broken : Reading A

-- What a call of `recvfrom` raises besides TimeoutError: the errors of the channel pass through.
pub data RecvError : Type 0 where
  bad_ack : PacketError → RecvError
  not_sent : RecvError
  not_read : RecvError

-- How a call of `recvfrom` ends, with `_recv_bit` and the ACKs that it sent; the datagrams that
-- it has not read wait for the next call.
pub data Received (A : Type 0) : Type 0 where
  timed_out : Dict A ℕ → Link A → Received A
  raised : Dict A ℕ → RecvError → Link A → Received A
  returned : List ℕ → A → Dict A ℕ → Link A → List (Reading A) → Received A

module _ {A : Type 0} ⦃e : Eq A⦄ (accepts : ℕ → Bool) where
  -- The loop of `recvfrom` over what the channel has before the timeout; `accepts n` says whether
  -- the channel's `n`-th `sendto` returns or raises.
  unfoldable pub recv_loop : Dict A ℕ → List (Reading A) → Link A → Received A
  recv_loop recv_bit [] link = timed_out recv_bit link
  recv_loop recv_bit (broken ∷ more) link = raised recv_bit not_read link
  recv_loop recv_bit (datagram raw addr ∷ more) link = elim (on_datagram recv_bit (raw, addr)) [
    | ignored ↦ recv_loop recv_bit more link
    | replied bits (err x) new ↦ raised bits (bad_ack x) link
    | replied bits (ok ack) new ↦
        let (link', went) = channel_send accepts link ack addr in
        elim went [
          | false ↦ raised bits not_sent link'
          | true ↦ elim new [
            | none ↦ recv_loop bits more link'
            | some payload ↦ returned payload addr bits link' more
          ]
        ]
  ]

  unfoldable pub recvfrom : Dict A ℕ → List (Reading A) → Link A → Received A
  recvfrom recv_bit readings link = recv_loop recv_bit readings link

  -- The payloads of an application that calls `recvfrom` again and again, at most so many times.
  unfoldable pub recv_all : ℕ → Dict A ℕ → List (Reading A) → Link A → List (List ℕ)
  recv_all zero recv_bit readings link = []
  recv_all (suc calls) recv_bit readings link = elim (recvfrom recv_bit readings link) [
    | timed_out bits link' ↦ []
    | raised bits x link' ↦ []
    | returned payload addr bits link' more ↦ payload ∷ recv_all calls bits more link'
  ]

-- A call of the channel's `recvfrom` during an attempt that returns a datagram or raises another
-- error than TimeoutError: the clock before the call, what it does, and the clock behind it.
pub record Arrival (T A : Type 0) : Type 0 where
  pub asked : T
  pub reading : Reading A
  pub got : T

-- `accepted` is whether the channel's `sendto` returns. Behind the arrivals its `recvfrom` raises
-- TimeoutError.
pub record Attempt (T A : Type 0) : Type 0 where
  pub sent_at : T
  pub accepted : Bool
  pub arrivals : List (Arrival T A)

-- `channel_error` is an error of the channel that passes through.
pub data SendError : Type 0 where
  too_long : SendError
  bad_timeout : SendError
  bad_packet : PacketError → SendError
  no_ack : SendError
  channel_error : SendError

pub record Sender (T A : Type 0) : Type 0 where
  pub mss : ℕ
  pub timeout : T
  pub adaptive : Bool
  pub rto : Dict A (RtoEstimator T)
  pub send_bit : Dict A ℕ

-- How the loop over the attempts ends.
pub data Ending : Type 0 where
  answered : Ending
  exhausted : Ending
  channel_raised : Ending

-- The estimator, the attempts that were begun, and how they ended.
pub record Outcome (T : Type 0) : Type 0 where
  pub estimator : RtoEstimator T
  pub begun : ℕ
  pub ending : Ending

-- How one attempt ends: at its deadline, with the ACK at a time, or with an error of the channel.
pub data Wait (T : Type 0) : Type 0 where
  expired : Wait T
  acked : T → Wait T
  failed : Wait T

module _ {T : Type 0} ⦃f : Float T⦄ where
  -- `RTOEstimator(initial_rto=timeout, min_rto=min(0.1, timeout))`, with the other defaults
  unfoldable pub new_estimator : T → Result Rto.ValueError (RtoEstimator T)
  new_estimator timeout =
      Rto.new timeout (min_f (f.ratio 1 10) timeout) (f.ratio 5 1) (f.ratio 1 20)

-- The tests on a parsed datagram: an ACK that names `seq ^ 1`.
abbrev pub acks : ℕ → Option (Header × List ℕ) → Bool
acks seq none = false
acks seq (some (header, payload)) = has_flag header.flags flag_ack && header.ack == flip seq

module _ {A : Type 0} ⦃e : Eq A⦄ where
  -- Whether a datagram from the peer is the ACK that is waited for.
  unfoldable pub is_ack : ℕ → A → List ℕ → A → Bool
  is_ack seq addr raw from = e.beq from addr && acks seq (parse raw)

module _ {T A : Type 0} ⦃f : Float T⦄ ⦃e : Eq A⦄ where
  -- The inner loop.
  unfoldable pub wait_ack : ℕ → A → T → List (Arrival T A) → Wait T
  wait_ack seq addr deadline [] = expired
  wait_ack seq addr deadline (a ∷ more) =
      let rest = wait_ack seq addr deadline more in
      if le_f (f.sub deadline a.asked) zero_f then expired else elim a.reading [
        | broken ↦ failed
        | datagram raw from ↦ if is_ack seq addr raw from then acked a.got else rest
      ]

  module _ (s : Sender T A) (addr : A) (seq : ℕ) (script : ℕ → Attempt T A) where
    abbrev pub attempt_timeout : RtoEstimator T → T
    attempt_timeout r = if s.adaptive then r.rto else s.timeout

    -- Karn: only the first transmission is sampled.
    abbrev pub on_ack : RtoEstimator T → ℕ → T → RtoEstimator T
    on_ack r attempt got =
        if s.adaptive && attempt == 0
        then Rto.or_keep r
            (Rto.sample r (max_f (f.ratio 1 10000) (f.sub got (script attempt).sent_at)))
        else r

    abbrev pub on_expiry : RtoEstimator T → RtoEstimator T
    on_expiry r = if s.adaptive then Rto.on_timeout r else r

    -- One attempt: the packet goes to the channel, and the ACK is waited for until the deadline.
    unfoldable pub answer : ℕ → RtoEstimator T → Wait T
    answer attempt r =
        if (script attempt).accepted
        then wait_ack seq addr (f.add (script attempt).sent_at (attempt_timeout r))
            (script attempt).arrivals
        else failed

    -- `for attempt in range(MAX_RETRIES)`; the first number counts the attempts left.
    unfoldable pub attempts : ℕ → ℕ → RtoEstimator T → Outcome T
    attempts zero attempt r = record { estimator = r; begun = attempt; ending = exhausted }
    attempts (suc left) attempt r = elim (answer attempt r) [
      | acked got ↦ record {
        estimator = on_ack r attempt got;
        begun = attempt + 1;
        ending = answered;
      }
      | failed ↦ record { estimator = r; begun = attempt + 1; ending = channel_raised }
      | expired ↦ attempts left (attempt + 1) (on_expiry r)
    ]

  -- What `sendto` leaves behind: the state, and None or an exception.
  unfoldable pub finish : Sender T A → A → ℕ → Outcome T → Sender T A × Result SendError (Unit {0})
  finish s addr seq o = elim o.ending [
    | answered ↦ (
      record s { rto = put s.rto addr o.estimator; send_bit = put s.send_bit addr (flip seq) },
      ok tt,
    )
    | exhausted ↦ (record s { rto = put s.rto addr o.estimator }, err no_ack)
    | channel_raised ↦ (record s { rto = put s.rto addr o.estimator }, err channel_error)
  ]

  unfoldable pub transmit :
      Sender T A
      → A
      → List ℕ
      → RtoEstimator T
      → (ℕ → Attempt T A)
      → Sender T A × Result SendError (Unit {0})
  transmit s addr payload r script =
      let seq = get_or s.send_bit addr 0 in
      elim (data_packet seq payload) [
        | err x ↦ (record s { rto = put s.rto addr r }, err (bad_packet x))
        | ok packet ↦ finish s addr seq (attempts s addr seq script max_retries 0 r)
      ]

  -- The estimator is made before `setdefault` looks whether there is one.
  unfoldable pub sendto :
      Sender T A → List ℕ → A → (ℕ → Attempt T A) → Sender T A × Result SendError (Unit {0})
  sendto s payload addr script =
      if ltb s.mss (length payload) then (s, err too_long) else elim (new_estimator s.timeout) [
        | err x ↦ (s, err bad_timeout)
        | ok r ↦ transmit s addr payload (get_or s.rto addr r) script
      ]
