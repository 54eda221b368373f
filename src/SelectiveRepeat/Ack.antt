-- ===== src/SelectiveRepeat/Ack.antt =====
-- `_handle_ack`: an individual ACK takes its packet and timer away, and moves the base.
pub mod Individual
use udp_arq_lab.Prelude.{
  ℕ, zero, suc, ◌+◌, ◌-◌, Bool, true, false, not, ◌&&◌, Option, none, some, ltb, if◌then◌else◌,
}
use udp_arq_lab.Prelude.Dict.{nat_eq_inst, pair_eq_inst, Dict, Eq, get, get_or, has, put, remove}
use udp_arq_lab.Prelude.Float.{Float, max_f}
use udp_arq_lab.Rto
use udp_arq_lab.Rto.{RtoEstimator}
use udp_arq_lab.TimerHeap.{cancel}
use udp_arq_lab.Sliding.{Config, at, pop_at, member, discard}
use udp_arq_lab.SelectiveRepeat.State.{Sender}

-- `while base < next_seq and base not in outstanding`; the fuel is `next_seq - base`.
unfoldable pub skip_acked : {V : Type 0} → ℕ → Dict ℕ V → ℕ → ℕ → ℕ
skip_acked zero outstanding next_seq base = base
skip_acked (suc fuel) outstanding next_seq base =
    elim (ltb base next_seq && not (has outstanding base)) [
      | true ↦ skip_acked fuel outstanding next_seq (base + 1)
      | false ↦ base
    ]

module _ {T A : Type 0} ⦃f : Float T⦄ ⦃e : Eq A⦄ where
  -- Karn: the packet is sampled unless it was sent again.
  unfoldable pub sample_rtt : Sender T A → A → ℕ → T → Dict A (RtoEstimator T)
  sample_rtt s addr seq now = elim (get (at s.send_time addr) seq) [
    | none ↦ s.rto
    | some sent ↦ elim (get s.rto addr) [
      | none ↦ s.rto
      | some r ↦
          if member seq (at s.retransmitted addr)
          then s.rto
          else put s.rto addr
              (Rto.or_keep r (Rto.sample r (max_f (f.ratio 1 10000) (f.sub now sent))))
    ]
  ]

  unfoldable pub account : Config T → Sender T A → A → ℕ → T → Sender T A
  account c s addr seq now =
      if c.adaptive
      then record s {
        rto = sample_rtt s addr seq now;
        send_time = put s.send_time addr (remove (at s.send_time addr) seq);
        retransmitted = put s.retransmitted addr (discard seq (at s.retransmitted addr));
      }
      else s

  -- The packet, its item and its timer go.
  unfoldable pub take_out : Sender T A → A → ℕ → Sender T A
  take_out s addr seq = record s {
    outstanding = pop_at s.outstanding addr seq;
    sent_items = pop_at s.sent_items addr seq;
    timer_heap = cancel s.timer_heap (addr, seq);
  }

  unfoldable pub advance : Sender T A → A → ℕ → ℕ → Sender T A
  advance s addr base next_seq = record s {
    base = put s.base addr (skip_acked (next_seq - base) (at s.outstanding addr) next_seq base);
    retries = put s.retries addr 0;
  }

  -- ACK `seq + 1` names the packet `seq`; ACK 0 names none.
  unfoldable pub ack_one : Config T → Sender T A → A → ℕ → ℕ → ℕ → T → Sender T A
  ack_one c s addr base next_seq zero now = s
  ack_one c s addr base next_seq (suc seq) now =
      if has (at s.outstanding addr) seq
      then advance (account c (take_out s addr seq) addr seq now) addr base next_seq
      else s

  unfoldable pub ack_from : Config T → Sender T A → A → ℕ → ℕ → T → Sender T A
  ack_from c s addr base ack now =
      let next_seq = get_or s.next_seq addr base in
      if ltb next_seq ack then s else ack_one c s addr base next_seq ack now

  unfoldable pub handle_ack : Config T → Sender T A → A → ℕ → T → Sender T A
  handle_ack c s addr ack now = elim (get s.base addr) [
    | none ↦ s
    | some base ↦ ack_from c s addr base ack now
  ]
