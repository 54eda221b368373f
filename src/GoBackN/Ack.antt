-- ===== src/GoBackN/Ack.antt =====
-- `_handle_ack`: a cumulative ACK moves the base of the window.
pub mod Cumulative
use udp_arq_lab.Prelude.{
  ℕ, ◌+◌, Bool, true, false, not, ◌&&◌, Option, none, some, List, [], ◌∷◌, ltb, leb, ◌==◌,
  if◌then◌else◌,
}
use udp_arq_lab.Prelude.Dict.{nat_eq_inst, Dict, Eq, get, get_or, has, put, remove}
use udp_arq_lab.Prelude.Float.{Float, max_f}
use udp_arq_lab.Packet.{Header}
use udp_arq_lab.Rto
use udp_arq_lab.Rto.{RtoEstimator}
use udp_arq_lab.GoBackN.State.{Sender, rto_value}
use udp_arq_lab.Sliding.{Config, Item, at, adjust, member, discard}

-- `[seq for seq in list(outstanding) if seq < ack]`
unfoldable pub below : {V : Type 0} → ℕ → Dict ℕ V → List ℕ
below ack [] = []
below ack ((seq, v) ∷ d) = let rest = below ack d in if ltb seq ack then seq ∷ rest else rest

-- `pop(seq, None)` for each of them
unfoldable pub pop_all : {V : Type 0} → Dict ℕ V → List ℕ → Dict ℕ V
pop_all d [] = d
pop_all d (seq ∷ seqs) = pop_all (remove d seq) seqs

unfoldable pub discard_all : List ℕ → List ℕ → List ℕ
discard_all xs [] = xs
discard_all xs (seq ∷ seqs) = discard_all (discard seq xs) seqs

module _ {T A : Type 0} ⦃f : Float T⦄ ⦃e : Eq A⦄ where
  -- Karn: the oldest packet is sampled unless it was sent again.
  unfoldable pub sample_rtt : Sender T A → A → ℕ → T → Dict A (RtoEstimator T)
  sample_rtt s addr base now = elim (get (at s.send_time addr) base) [
    | none ↦ s.rto
    | some sent ↦ elim (get s.rto addr) [
      | none ↦ s.rto
      | some r ↦
          if member base (at s.retransmitted addr)
          then s.rto
          else put s.rto addr
              (Rto.or_keep r (Rto.sample r (max_f (f.ratio 1 10000) (f.sub now sent))))
    ]
  ]

  -- The adaptive bookkeeping for the packets that are now acknowledged.
  unfoldable pub account : Config T → Sender T A → A → ℕ → List ℕ → T → Sender T A
  account c s addr base acknowledged now =
      if c.adaptive
      then record s {
        rto = sample_rtt s addr base now;
        send_time = put s.send_time addr (pop_all (at s.send_time addr) acknowledged);
        retransmitted =
            put s.retransmitted addr (discard_all (at s.retransmitted addr) acknowledged);
      }
      else s

  -- Where packets up to `next_seq` are still out, the timer starts anew.
  unfoldable pub restart_timer : Config T → Sender T A → A → ℕ → ℕ → T → Sender T A
  restart_timer c s addr ack next_seq now = record s {
    timer_deadline =
        put s.timer_deadline addr
          (if ltb ack next_seq then some (f.add now (rto_value c s addr)) else none);
  }

  -- `self._outstanding.get(addr, {})` and `self._sent_items.get(addr, {})` lose what is below `ack`.
  unfoldable pub advance : Sender T A → A → ℕ → Sender T A
  advance s addr ack =
      let acknowledged = below ack (at s.outstanding addr) in
      record s {
        base = put s.base addr ack;
        outstanding = adjust s.outstanding addr (λ d. pop_all d acknowledged);
        sent_items = adjust s.sent_items addr (λ d. pop_all d acknowledged);
        retries = put s.retries addr 0;
      }

  unfoldable pub accept_ack : Config T → Sender T A → A → ℕ → ℕ → ℕ → T → Sender T A
  accept_ack c s addr base next_seq ack now =
      let acknowledged = below ack (at s.outstanding addr) in
      restart_timer c (account c (advance s addr ack) addr base acknowledged now) addr ack next_seq
        now

  unfoldable pub ack_from : Config T → Sender T A → A → ℕ → ℕ → T → Sender T A
  ack_from c s addr base ack now =
      let next_seq = get_or s.next_seq addr base in
      if leb ack base
      then s
      else if ltb next_seq ack
      then s
      else accept_ack c s addr base next_seq ack now

  unfoldable pub handle_ack : Config T → Sender T A → A → ℕ → T → Sender T A
  handle_ack c s addr ack now = elim (get s.base addr) [
    | none ↦ s
    | some base ↦ ack_from c s addr base ack now
  ]
