-- ===== src/SelectiveRepeat/Pump.antt =====
-- `_drain_outbound` and `_pump_windows`: from the outbound queue to the window and the channel.
pub mod Emptied
use udp_arq_lab.Prelude.{
  ℕ, zero, suc, ◌+◌, Bool, true, false, Option, none, some, List, [], ◌∷◌, length, leb,
  if◌then◌else◌,
}
use udp_arq_lab.Prelude.Dict.{nat_eq_inst, pair_eq_inst, Dict, Eq, get, get_or, put, set_default}
use udp_arq_lab.Prelude.Float.{Float}
use udp_arq_lab.Prelude.Result.{Result, ok, err}
use udp_arq_lab.Wire.{data_packet}
use udp_arq_lab.Rto.{RtoEstimator}
use udp_arq_lab.TimerHeap.{TimerHeap, schedule, cancel}
use udp_arq_lab.Sliding.{
  Config, Link, Item, ThreadError, bad_packet, bad_timeout, at, put_at, pop_at, channel_send,
  min_key, new_estimator,
}
use udp_arq_lab.SelectiveRepeat.State.{Sender, rto_value}

-- The sender, the receiver's buffers and the exception that ends the thread, if there is one.
pub record Drained (T A : Type 0) : Type 0 where
  pub sender : Sender T A
  pub buffer : Dict A (Dict ℕ (List ℕ))
  pub died : Option ThreadError

module _ {T A : Type 0} ⦃f : Float T⦄ ⦃e : Eq A⦄ where
  -- The assignments before the estimator is made.
  unfoldable pub enter_partly : Sender T A → Item A → Sender T A
  enter_partly s item = record s {
    pending = put_at s.pending item.addr item.seq item;
    base = set_default s.base item.addr item.seq;
    outstanding = set_default s.outstanding item.addr [];
    sent_items = set_default s.sent_items item.addr [];
    retries = set_default s.retries item.addr 0;
    retransmitted = set_default s.retransmitted item.addr [];
  }

  -- One item, once the estimator is made.
  unfoldable pub enter_pending : Sender T A → Item A → RtoEstimator T → Sender T A
  unfolding enter_partly
  enter_pending s item r =
      let s' = enter_partly s item in
      record s' {
        rto = set_default s.rto item.addr r;
        send_time = set_default s.send_time item.addr [];
      }

  -- The estimator's ValueError is not caught.
  unfoldable pub drain :
      Config T → Sender T A → Dict A (Dict ℕ (List ℕ)) → List (Item A) → Drained T A
  drain c s buffer [] = record { sender = record s { outbound = [] }; buffer = buffer; died = none }
  drain c s buffer (item ∷ more) = elim (new_estimator c) [
    | err x ↦ record {
      sender = enter_partly (record s { outbound = more }) item;
      buffer = set_default buffer item.addr [];
      died = some bad_timeout;
    }
    | ok r ↦ drain c (enter_pending s item r) (set_default buffer item.addr []) more
  ]

  unfoldable pub drain_outbound : Config T → Sender T A → Dict A (Dict ℕ (List ℕ)) → Drained T A
  drain_outbound c s buffer = drain c s buffer s.outbound

  -- The packet enters the window: stored for retransmission, its send time noted, and its own timer
  -- started.
  unfoldable pub enter_window : Config T → Sender T A → A → ℕ → Item A → List ℕ → T → Sender T A
  enter_window c s addr seq item packet now = record s {
    pending = pop_at s.pending addr seq;
    outstanding = put_at s.outstanding addr seq packet;
    sent_items = put_at s.sent_items addr seq item;
    send_time = put_at s.send_time addr seq now;
    timer_heap = schedule s.timer_heap (addr, seq) (f.add now (rto_value c s addr));
  }

  -- The channel raised: the packet is forgotten, its timer only if nothing else is out to the peer.
  unfoldable pub forget : Sender T A → A → ℕ → Sender T A
  forget s addr seq =
      let outstanding = pop_at s.outstanding addr seq in
      record s {
        outstanding = outstanding;
        sent_items = pop_at s.sent_items addr seq;
        timer_heap = elim (at outstanding addr) [
          | [] ↦ cancel s.timer_heap (addr, seq)
          | p ∷ ps ↦ s.timer_heap
        ];
      }

-- The sender and the link, and the exception that ends the thread, if there is one.
pub record Pumped (T A : Type 0) : Type 0 where
  pub sender : Sender T A
  pub link : Link A
  pub died : Option ThreadError

module _ {T A : Type 0} ⦃f : Float T⦄ ⦃e : Eq A⦄ (accepts : ℕ → Bool) (c : Config T) (now : T) where
  unfoldable pub after_send : Sender T A → A → ℕ → Link A × Bool → Pumped T A
  after_send s addr seq (link, sent) = record {
    sender = if sent then s else forget s addr seq;
    link = link;
    died = none;
  }

  -- One packet, behind the tests of the loop.
  unfoldable pub pump_one : Sender T A → Link A → A → ℕ → Item A → Pumped T A
  pump_one s link addr seq item = elim (data_packet seq item.bytes) [
    | err x ↦ record {
      sender = record s { pending = pop_at s.pending addr seq };
      link = link;
      died = some (bad_packet x);
    }
    | ok packet ↦
        after_send (enter_window c s addr seq item packet now) addr seq
          (channel_send accepts link packet addr)
  ]

  -- The pending packet of that number, unless it lies outside `[base, base + window_size)`.
  unfoldable pub take_item : Sender T A → A → ℕ → Option (ℕ × Item A)
  take_item s addr seq =
      if leb (get_or s.base addr 0 + c.window_size) seq
      then none
      else elim (get (at s.pending addr) seq) [ none ↦ none | some item ↦ some (seq, item) ]

  -- The oldest pending packet, if there is one and the window has room for it.
  unfoldable pub next_item : Sender T A → A → Option (ℕ × Item A)
  next_item s addr = elim (at s.pending addr) [
    | [] ↦ none
    | (k, i) ∷ d ↦ take_item s addr (min_key k d)
  ]

  -- `while True` for one peer; each round takes a pending packet, and the fuel is their number.
  unfoldable pub pump_peer : ℕ → Sender T A → Link A → A → Pumped T A
  pump_peer zero s link addr = record { sender = s; link = link; died = none }
  pump_peer (suc fuel) s link addr = elim (next_item s addr) [
    | none ↦ record { sender = s; link = link; died = none }
    | some (seq, item) ↦
        let p = pump_one s link addr seq item in
        elim p.died [ some x ↦ p | none ↦ pump_peer fuel p.sender p.link addr ]
  ]

  -- `for addr in addresses`
  unfoldable pub pump_all : List A → Sender T A → Link A → Pumped T A
  pump_all [] s link = record { sender = s; link = link; died = none }
  pump_all (addr ∷ more) s link =
      let p = pump_peer (length (at s.pending addr)) s link addr in
      elim p.died [ some x ↦ p | none ↦ pump_all more p.sender p.link ]
