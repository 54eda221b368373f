-- ===== src/GoBackN/Pump.antt =====
-- `_drain_outbound` and `_pump_windows`: from the outbound queue to the window and the channel.
use udp_arq_lab.Prelude.{
  ℕ, zero, suc, ◌+◌, Bool, true, false, ◌&&◌, Option, none, some, List, [], ◌∷◌, length, leb, ◌==◌,
  if◌then◌else◌,
}
use udp_arq_lab.Prelude.Dict.{nat_eq_inst, Eq, get, get_or, put, set_default}
use udp_arq_lab.Prelude.Float.{Float}
use udp_arq_lab.Prelude.Result.{ok, err}
use udp_arq_lab.Wire.{data_packet}
use udp_arq_lab.Rto.{RtoEstimator}
use udp_arq_lab.GoBackN.State.{Sender, rto_value}
use udp_arq_lab.Sliding.{
  Config, Link, Item, ThreadError, bad_packet, bad_timeout, at, put_at, pop_at, channel_send,
  min_key, new_estimator,
}

module _ {T A : Type 0} ⦃f : Float T⦄ ⦃e : Eq A⦄ where
  -- One item, once the estimator is made.
  unfoldable pub enter_pending : Sender T A → Item A → RtoEstimator T → Sender T A
  enter_pending s item r = record s {
    pending = put_at s.pending item.addr item.seq item;
    base = set_default s.base item.addr item.seq;
    outstanding = set_default s.outstanding item.addr [];
    sent_items = set_default s.sent_items item.addr [];
    timer_deadline = set_default s.timer_deadline item.addr none;
    retries = set_default s.retries item.addr 0;
    rto = set_default s.rto item.addr r;
    send_time = set_default s.send_time item.addr [];
    retransmitted = set_default s.retransmitted item.addr [];
  }

  -- The estimator's ValueError comes behind the first five assignments, and is not caught.
  unfoldable pub enter_partly : Sender T A → Item A → Sender T A
  enter_partly s item = record s {
    pending = put_at s.pending item.addr item.seq item;
    base = set_default s.base item.addr item.seq;
    outstanding = set_default s.outstanding item.addr [];
    sent_items = set_default s.sent_items item.addr [];
    timer_deadline = set_default s.timer_deadline item.addr none;
    retries = set_default s.retries item.addr 0;
  }

  unfoldable pub drain : Config T → Sender T A → List (Item A) → Sender T A × Option ThreadError
  drain c s [] = (record s { outbound = [] }, none)
  drain c s (item ∷ more) = elim (new_estimator c) [
    | err x ↦ (enter_partly (record s { outbound = more }) item, some bad_timeout)
    | ok r ↦ drain c (enter_pending s item r) more
  ]

  unfoldable pub drain_outbound : Config T → Sender T A → Sender T A × Option ThreadError
  drain_outbound c s = drain c s s.outbound

  -- `self._base.get(addr) == seq and self._timer_deadline.get(addr) is None`
  unfoldable pub starts_timer : Sender T A → A → ℕ → Bool
  starts_timer s addr seq = elim (get s.base addr) [
    | none ↦ false
    | some base ↦
        base == seq && (elim (get_or s.timer_deadline addr none) [ none ↦ true | some t ↦ false ])
  ]

  -- The packet enters the window: stored for retransmission, its send time noted, and the peer's
  -- timer started if the window was empty.
  unfoldable pub enter_window : Config T → Sender T A → A → ℕ → Item A → List ℕ → T → Sender T A
  enter_window c s addr seq item packet now = record s {
    pending = pop_at s.pending addr seq;
    outstanding = put_at s.outstanding addr seq packet;
    sent_items = put_at s.sent_items addr seq item;
    send_time = put_at s.send_time addr seq now;
    timer_deadline =
        if starts_timer s addr seq
        then put s.timer_deadline addr (some (f.add now (rto_value c s addr)))
        else s.timer_deadline;
  }

  -- The channel raised: the packet is forgotten.
  unfoldable pub forget : Sender T A → A → ℕ → Sender T A
  forget s addr seq =
      let outstanding = pop_at s.outstanding addr seq in
      record s {
        outstanding = outstanding;
        sent_items = pop_at s.sent_items addr seq;
        timer_deadline = elim (at outstanding addr) [
          | [] ↦ put s.timer_deadline addr none
          | p ∷ ps ↦ s.timer_deadline
        ];
      }

-- The sender and the link, and the exception that ends the thread, if there is one.
pub record Pumped (T A : Type 0) : Type 0 where
  pub sender : Sender T A
  pub link : Link A
  pub died : Option ThreadError

module _ {T A : Type 0} ⦃f : Float T⦄ ⦃e : Eq A⦄ (accepts : ℕ → Bool) (c : Config T) (now : T) where
  unfoldable pub after_send : Sender T A → A → ℕ → Link A × Bool → Pumped T A
  after_send s addr seq (link, sent) = record {
    sender = if sent then s else forget s addr seq;
    link = link;
    died = none;
  }

  -- One packet, behind the tests of the loop.
  unfoldable pub pump_one : Sender T A → Link A → A → ℕ → Item A → Pumped T A
  pump_one s link addr seq item = elim (data_packet seq item.bytes) [
    | err x ↦ record {
      sender = record s { pending = pop_at s.pending addr seq };
      link = link;
      died = some (bad_packet x);
    }
    | ok packet ↦
        after_send (enter_window c s addr seq item packet now) addr seq
          (channel_send accepts link packet addr)
  ]

  -- The pending packet of that number, if the window has room for it.
  unfoldable pub take_item : Sender T A → A → ℕ → Option (ℕ × Item A)
  take_item s addr seq =
      if leb (get_or s.base addr 0 + c.window_size) seq
      then none
      else elim (get (at s.pending addr) seq) [ none ↦ none | some item ↦ some (seq, item) ]

  -- The oldest pending packet, if there is one and the window has room for it.
  unfoldable pub next_item : Sender T A → A → Option (ℕ × Item A)
  next_item s addr = elim (at s.pending addr) [
    | [] ↦ none
    | (k, i) ∷ d ↦ take_item s addr (min_key k d)
  ]

  -- `while True` for one peer; each round takes a pending packet, and the fuel is their number.
  unfoldable pub pump_peer : ℕ → Sender T A → Link A → A → Pumped T A
  pump_peer zero s link addr = record { sender = s; link = link; died = none }
  pump_peer (suc fuel) s link addr = elim (next_item s addr) [
    | none ↦ record { sender = s; link = link; died = none }
    | some (seq, item) ↦
        let p = pump_one s link addr seq item in
        elim p.died [ some x ↦ p | none ↦ pump_peer fuel p.sender p.link addr ]
  ]

  -- `for addr in list(self._pending.keys())`
  unfoldable pub pump_all : List A → Sender T A → Link A → Pumped T A
  pump_all [] s link = record { sender = s; link = link; died = none }
  pump_all (addr ∷ more) s link =
      let p = pump_peer (length (at s.pending addr)) s link addr in
      elim p.died [ some x ↦ p | none ↦ pump_all more p.sender p.link ]
