-- ===== src/SelectiveRepeat/Loop.antt =====
-- `_handle_incoming`, and one round of `_sender_loop`.
use udp_arq_lab.Prelude.{ℕ, Bool, false, none, some, List, [], ◌∷◌, if◌then◌else◌}
use udp_arq_lab.Prelude.Dict.{Eq}
use udp_arq_lab.Prelude.Float.{Float}
use udp_arq_lab.Packet.{Header, has_flag, flag_data, flag_ack}
use udp_arq_lab.StopAndWait.{parse}
use udp_arq_lab.TimerHeap.{empty}
use udp_arq_lab.Sliding.{Config, Link, Turn, keys}
use udp_arq_lab.SelectiveRepeat.State.{Sender, SelectiveRepeat}
use udp_arq_lab.SelectiveRepeat.Receiver.{on_data}
use udp_arq_lab.SelectiveRepeat.Ack.{handle_ack}
use udp_arq_lab.SelectiveRepeat.Pump.{Drained, drain_outbound, Pumped, pump_all}
use udp_arq_lab.SelectiveRepeat.Timeouts.{handle_timeouts, next_wait_time}
use udp_arq_lab.SelectiveRepeat.Calls.{received, sendto, recvfrom, close}

module _ {T A : Type 0} ⦃f : Float T⦄ ⦃e : Eq A⦄ (accepts : ℕ → Bool) where
  unfoldable pub dispatch : SelectiveRepeat T A → A → Header → List ℕ → T → SelectiveRepeat T A
  dispatch g addr header payload now =
      if has_flag header.flags flag_ack
      then record g { sender = handle_ack g.config g.sender addr header.ack now }
      else if has_flag header.flags flag_data
      then received g (on_data accepts g.config.window_size g.receiver g.link addr header payload)
      else g

  -- `_handle_ack` decodes the bytes again, to the same header.
  unfoldable pub handle_incoming : SelectiveRepeat T A → List ℕ → A → T → SelectiveRepeat T A
  handle_incoming g raw addr now = elim (parse raw) [
    | none ↦ g
    | some (header, payload) ↦ dispatch g addr header payload now
  ]

  unfoldable pub after_drain : SelectiveRepeat T A → Drained T A → SelectiveRepeat T A
  after_drain g d = record g {
    sender = d.sender;
    receiver = record g.receiver { buffer = d.buffer };
    died = d.died;
  }

  unfoldable pub after_pump : SelectiveRepeat T A → Pumped T A → SelectiveRepeat T A
  after_pump g p = record g { sender = p.sender; link = p.link; died = p.died }

  -- `_handle_timeouts`, and `_next_wait_time`, which tidies the heap.
  unfoldable pub after_timers : SelectiveRepeat T A → Sender T A × Link A → T → SelectiveRepeat T A
  after_timers g (s, link) now = record g { sender = (next_wait_time s now).0; link = link }

  -- What comes behind an exception is not run.
  unfoldable pub unless_dead :
      SelectiveRepeat T A → (SelectiveRepeat T A → SelectiveRepeat T A) → SelectiveRepeat T A
  unless_dead g step = elim g.died [ some x ↦ g | none ↦ step g ]

  unfoldable pub receive : SelectiveRepeat T A → Turn T A → SelectiveRepeat T A
  receive g t = elim t.arrival [ none ↦ g | some (raw, addr) ↦ handle_incoming g raw addr t.got_at ]

  -- One round of the loop, while no other thread changes the state.
  unfoldable pub turn : SelectiveRepeat T A → Turn T A → SelectiveRepeat T A
  turn g t =
      if g.stopped
      then g
      else unless_dead g λ g.
        unless_dead (after_drain g (drain_outbound g.config g.sender g.receiver.buffer)) λ g.
          unless_dead
            (after_pump g
              (pump_all accepts g.config t.pumped_at (keys g.sender.pending) g.sender g.link))
            λ g.
              receive
                (after_timers g (handle_timeouts accepts g.config t.timers_at g.sender g.link)
                  t.timers_at)
                t

-- What the application and the background thread do, one after the other.
pub data Event (T A : Type 0) : Type 0 where
  send : List ℕ → A → Event T A
  receive_call : Event T A
  close_call : Event T A
  background : Turn T A → Event T A

module _ {T A : Type 0} ⦃f : Float T⦄ ⦃e : Eq A⦄ (accepts : ℕ → Bool) where
  unfoldable pub apply : SelectiveRepeat T A → Event T A → SelectiveRepeat T A
  apply g (send payload addr) = (sendto g payload addr).0
  apply g receive_call = (recvfrom g).0
  apply g close_call = close g
  apply g (background t) = turn accepts g t

  unfoldable pub run : SelectiveRepeat T A → List (Event T A) → SelectiveRepeat T A
  run g [] = g
  run g (x ∷ events) = run (apply g x) events

module _ {T A : Type 0} where
  -- `__init__`, once `window_size` and the parameters of the base class passed their tests.
  unfoldable pub start : Config T → SelectiveRepeat T A
  start c = record {
    config = c;
    sender = record {
      base = [];
      next_seq = [];
      outstanding = [];
      sent_items = [];
      pending = [];
      timer_heap = empty;
      retries = [];
      peer_errors = [];
      rto = [];
      send_time = [];
      retransmitted = [];
      retransmissions = 0;
      outbound = [];
    };
    receiver = record { expected = []; buffer = []; incoming = [] };
    link = record { sends = 0; wire = [] };
    stopped = false;
    died = none;
  }
