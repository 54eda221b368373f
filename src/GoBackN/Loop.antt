-- ===== src/GoBackN/Loop.antt =====
-- `_handle_incoming`, and one round of `_sender_loop`.
use udp_arq_lab.Prelude.{ℕ, Bool, false, Option, none, some, List, [], ◌∷◌, if◌then◌else◌}
use udp_arq_lab.Prelude.Dict.{Eq}
use udp_arq_lab.Prelude.Float.{Float}
use udp_arq_lab.Packet.{Header, has_flag, flag_data, flag_ack}
use udp_arq_lab.StopAndWait.{parse}
use udp_arq_lab.GoBackN.State.{Sender, GoBackN}
use udp_arq_lab.GoBackN.Receiver.{on_data}
use udp_arq_lab.GoBackN.Ack.{handle_ack}
use udp_arq_lab.GoBackN.Pump.{drain_outbound, Pumped, pump_all}
use udp_arq_lab.GoBackN.Timeouts.{timeout_all}
use udp_arq_lab.GoBackN.Calls.{received, sendto, recvfrom, close}
use udp_arq_lab.Sliding.{Config, Link, ThreadError, keys, Turn}

module _ {T A : Type 0} ⦃f : Float T⦄ ⦃e : Eq A⦄ (accepts : ℕ → Bool) where
  unfoldable pub dispatch : GoBackN T A → A → Header → List ℕ → T → GoBackN T A
  dispatch g addr header payload now =
      if has_flag header.flags flag_ack
      then record g { sender = handle_ack g.config g.sender addr header.ack now }
      else if has_flag header.flags flag_data
      then received g (on_data accepts g.receiver g.link addr header payload)
      else g

  -- `_handle_ack` decodes the bytes again, to the same header.
  unfoldable pub handle_incoming : GoBackN T A → List ℕ → A → T → GoBackN T A
  handle_incoming g raw addr now = elim (parse raw) [
    | none ↦ g
    | some (header, payload) ↦ dispatch g addr header payload now
  ]

  unfoldable pub after_drain : GoBackN T A → Sender T A × Option ThreadError → GoBackN T A
  after_drain g (s, died) = record g { sender = s; died = died }

  unfoldable pub after_pump : GoBackN T A → Pumped T A → GoBackN T A
  after_pump g p = record g { sender = p.sender; link = p.link; died = p.died }

  unfoldable pub after_timers : GoBackN T A → Sender T A × Link A → GoBackN T A
  after_timers g (s, link) = record g { sender = s; link = link }

  -- What comes behind an exception is not run.
  unfoldable pub unless_dead : GoBackN T A → (GoBackN T A → GoBackN T A) → GoBackN T A
  unless_dead g step = elim g.died [ some x ↦ g | none ↦ step g ]

  unfoldable pub receive : GoBackN T A → Turn T A → GoBackN T A
  receive g t = elim t.arrival [ none ↦ g | some (raw, addr) ↦ handle_incoming g raw addr t.got_at ]

  -- One round of the loop, while no other thread changes the state.
  unfoldable pub turn : GoBackN T A → Turn T A → GoBackN T A
  turn g t =
      if g.stopped
      then g
      else unless_dead g λ g. unless_dead (after_drain g (drain_outbound g.config g.sender)) λ g.
        unless_dead
          (after_pump g
            (pump_all accepts g.config t.pumped_at (keys g.sender.pending) g.sender g.link))
          λ g.
            receive
              (after_timers g (
                timeout_all accepts g.config t.timers_at (keys g.sender.timer_deadline) g.sender
                  g.link))
              t

-- What the application and the background thread do, one after the other.
pub data Event (T A : Type 0) : Type 0 where
  send : List ℕ → A → Event T A
  receive_call : Event T A
  close_call : Event T A
  background : Turn T A → Event T A

module _ {T A : Type 0} ⦃f : Float T⦄ ⦃e : Eq A⦄ (accepts : ℕ → Bool) where
  unfoldable pub apply : GoBackN T A → Event T A → GoBackN T A
  apply g (send payload addr) = (sendto g payload addr).0
  apply g receive_call = (recvfrom g).0
  apply g close_call = close g
  apply g (background t) = turn accepts g t

  unfoldable pub run : GoBackN T A → List (Event T A) → GoBackN T A
  run g [] = g
  run g (x ∷ events) = run (apply g x) events

module _ {T A : Type 0} where
  -- `__init__`, once `window_size` and the parameters of the base class passed their tests.
  unfoldable pub start : Config T → GoBackN T A
  start c = record {
    config = c;
    sender = record {
      base = [];
      next_seq = [];
      outstanding = [];
      sent_items = [];
      pending = [];
      timer_deadline = [];
      retries = [];
      peer_errors = [];
      rto = [];
      send_time = [];
      retransmitted = [];
      outbound = [];
    };
    receiver = record { expected = []; incoming = [] };
    link = record { sends = 0; wire = [] };
    stopped = false;
    died = none;
  }
