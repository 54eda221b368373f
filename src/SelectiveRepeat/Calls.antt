-- ===== src/SelectiveRepeat/Calls.antt =====
-- The calls of the application: `sendto`, `flush`, `recvfrom`, `close`.
pub mod Flush
use udp_arq_lab.Prelude.{
  ℕ, ◌+◌, true, Option, none, List, [], ◌∷◌, ◌++◌, map, length, ltb, if◌then◌else◌,
}
use udp_arq_lab.Prelude.Dict.{Eq, get_or, put, remove}
use udp_arq_lab.Prelude.Float.{Float}
use udp_arq_lab.Prelude.Result.{Result, ok, err}
use udp_arq_lab.Sliding.{CallError, too_long, is_closed, no_datagram, fail_all}
use udp_arq_lab.GoBackN.State as GoBackN
use udp_arq_lab.GoBackN.Calls as Shared
use udp_arq_lab.SelectiveRepeat.State.{Sender, SelectiveRepeat}
use udp_arq_lab.SelectiveRepeat.Receiver.{Reception}

module _ {T A : Type 0} ⦃e : Eq A⦄ where
  -- The number of the datagram, and the item for the background thread.
  unfoldable pub enqueue : Sender T A → List ℕ → A → Sender T A
  enqueue s payload addr =
      let number = get_or s.next_seq addr 0 in
      record s {
        peer_errors = remove s.peer_errors addr;
        next_seq = put s.next_seq addr (number + 1);
        outbound =
            s.outbound ++ record { addr = addr; seq = number; bytes = payload; error = none } ∷ [];
      }

  unfoldable pub sendto :
      SelectiveRepeat T A → List ℕ → A → SelectiveRepeat T A × Result CallError (Unit {0})
  sendto g payload addr =
      if ltb g.config.mss (length payload)
      then (g, err too_long)
      else if g.stopped
      then (g, err is_closed)
      else (record g { sender = enqueue g.sender payload addr }, ok tt)

  -- The oldest payload of the queue, or a TimeoutError where none comes in time.
  unfoldable pub recvfrom :
      SelectiveRepeat T A → SelectiveRepeat T A × Result CallError (List ℕ × A)
  recvfrom g = elim g.receiver.incoming [
    | [] ↦ (g, err no_datagram)
    | (payload, addr) ∷ more ↦
        (record g { receiver = record g.receiver { incoming = more } }, ok (payload, addr))
  ]

  -- The dicts that `flush` reads. Its body is the same in go_back_n.py.
  unfoldable pub backlog : Sender T A → GoBackN.Sender T A
  backlog s = record {
    base = s.base;
    next_seq = s.next_seq;
    outstanding = s.outstanding;
    sent_items = s.sent_items;
    pending = s.pending;
    timer_deadline = [];
    retries = s.retries;
    peer_errors = s.peer_errors;
    rto = s.rto;
    send_time = s.send_time;
    retransmitted = s.retransmitted;
    outbound = s.outbound;
  }

  unfoldable pub backlogs : List (Sender T A × T) → List (GoBackN.Sender T A × T)
  unfolding backlog
  backlogs looks = map (λ look. (backlog look.0, look.1)) looks

  unfoldable pub flush :
      ⦃f : Float T⦄
      → (List A → List A)
      → List (Sender T A × T)
      → Option A
      → T
      → Option (Result CallError (Unit {0}))
  unfolding backlogs
  flush sorted_set looks addr deadline = Shared.flush sorted_set (backlogs looks) addr deadline

  unfoldable pub close : SelectiveRepeat T A → SelectiveRepeat T A
  close g = if g.stopped then g else record g {
    stopped = true;
    sender = record g.sender {
      sent_items = fail_all g.sender.sent_items;
      pending = fail_all g.sender.pending;
      outbound = [];
    };
  }

  unfoldable pub received : SelectiveRepeat T A → Reception A → SelectiveRepeat T A
  received g r = record g { receiver = r.receiver; link = r.link; died = r.died }
