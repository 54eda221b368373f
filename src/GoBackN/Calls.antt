-- ===== src/GoBackN/Calls.antt =====
-- The calls of the application: `sendto`, `flush`, `recvfrom`, `close`.
pub mod Flush
pub mod Closing
pub mod Silent
use udp_arq_lab.Prelude.{
  ℕ, ◌+◌, true, Option, none, some, List, [], ◌∷◌, ◌++◌, length, ltb, if◌then◌else◌,
}
use udp_arq_lab.Prelude.Dict.{nat_eq_inst, Dict, Eq, get, get_or, put, remove}
use udp_arq_lab.Prelude.Float.{Float, le_f, zero_f}
use udp_arq_lab.Prelude.Result.{Result, ok, err}
use udp_arq_lab.GoBackN.State.{Sender, GoBackN}
use udp_arq_lab.GoBackN.Receiver.{Reception}
use udp_arq_lab.Sliding.{
  Failure, transport_closed, Item, at, CallError, too_long, is_closed, no_datagram, not_flushed,
  failed, keys, values, item_errors, fail_items, fail_all, errors_of,
}

module _ {T A : Type 0} ⦃e : Eq A⦄ where
  -- The number of the datagram, and the item for the background thread.
  unfoldable pub enqueue : Sender T A → List ℕ → A → Sender T A
  enqueue s payload addr =
      let number = get_or s.next_seq addr 0 in
      record s {
        peer_errors = remove s.peer_errors addr;
        next_seq = put s.next_seq addr (number + 1);
        outbound =
            s.outbound ++ record { addr = addr; seq = number; bytes = payload; error = none } ∷ [];
      }

  unfoldable pub sendto : GoBackN T A → List ℕ → A → GoBackN T A × Result CallError (Unit {0})
  sendto g payload addr =
      if ltb g.config.mss (length payload)
      then (g, err too_long)
      else if g.stopped
      then (g, err is_closed)
      else (record g { sender = enqueue g.sender payload addr }, ok tt)

  -- The oldest payload of the queue, or a TimeoutError where none comes in time.
  unfoldable pub recvfrom : GoBackN T A → GoBackN T A × Result CallError (List ℕ × A)
  recvfrom g = elim g.receiver.incoming [
    | [] ↦ (g, err no_datagram)
    | (payload, addr) ∷ more ↦
        (record g { receiver = record g.receiver { incoming = more } }, ok (payload, addr))
  ]

  unfoldable pub items_of : Sender T A → List A → List (Item A)
  items_of s [] = []
  items_of s (a ∷ addrs) =
      (values (at s.pending a) ++ values (at s.sent_items a)) ++ items_of s addrs

  -- The peers that `flush(None)` looks at, before they are sorted.
  unfoldable pub known_peers : Sender T A → List A
  known_peers s = keys s.pending ++ (keys s.sent_items ++ keys s.peer_errors)

  -- The items of one look: those of a peer, or of all peers with the outbound queue.
  unfoldable pub seen : (List A → List A) → Sender T A → Option A → List (Item A)
  seen sorted_set s none = items_of s (sorted_set (known_peers s)) ++ s.outbound
  seen sorted_set s (some addr) = items_of s (addr ∷ [])

  unfoldable pub seen_errors : (List A → List A) → Sender T A → Option A → List Failure
  seen_errors sorted_set s none =
      errors_of s.peer_errors (sorted_set (known_peers s)) ++ item_errors (seen sorted_set s none)
  seen_errors sorted_set s (some addr) =
      errors_of s.peer_errors (addr ∷ []) ++ item_errors (seen sorted_set s (some addr))

  -- `sorted(set(…))` is an argument. Each look has the sender at that time and the clock; where
  -- the looks end, the call still waits.
  module _ ⦃f : Float T⦄ (sorted_set : List A → List A) where
    unfoldable pub flush :
        List (Sender T A × T) → Option A → T → Option (Result CallError (Unit {0}))
    flush [] addr deadline = none
    flush ((s, now) ∷ looks) addr deadline =
        let rest = flush looks addr deadline in
        elim (seen_errors sorted_set s addr) [
          | x ∷ errors ↦ some (err (failed x))
          | [] ↦ elim (seen sorted_set s addr) [
            | [] ↦ some (ok tt)
            | i ∷ items ↦ if le_f (f.sub deadline now) zero_f then some (err not_flushed) else rest
          ]
        ]

  unfoldable pub close : GoBackN T A → GoBackN T A
  close g = if g.stopped then g else record g {
    stopped = true;
    sender = record g.sender {
      sent_items = fail_all g.sender.sent_items;
      pending = fail_all g.sender.pending;
      outbound = [];
    };
  }

  unfoldable pub received : GoBackN T A → Reception A → GoBackN T A
  received g r = record g { receiver = r.receiver; link = r.link; died = r.died }
