-- ===== src/SelectiveRepeat/Receiver.antt =====
-- The receiver's half of `_handle_incoming`: the receive window, its buffer, the ACK of each packet,
-- and delivery in order.
pub mod Window
pub mod Arranged
pub mod Peers
pub mod Arrivals
pub mod Complete
use udp_arq_lab.Prelude.{
  ℕ, zero, suc, ◌+◌, Bool, true, false, ◌&&◌, Option, none, some, List, [], ◌∷◌, ◌++◌, length, map,
  ltb, leb, if◌then◌else◌,
}
use udp_arq_lab.Prelude.Dict.{nat_eq_inst, Dict, Eq, get, get_or, put, remove}
use udp_arq_lab.Prelude.Result.{Result, ok, err}
use udp_arq_lab.Packet.{Header, PacketError}
use udp_arq_lab.Wire.{ack_packet}
use udp_arq_lab.Sliding.{Link, ThreadError, bad_packet, channel_send, at}
use udp_arq_lab.SelectiveRepeat.State.{Receiver}

-- The variables of the delivery loop.
pub record Delivery : Type 0 where
  pub expected : ℕ
  pub buffer : Dict ℕ (List ℕ)
  pub queue : List (List ℕ)

-- `while expected in buffer`; each round takes an entry out, and the fuel is their number.
unfoldable pub take_ready : ℕ → Dict ℕ (List ℕ) → ℕ → List (List ℕ) → Delivery
take_ready zero buffer expected queue = record {
  expected = expected;
  buffer = buffer;
  queue = queue;
}
take_ready (suc fuel) buffer expected queue = elim (get buffer expected) [
  | none ↦ record { expected = expected; buffer = buffer; queue = queue }
  | some p ↦ take_ready fuel (remove buffer expected) (expected + 1) (queue ++ p ∷ [])
]

-- `expected <= header.seq < expected + self.window_size`
unfoldable pub in_window : ℕ → ℕ → ℕ → Bool
in_window window_size expected seq = leb expected seq && ltb seq (expected + window_size)

unfoldable pub ack_number : ℕ → ℕ → ℕ → ℕ
unfolding in_window
ack_number window_size expected seq =
    if in_window window_size expected seq
    then seq + 1
    else if ltb seq expected
    then seq + 1
    else expected

-- The buffer with the packet, if it lies in the window.
unfoldable pub buffered : ℕ → Dict ℕ (List ℕ) → ℕ → ℕ → List ℕ → Dict ℕ (List ℕ)
unfolding in_window
buffered window_size buffer expected seq payload =
    if in_window window_size expected seq then put buffer seq payload else buffer

-- The buffer and the loop behind one packet.
unfoldable pub arrange : ℕ → Dict ℕ (List ℕ) → ℕ → ℕ → List ℕ → Delivery
arrange window_size buffer expected seq payload =
    let held = buffered window_size buffer expected seq payload in
    take_ready (length held) held expected []

-- The receiver, the link, and the exception of a failed encoding.
pub record Reception (A : Type 0) : Type 0 where
  pub receiver : Receiver A
  pub link : Link A
  pub died : Option ThreadError

module _ {A : Type 0} ⦃e : Eq A⦄ (accepts : ℕ → Bool) where
  -- `except Exception: return`: without the ACK the payloads are not put into the queue.
  unfoldable pub deliver : Receiver A → A → List (List ℕ) → Link A × Bool → Reception A
  deliver r addr queue (link, sent) = record {
    receiver = if sent then record r { incoming = r.incoming ++ map (λ p. (p, addr)) queue } else r;
    link = link;
    died = none;
  }

  unfoldable pub acknowledge : Receiver A → Link A → A → ℕ → List (List ℕ) → Reception A
  acknowledge r link addr ack_for queue = elim (ack_packet ack_for) [
    | err x ↦ record { receiver = r; link = link; died = some (bad_packet x) }
    | ok packet ↦ deliver r addr queue (channel_send accepts link packet addr)
  ]

  unfoldable pub on_data : ℕ → Receiver A → Link A → A → Header → List ℕ → Reception A
  on_data window_size r link addr header payload =
      let expected = get_or r.expected addr 0 in
      let d = arrange window_size (at r.buffer addr) expected header.seq payload in
      acknowledge
        (record r {
          expected = put r.expected addr d.expected;
          buffer = put r.buffer addr d.buffer;
        })
        link addr (ack_number window_size expected header.seq) d.queue
