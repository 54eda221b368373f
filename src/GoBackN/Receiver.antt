-- ===== src/GoBackN/Receiver.antt =====
-- The receiver's half of `_handle_incoming`: sequence check, ACK, delivery in order.
pub mod Prefix
pub mod Lost
pub mod Arrivals
use udp_arq_lab.Prelude.{
  ℕ, ◌+◌, Bool, true, false, Option, none, some, List, [], ◌∷◌, ◌++◌, ◌==◌, if◌then◌else◌,
}
use udp_arq_lab.Prelude.Dict.{Dict, Eq, get, get_or, put}
use udp_arq_lab.Prelude.Result.{Result, ok, err}
use udp_arq_lab.Packet.{Header, PacketError}
use udp_arq_lab.Wire.{ack_packet}
use udp_arq_lab.GoBackN.State.{Receiver}
use udp_arq_lab.Sliding.{Link, ThreadError, bad_packet, channel_send}

-- The receiver, the link, and the exception of a failed encoding.
pub record Reception (A : Type 0) : Type 0 where
  pub receiver : Receiver A
  pub link : Link A
  pub died : Option ThreadError

module _ {A : Type 0} ⦃e : Eq A⦄ (accepts : ℕ → Bool) where
  -- `except Exception: return`: without the ACK the payload is not put into the queue.
  unfoldable pub deliver : Receiver A → A → Option (List ℕ) → Link A × Bool → Reception A
  deliver r addr none (link, sent) = record { receiver = r; link = link; died = none }
  deliver r addr (some payload) (link, sent) =
      if sent
      then record {
        receiver = record r { incoming = r.incoming ++ (payload, addr) ∷ [] };
        link = link;
        died = none;
      }
      else record { receiver = r; link = link; died = none }

  unfoldable pub acknowledge : Receiver A → Link A → A → ℕ → Option (List ℕ) → Reception A
  acknowledge r link addr ack_for payload = elim (ack_packet ack_for) [
    | err x ↦ record { receiver = r; link = link; died = some (bad_packet x) }
    | ok packet ↦ deliver r addr payload (channel_send accepts link packet addr)
  ]

  unfoldable pub on_data : Receiver A → Link A → A → Header → List ℕ → Reception A
  on_data r link addr header payload =
      let expected = get_or r.expected addr 0 in
      if header.seq == expected
      then acknowledge (record r { expected = put r.expected addr (expected + 1) }) link addr
          (expected + 1) (some payload)
      else acknowledge r link addr expected none
