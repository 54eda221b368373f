-- ===== src/GoBackN/Receiver/Lost.antt =====
-- The receiver where the channel raises on an ACK.
use udp_arq_lab.Prelude.{
  ℕ, suc, ◌+◌, ◌<◌, ◌≡◌, refl, Bool, false, none, some, List, arith, ◌==◌, ==_iff,
}
use udp_arq_lab.Prelude.Dict.{get_or-put, Eq, get_or, put, beq_refl}
use udp_arq_lab.Prelude.Result.{ok, err}
use udp_arq_lab.Wire.{ack_packet}
use udp_arq_lab.Wire.Sound.{ack_packet-Carries}
use udp_arq_lab.GoBackN.State.{Receiver}
use udp_arq_lab.GoBackN.Receiver.{Reception, deliver, acknowledge, on_data}
use udp_arq_lab.GoBackN.Receiver.Prefix.{Data}
use udp_arq_lab.Sliding.{Link, bad_packet, channel_send}

module _ {A : Type 0} ⦃e : Eq A⦄ where
  no_payload :
      (accepts : ℕ → Bool) (r : Receiver A) (addr : A) (s : Link A × Bool)
      → (deliver accepts r addr none s).receiver ≡ r
  unfolding deliver
  no_payload accepts r addr (link, sent) = refl

  raised_lem :
      (accepts : ℕ → Bool) (link : Link A) (packet : List ℕ) (addr : A)
      → accepts link.sends ≡ false
      → channel_send accepts link packet addr ≡ (record link { sends = suc link.sends }, false)
  unfolding channel_send
  raised_lem accepts link packet addr h = rw h refl

  ack_raises :
      (accepts : ℕ → Bool) (r : Receiver A) (link : Link A) (addr : A) (n : ℕ) (p : List ℕ)
      → n < 0x1_0000_0000
      → accepts link.sends ≡ false
      → (acknowledge accepts r link addr n (some p)).receiver ≡ r
  unfolding acknowledge deliver
  ack_raises accepts r link addr n p lt h =
      let (a, ea, ca) = ack_packet-Carries n lt in
      rw (acknowledge, ea, deliver, raised_lem accepts link a addr h) refl

  ack_again :
      (accepts : ℕ → Bool) (r : Receiver A) (link : Link A) (addr : A) (n : ℕ)
      → (acknowledge accepts r link addr n none).receiver ≡ r
  unfolding acknowledge
  ack_again accepts r link addr n =
      elim (ack_packet n)
        as (λ x.
          (elim x as (λ y. Reception A) [
            | err y ↦ record { receiver = r; link = link; died = some (bad_packet y) }
            | ok packet ↦ deliver accepts r addr none (channel_send accepts link packet addr)
          ]).receiver
          ≡ r) [
            | err y ↦ refl
            | ok packet ↦ no_payload accepts r addr (channel_send accepts link packet addr)
          ]

  abbrev bumped : Receiver A → A → ℕ → Receiver A
  bumped r addr n = record r { expected = put r.expected addr n }

  bumped_lem :
      (r : Receiver A) (d : Data A)
      → d.header.seq ≡ get_or r.expected d.from 0
      → get_or (put r.expected d.from (get_or r.expected d.from 0 + 1)) d.from 0 ≡ d.header.seq + 1
  bumped_lem r d eq =
      rw (get_or-put r.expected d.from (get_or r.expected d.from 0 + 1) d.from 0, beq_refl d.from)
        (omega (arith, eq))

  on_data_raises :
      (accepts : ℕ → Bool) (r : Receiver A) (link : Link A) (d : Data A)
      → d.header.seq ≡ get_or r.expected d.from 0
      → d.header.seq + 1 < 0x1_0000_0000
      → accepts link.sends ≡ false
      → (on_data accepts r link d.from d.header d.payload).receiver
        ≡ bumped r d.from (get_or r.expected d.from 0 + 1)
  unfolding on_data
  on_data_raises accepts r link d eq lt raises =
      rw ((==_iff d.header.seq (get_or r.expected d.from 0)).1 eq)
        (ack_raises accepts _ link d.from _ d.payload (omega (arith, eq)) raises)

  on_data_other :
      (accepts : ℕ → Bool) (r : Receiver A) (link : Link A) (d : Data A)
      → (d.header.seq == get_or r.expected d.from 0) ≡ false
      → (on_data accepts r link d.from d.header d.payload).receiver ≡ r
  unfolding on_data
  on_data_other accepts r link d other = rw other (ack_again accepts r link d.from _)

  -- Where the channel raises on the ACK of the expected packet, the packet counts as received and
  -- its payload is not in the queue; a later copy of the packet changes nothing of the receiver.
  pub on_data_lost :
      (accepts : ℕ → Bool) (r : Receiver A) (link link' : Link A) (d : Data A)
      → d.header.seq ≡ get_or r.expected d.from 0
      → d.header.seq + 1 < 0x1_0000_0000
      → accepts link.sends ≡ false
      → let q = on_data accepts r link d.from d.header d.payload in
        (q.receiver.incoming ≡ r.incoming)
        × (get_or q.receiver.expected d.from 0 ≡ d.header.seq + 1)
        × ((on_data accepts q.receiver link' d.from d.header d.payload).receiver ≡ q.receiver)
  on_data_lost accepts r link link' d eq lt raises =
      rw (on_data_raises accepts r link d eq lt raises) (
        refl,
        bumped_lem r d eq,
        on_data_other accepts (bumped r d.from (get_or r.expected d.from 0 + 1)) link' d
            (ground (arith, bumped_lem r d eq)),
      )
