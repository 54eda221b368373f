-- ===== src/GoBackN/Receiver/Arrivals.antt =====
-- The background thread on the raw packets of other transports.
use mathlib.Core.Path.{subst}
use udp_arq_lab.Prelude.{
  ℕ, ◌+◌, ◌<◌, ◌≡◌, refl, sym, ap, ◌∙◌, Bool, true, false, Option, none, some, List, [], ◌∷◌, arith,
  length, All,
}
use udp_arq_lab.Prelude.Dict.{Eq, get_or}
use udp_arq_lab.Prelude.Float.{Float}
use udp_arq_lab.Prelude.Result.{ok}
use udp_arq_lab.Packet.{Header, flag_data}
use udp_arq_lab.Checksum.{verify}
use udp_arq_lab.Wire.{header_of, data_packet, ack_packet}
use udp_arq_lab.Wire.Sound.{Carries-of_data, Carries-of_ack}
use udp_arq_lab.StopAndWait.{parse}
use udp_arq_lab.StopAndWait.Receiving.{parse_of_Carries}
use udp_arq_lab.GoBackN.State.{GoBackN}
use udp_arq_lab.GoBackN.Receiver.{on_data}
use udp_arq_lab.GoBackN.Receiver.Prefix.{
  Data, Grows, Grows-refl, Grows-trans, on_data-step, step-Grows, step_bound,
}
use udp_arq_lab.GoBackN.Calls.{received}
use udp_arq_lab.GoBackN.Loop.{dispatch, handle_incoming}
use udp_arq_lab.Sliding.{ThreadError}

module _ {T A : Type 0} ⦃f : Float T⦄ ⦃e : Eq A⦄ where
  -- A DATA packet, as any of the transports builds it, reaches the receiver with its number and
  -- its payload.
  pub handle_incoming_data :
      (accepts : ℕ → Bool) (g : GoBackN T A) (seq : ℕ) (payload raw : List ℕ) (addr : A) (now : T)
      → data_packet seq payload ≡ ok raw
      → (header : Header) × (header.seq ≡ seq)
        × (handle_incoming accepts g raw addr now
            ≡ received g (on_data accepts g.receiver g.link addr header payload))
  unfolding handle_incoming dispatch
  handle_incoming_data accepts g seq payload raw addr now built =
      let c = Carries-of_data seq payload raw built in
      (
        record (header_of seq 0 flag_data (length payload)) { checksum = c.sum },
        refl,
        rw (handle_incoming, parse_of_Carries c) refl,
      )

  -- The bytes of an ACK, as any of the transports builds it, leave the receiver alone.
  handle_incoming_ack :
      (accepts : ℕ → Bool) (g : GoBackN T A) (ack : ℕ) (raw : List ℕ) (addr : A) (now : T)
      → ack_packet ack ≡ ok raw
      → ((handle_incoming accepts g raw addr now).receiver ≡ g.receiver)
        × ((handle_incoming accepts g raw addr now).died ≡ g.died)
  unfolding handle_incoming dispatch
  handle_incoming_ack accepts g ack raw addr now built =
      let c = Carries-of_ack ack raw built in
      (rw (handle_incoming, parse_of_Carries c) refl, rw (handle_incoming, parse_of_Carries c) refl)

  -- Damaged bytes are ignored.
  handle_incoming_damaged :
      (accepts : ℕ → Bool) (g : GoBackN T A) (raw : List ℕ) (addr : A) (now : T)
      → verify raw ≡ false
      → handle_incoming accepts g raw addr now ≡ g
  unfolding handle_incoming parse
  handle_incoming_damaged accepts g raw addr now h = rw (handle_incoming, parse, h) refl

-- A datagram, its sender, and the time at which it was read.
pub record Datagram (T A : Type 0) : Type 0 where
  pub raw : List ℕ
  pub from : A
  pub got_at : T

module _ {T A : Type 0} ⦃f : Float T⦄ ⦃e : Eq A⦄ where
  -- `_handle_incoming` on one datagram after the other, until an exception ends the thread.
  unfoldable pub hear : (ℕ → Bool) → GoBackN T A → List (Datagram T A) → GoBackN T A
  hear accepts g [] = g
  hear accepts g (d ∷ ds) =
      let h = handle_incoming accepts g d.raw d.from d.got_at in
      elim h.died [ some x ↦ h | none ↦ hear accepts h ds ]

  hear_on : (ℕ → Bool) → List (Datagram T A) → GoBackN T A → Option ThreadError → GoBackN T A
  hear_on accepts ds h died = elim died [ some x ↦ h | none ↦ hear accepts h ds ]

  hear_next :
      (accepts : ℕ → Bool) (g : GoBackN T A) (d : Datagram T A) (ds : List (Datagram T A))
      → (handle_incoming accepts g d.raw d.from d.got_at).died ≡ none
      → hear accepts g (d ∷ ds) ≡ hear accepts (handle_incoming accepts g d.raw d.from d.got_at) ds
  unfolding hear hear_on
  hear_next accepts g d ds alive =
      ap (hear_on accepts ds (handle_incoming accepts g d.raw d.from d.got_at)) alive

-- What a peer's channel hands over: damaged bytes, an ACK packet, or the packet of one of its
-- messages.
pub data Comes {A : Type 0} (msg : A → ℕ → List ℕ) (raw : List ℕ) (from : A) : Type 0 where
  damaged : verify raw ≡ false → Comes msg raw from
  is_ack : (ack : ℕ) → ack_packet ack ≡ ok raw → Comes msg raw from
  is_data : (seq : ℕ) → data_packet seq (msg from seq) ≡ ok raw → Comes msg raw from

module _ {T A : Type 0} ⦃f : Float T⦄ ⦃e : Eq A⦄ (msg : A → ℕ → List ℕ) where
  -- From `g` to `h` the thread lives on, and each peer's queue grew by its next messages.
  pub record Heard (n : ℕ) (g h : GoBackN T A) : Type 0 where
    pub alive : h.died ≡ none
    pub below_limit : (a : A) → get_or h.receiver.expected a 0 + n < 0x1_0000_0000
    pub grows : (a : A) → Grows (msg a) a g.receiver h.receiver

  Heard-same :
      (n : ℕ) (g h : GoBackN T A)
      → h.died ≡ none
      → h.receiver ≡ g.receiver
      → ((a : A) → get_or g.receiver.expected a 0 + (n + 1) < 0x1_0000_0000)
      → Heard n g h
  Heard-same n g h alive same lt = record {
    alive = alive;
    below_limit = λ a. rw same (omega (arith, lt a));
    grows = λ a. rw same (Grows-refl (msg a) a g.receiver);
  }

  Heard-data :
      (accepts : ℕ → Bool) (n : ℕ) (g : GoBackN T A) (d : Datagram T A) (seq : ℕ)
      → ((k : ℕ) → accepts k ≡ true)
      → ((a : A) → get_or g.receiver.expected a 0 + (n + 1) < 0x1_0000_0000)
      → data_packet seq (msg d.from seq) ≡ ok d.raw
      → Heard n g (handle_incoming accepts g d.raw d.from d.got_at)
  unfolding received
  Heard-data accepts n g d seq all lt built =
      let (header, same, eq) =
        handle_incoming_data accepts g seq (msg d.from seq) d.raw d.from d.got_at built in
      let packet : Data A = record { from = d.from; header = header; payload = msg d.from seq } in
      let (link, stepped) =
        on_data-step accepts g.receiver g.link packet all (omega (arith, lt d.from)) in
      subst (λ h. Heard n g h) (sym (eq ∙ ap (received g) stepped))
        (record {
          alive = refl;
          below_limit = step_bound g.receiver packet n lt;
          grows = λ a.
              step-Grows (msg a) a g.receiver packet
                (λ t. ap (λ b. msg b seq) ((e.beq_iff d.from a).0 t) ∙ ap (msg a) (sym same));
        })

  Heard-one :
      (accepts : ℕ → Bool) (n : ℕ) (g : GoBackN T A) (d : Datagram T A)
      → ((k : ℕ) → accepts k ≡ true)
      → g.died ≡ none
      → ((a : A) → get_or g.receiver.expected a 0 + (n + 1) < 0x1_0000_0000)
      → Comes msg d.raw d.from
      → Heard n g (handle_incoming accepts g d.raw d.from d.got_at)
  Heard-one accepts n g d all alive lt (damaged bad) =
      rw (handle_incoming_damaged accepts g d.raw d.from d.got_at bad)
        (Heard-same n g g alive refl lt)
  Heard-one accepts n g d all alive lt (is_ack ack built) =
      let (same, died) = handle_incoming_ack accepts g ack d.raw d.from d.got_at built in
      Heard-same n g _ (died ∙ alive) same lt
  Heard-one accepts n g d all alive lt (is_data seq built) =
      Heard-data accepts n g d seq all lt built

  -- While the channel takes every ACK and the numbers stay below 2^32: on any datagrams, each of
  -- them damaged so that `verify` rejects it, or an ACK packet, or the packet of one of its
  -- sender's messages, in any order and number, the background thread survives, and for every peer
  -- the queue of payloads grows by exactly the messages from the old expected number to the new one.
  pub hear-Heard :
      (accepts : ℕ → Bool) (g : GoBackN T A) (ds : List (Datagram T A))
      → ((k : ℕ) → accepts k ≡ true)
      → g.died ≡ none
      → ((a : A) → get_or g.receiver.expected a 0 + length ds < 0x1_0000_0000)
      → All (λ d. Comes msg d.raw d.from) ds
      → Heard 0 g (hear accepts g ds)
  hear-Heard accepts g [] all alive lt comes =
      unfold hear in
      record {
        alive = alive;
        below_limit = λ a. omega (arith, lt a);
        grows = λ a. Grows-refl (msg a) a g.receiver;
      }
  hear-Heard accepts g (d ∷ ds) all alive lt comes =
      let one = Heard-one accepts (length ds) g d all alive (λ a. omega (arith, lt a)) comes.0 in
      let rest =
        hear-Heard accepts (handle_incoming accepts g d.raw d.from d.got_at) ds all one.alive
          one.below_limit comes.1 in
      rw (hear_next accepts g d ds one.alive) (record {
        alive = rest.alive;
        below_limit = rest.below_limit;
        grows = λ a. Grows-trans (msg a) a g.receiver _ _ (one.grows a) (rest.grows a);
      })
