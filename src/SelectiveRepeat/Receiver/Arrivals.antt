-- ===== src/SelectiveRepeat/Receiver/Arrivals.antt =====
-- The background thread on the raw packets of other transports, in any order.
use mathlib.Core.Path.{subst}
use udp_arq_lab.Prelude.{
  ℕ, ◌+◌, ◌<◌, ◌≡◌, refl, sym, ap, ◌∙◌, Bool, true, false, Option, none, some, List, [], ◌∷◌,
  length, All,
}
use udp_arq_lab.Prelude.Dict.{nat_eq_inst, Eq, get_or}
use udp_arq_lab.Prelude.Float.{Float}
use udp_arq_lab.Prelude.Result.{ok}
use udp_arq_lab.Packet.{Header, flag_data}
use udp_arq_lab.Checksum.{verify}
use udp_arq_lab.Wire.{header_of, data_packet, ack_packet}
use udp_arq_lab.Wire.Sound.{Carries-of_data, Carries-of_ack}
use udp_arq_lab.StopAndWait.{parse}
use udp_arq_lab.StopAndWait.Receiving.{parse_of_Carries}
use udp_arq_lab.Sliding.{ThreadError}
use udp_arq_lab.GoBackN.Receiver.Prefix.{Grows-refl, Grows-trans}
use udp_arq_lab.Sliding.Peers.{sent}
use udp_arq_lab.GoBackN.Receiver.Arrivals.{Datagram}
use udp_arq_lab.SelectiveRepeat.State.{SelectiveRepeat}
use udp_arq_lab.SelectiveRepeat.Receiver.{on_data, ack_number}
use udp_arq_lab.SelectiveRepeat.Receiver.Peers.{
  last_number, in_order, Held, IsOrderly, Progress, on_data-step, step, IsAnswered, step-IsAnswered,
  step-Progress, step_takes,
}
use udp_arq_lab.SelectiveRepeat.Calls.{received}
use udp_arq_lab.SelectiveRepeat.Loop.{dispatch, handle_incoming}

module _ {T A : Type 0} ⦃f : Float T⦄ ⦃e : Eq A⦄ (accepts : ℕ → Bool) where
  -- `_handle_incoming` on one datagram after the other, until an exception ends the thread.
  unfoldable pub hear : SelectiveRepeat T A → List (Datagram T A) → SelectiveRepeat T A
  hear g [] = g
  hear g (d ∷ ds) =
      let h = handle_incoming accepts g d.raw d.from d.got_at in
      elim h.died [ some x ↦ h | none ↦ hear h ds ]

  hear_on : List (Datagram T A) → SelectiveRepeat T A → Option ThreadError → SelectiveRepeat T A
  hear_on ds h died = elim died [ some x ↦ h | none ↦ hear h ds ]

  pub hear_next :
      (g : SelectiveRepeat T A) (d : Datagram T A) (ds : List (Datagram T A))
      → (handle_incoming accepts g d.raw d.from d.got_at).died ≡ none
      → hear g (d ∷ ds) ≡ hear (handle_incoming accepts g d.raw d.from d.got_at) ds
  unfolding hear hear_on
  hear_next g d ds alive = ap (hear_on ds (handle_incoming accepts g d.raw d.from d.got_at)) alive

  handle_incoming_data :
      (g : SelectiveRepeat T A) (seq : ℕ) (payload raw : List ℕ) (addr : A) (now : T)
      → data_packet seq payload ≡ ok raw
      → (header : Header) × (header.seq ≡ seq)
        × (handle_incoming accepts g raw addr now
            ≡ received g
                (on_data accepts g.config.window_size g.receiver g.link addr header payload))
  unfolding handle_incoming dispatch
  handle_incoming_data g seq payload raw addr now built =
      let c = Carries-of_data seq payload raw built in
      (
        record (header_of seq 0 flag_data (length payload)) { checksum = c.sum },
        refl,
        rw (handle_incoming, parse_of_Carries c) refl,
      )

  -- An ACK leaves the receiver alone.
  pub handle_incoming_ack :
      (g : SelectiveRepeat T A) (ack : ℕ) (raw : List ℕ) (addr : A) (now : T)
      → ack_packet ack ≡ ok raw
      → ((handle_incoming accepts g raw addr now).receiver ≡ g.receiver)
        × ((handle_incoming accepts g raw addr now).config ≡ g.config)
        × ((handle_incoming accepts g raw addr now).died ≡ g.died)
        × ((handle_incoming accepts g raw addr now).link ≡ g.link)
  unfolding handle_incoming dispatch
  handle_incoming_ack g ack raw addr now built =
      let c = Carries-of_ack ack raw built in
      (
        rw (handle_incoming, parse_of_Carries c) refl,
        rw (handle_incoming, parse_of_Carries c) refl,
        rw (handle_incoming, parse_of_Carries c) refl,
        rw (handle_incoming, parse_of_Carries c) refl,
      )

  -- Damaged bytes are ignored.
  pub handle_incoming_damaged :
      (g : SelectiveRepeat T A) (raw : List ℕ) (addr : A) (now : T)
      → verify raw ≡ false
      → handle_incoming accepts g raw addr now ≡ g
  unfolding handle_incoming parse
  handle_incoming_damaged g raw addr now h = rw (handle_incoming, parse, h) refl

-- What a peer's channel hands over: damaged bytes, an ACK packet, or the packet of one of its
-- messages, whose number has an ACK.
pub data Arrives {A : Type 0} (msg : A → ℕ → List ℕ) (raw : List ℕ) (from : A) : Type 0 where
  damaged : verify raw ≡ false → Arrives msg raw from
  is_ack : (ack : ℕ) → ack_packet ack ≡ ok raw → Arrives msg raw from
  is_data :
      (seq : ℕ) → seq < last_number → data_packet seq (msg from seq) ≡ ok raw → Arrives msg raw from

module _ {T A : Type 0} ⦃f : Float T⦄ ⦃e : Eq A⦄ (msg : A → ℕ → List ℕ) where
  -- From `g` to `h` the thread lives on, the receiver went on in order, and it acknowledged no
  -- packet but those that it received.
  pub record Progresses (g h : SelectiveRepeat T A) : Type 0 where
    pub alive : h.died ≡ none
    pub configured : h.config ≡ g.config
    pub progress : Progress msg g.receiver h.receiver
    pub answers :
        (a : A) → IsAnswered a g.receiver g.link.wire → IsAnswered a h.receiver h.link.wire

  Progresses-same :
      (g h : SelectiveRepeat T A)
      → h.died ≡ none
      → h.config ≡ g.config
      → h.receiver ≡ g.receiver
      → h.link ≡ g.link
      → IsOrderly msg g.receiver
      → Progresses g h
  Progresses-same g h alive configured same link o = record {
    answers = λ a x. rw (same, link) x;
    alive = alive;
    configured = configured;
    progress =
        subst (λ r. Progress msg g.receiver r) (sym same)
          (record {
            orderly = o;
            grown = λ a. Grows-refl (msg a) a (in_order g.receiver);
            keeps = λ a n h. h;
          });
  }

  Progresses-trans :
      (g h i : SelectiveRepeat T A) → Progresses g h → Progresses h i → Progresses g i
  Progresses-trans g h i x y = record {
    alive = y.alive;
    configured = y.configured ∙ x.configured;
    answers = λ a h. y.answers a (x.answers a h);
    progress = record {
      orderly = y.progress.orderly;
      grown = λ a.
          Grows-trans (msg a) a (in_order g.receiver) (in_order h.receiver) (in_order i.receiver)
            (x.progress.grown a) (y.progress.grown a);
      keeps = λ a n held. y.progress.keeps a n (x.progress.keeps a n held);
    };
  }

  module _ (accepts : ℕ → Bool) (all : (k : ℕ) → accepts k ≡ true) where
    -- The packet of a message, with the ACK that it is answered with.
    pub handle_incoming-step :
        (g : SelectiveRepeat T A) (d : Datagram T A) (seq : ℕ)
        → IsOrderly msg g.receiver
        → seq < last_number
        → data_packet seq (msg d.from seq) ≡ ok d.raw
        → (buf : List ℕ) × (ack_packet
              (ack_number g.config.window_size (get_or g.receiver.expected d.from 0) seq)
            ≡ ok buf)
          × (handle_incoming accepts g d.raw d.from d.got_at ≡ record g {
            receiver = step g.config.window_size g.receiver d.from seq (msg d.from seq);
            link = sent g.link buf d.from;
            died = none;
          })
    unfolding received
    handle_incoming-step g d seq o lt built =
        let (header, same, eq) =
          handle_incoming_data accepts g seq (msg d.from seq) d.raw d.from d.got_at built in
        let w = g.config.window_size in
        let (buf, acked, stepped) =
          on_data-step accepts w g.receiver g.link d.from header (msg d.from seq) all (rw same lt)
            (o.below d.from).expected_le in
        (
          buf,
          ap (λ n. ack_packet (ack_number w (get_or g.receiver.expected d.from 0) n)) (sym same)
              ∙ acked,
          eq
              ∙ ap (received g) stepped
              ∙ ap
                  (λ n. record g {
                    receiver = step w g.receiver d.from n (msg d.from seq);
                    link = sent g.link buf d.from;
                    died = none;
                  })
                  same,
        )

    pub Progresses-data :
        (g : SelectiveRepeat T A) (d : Datagram T A) (seq : ℕ)
        → IsOrderly msg g.receiver
        → seq < last_number
        → data_packet seq (msg d.from seq) ≡ ok d.raw
        → Progresses g (handle_incoming accepts g d.raw d.from d.got_at)
          × (seq < get_or g.receiver.expected d.from 0 + g.config.window_size
              → Held (handle_incoming accepts g d.raw d.from d.got_at).receiver d.from seq)
    Progresses-data g d seq o lt built =
        let w = g.config.window_size in
        let (buf, acked, here) = handle_incoming-step g d seq o lt built in
        (
          subst (λ h. Progresses g h) (sym here)
              (record {
                alive = refl;
                configured = refl;
                progress = step-Progress msg w g.receiver d.from seq (msg d.from seq) o refl lt;
                answers = λ a h.
                    step-IsAnswered msg w g.receiver d.from seq (msg d.from seq) o refl a
                      g.link.wire buf acked h;
              }),
          λ inside.
              subst (λ h. Held h.receiver d.from seq) (sym here)
                (step_takes msg w g.receiver d.from seq (msg d.from seq) o refl inside),
        )

    pub Progresses-one :
        (g : SelectiveRepeat T A) (d : Datagram T A)
        → g.died ≡ none
        → IsOrderly msg g.receiver
        → Arrives msg d.raw d.from
        → Progresses g (handle_incoming accepts g d.raw d.from d.got_at)
    Progresses-one g d alive o (damaged bad) =
        rw (handle_incoming_damaged accepts g d.raw d.from d.got_at bad)
          (Progresses-same g g alive refl refl refl o)
    Progresses-one g d alive o (is_ack ack built) =
        let (same, config, died, link) =
          handle_incoming_ack accepts g ack d.raw d.from d.got_at built in
        Progresses-same g _ (died ∙ alive) config same link o
    Progresses-one g d alive o (is_data seq lt built) = (Progresses-data g d seq o lt built).0

    -- While the channel takes every ACK, and no message has the number 2^32 - 1: on any datagrams,
    -- each of them damaged so that `verify` rejects it, or an ACK packet, or the packet of one of
    -- its sender's messages, in any order and number, the background thread survives; for every
    -- peer the queue of payloads grows by exactly the messages from the old expected number to the
    -- new one; the buffers hold messages of their peers and never the next one; no packet that was
    -- received is lost; and no ACK that is sent names a packet that was not received.
    pub hear-Progresses :
        (g : SelectiveRepeat T A) (ds : List (Datagram T A))
        → g.died ≡ none
        → IsOrderly msg g.receiver
        → All (λ d. Arrives msg d.raw d.from) ds
        → Progresses g (hear accepts g ds)
    hear-Progresses g [] alive o comes = unfold hear in Progresses-same g g alive refl refl refl o
    hear-Progresses g (d ∷ ds) alive o comes =
        let one = Progresses-one g d alive o comes.0 in
        rw (hear_next accepts g d ds one.alive) (
          Progresses-trans g (handle_incoming accepts g d.raw d.from d.got_at) _ one (
            hear-Progresses (handle_incoming accepts g d.raw d.from d.got_at) ds one.alive
              one.progress.orderly comes.1))
