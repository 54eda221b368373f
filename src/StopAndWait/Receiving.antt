-- ===== src/StopAndWait/Receiving.antt =====
-- The receiver: each datagram of the stream is returned once, in order.
use mathlib.Core.Logic.{◌≢◌}
use udp_arq_lab.Prelude.{
  Bool, true, ℕ, zero, suc, ◌<◌, ◌≤◌, ◌≡◌, refl, ap, ◌∙◌, none, some, List, [], ◌∷◌, arith, length,
  ◌==◌, if◌then◌else◌,
}
use udp_arq_lab.Prelude.Dict.{get_or-put, Dict, Eq, get_or, put, beq_refl}
use udp_arq_lab.Prelude.Result.{ok}
use udp_arq_lab.Packet.{Header}
use udp_arq_lab.Wire.{data_packet, ack_packet}
use udp_arq_lab.Wire.Sound.{Carries, Carries-of_data, ack_packet-Carries}
use udp_arq_lab.Sliding.{Link}
use udp_arq_lab.Sliding.Peers.{sent, sent_lem}
use udp_arq_lab.StopAndWait.{
  parse, flip, replied, on_data, on_parsed, on_datagram, timed_out, raised, returned, recv_loop,
  recvfrom, recv_all, Reading, datagram,
}

pub parse_of_Carries :
    {buf : List ℕ} {h : Header} {p : List ℕ} (c : Carries buf h p)
    → parse buf ≡ some (record h { checksum = c.sum }, p)
unfolding parse
parse_of_Carries c = rw (c.verified, c.decoded)

flip_bit_lem : (bit : ℕ) → bit < 2 → (flip bit < 2) × (flip bit ≢ bit)
flip_bit_lem zero h = omega arith
flip_bit_lem (suc zero) h = omega arith
flip_bit_lem (suc (suc b)) h = absurd (omega arith)

bit_ack : (bit : ℕ) → bit < 2 → (ack : List ℕ) × (ack_packet bit ≡ ok ack)
bit_ack bit lt = let (ack, e, c) = ack_packet-Carries bit (omega arith) in (ack, e)

flip-flip : (bit : ℕ) → bit < 2 → flip (flip bit) ≡ bit
flip-flip zero h = refl
flip-flip (suc zero) h = refl
flip-flip (suc (suc b)) h = absurd (omega arith)

module _ {A : Type 0} ⦃e : Eq A⦄ where
  -- The DATA packet of the expected number is accepted, that of another number is not.
  on_datagram-data :
      (rb : Dict A ℕ) (addr : A) (seq : ℕ) (p raw : List ℕ)
      → data_packet seq p ≡ ok raw
      → on_datagram rb (raw, addr) ≡ (
          if seq == get_or rb addr 0
          then replied
              (put rb addr (flip (get_or rb addr 0)))
              (ack_packet (flip (get_or rb addr 0)))
              (some p)
          else replied rb (ack_packet (get_or rb addr 0)) none)
  unfolding on_datagram on_parsed on_data
  on_datagram-data rb addr seq p raw b = rw (parse_of_Carries (Carries-of_data seq p raw b))

  on_datagram_fresh :
      (rb : Dict A ℕ) (addr : A) (p raw : List ℕ)
      → data_packet (get_or rb addr 0) p ≡ ok raw
      → on_datagram rb (raw, addr)
        ≡ replied
            (put rb addr (flip (get_or rb addr 0)))
            (ack_packet (flip (get_or rb addr 0)))
            (some p)
  on_datagram_fresh rb addr p raw b =
      on_datagram-data rb addr (get_or rb addr 0) p raw b ∙ ground (arith, get_or rb addr 0)

  on_datagram_again :
      (rb : Dict A ℕ) (addr : A) (seq : ℕ) (p raw : List ℕ)
      → data_packet seq p ≡ ok raw
      → seq ≢ get_or rb addr 0
      → on_datagram rb (raw, addr) ≡ replied rb (ack_packet (get_or rb addr 0)) none
  on_datagram_again rb addr seq p raw b n = on_datagram-data rb addr seq p raw b ∙ ground arith

-- `n` copies of a datagram in front of others
abbrev pub copies : {A : Type 0} → ℕ → List ℕ → A → List (Reading A) → List (Reading A)
copies zero raw addr rest = rest
copies (suc n) raw addr rest = datagram raw addr ∷ copies n raw addr rest

-- A message with its packet, and how many copies of the packet arrive besides the first.
pub record Message : Type 0 where
  pub payload : List ℕ
  pub raw : List ℕ
  pub extra : ℕ

abbrev pub payloads : List Message → List (List ℕ)
payloads [] = []
payloads (m ∷ ms) = m.payload ∷ payloads ms

-- The packets are built with the numbers `bit`, `bit ^ 1`, `bit`, …
abbrev pub Alternate : ℕ → List Message → Type 0
Alternate bit [] = Unit
Alternate bit (m ∷ ms) = (data_packet bit m.payload ≡ ok m.raw) × Alternate (flip bit) ms

module _ {A : Type 0} where
  abbrev pub stream : A → List Message → List (Reading A)
  stream addr [] = []
  stream addr (m ∷ ms) = datagram m.raw addr ∷ copies m.extra m.raw addr (stream addr ms)

module _ {A : Type 0} ⦃e : Eq A⦄ (accepts : ℕ → Bool) (all : (n : ℕ) → accepts n ≡ true) where
  no_more : (rb : Dict A ℕ) (link : Link A) → recv_loop accepts rb [] link ≡ timed_out rb link
  unfolding recv_loop
  no_more rb link = refl

  fresh_round :
      (rb : Dict A ℕ) (addr : A) (p raw ack : List ℕ) (rest : List (Reading A)) (link : Link A)
      → data_packet (get_or rb addr 0) p ≡ ok raw
      → ack_packet (flip (get_or rb addr 0)) ≡ ok ack
      → recv_loop accepts rb (datagram raw addr ∷ rest) link
        ≡ returned p addr (put rb addr (flip (get_or rb addr 0))) (sent link ack addr) rest
  unfolding recv_loop
  fresh_round rb addr p raw ack rest link b a =
      rw
        (
          recv_loop,
          on_datagram_fresh rb addr p raw b,
          a,
          ap (λ x. x.1) (sent_lem accepts link ack addr (all link.sends)),
          ap (λ x. x.0) (sent_lem accepts link ack addr (all link.sends)),
        )
        refl

  -- Copies of the message before are acknowledged and passed over.
  recv_loop-copies :
      (n : ℕ) (rb : Dict A ℕ) (addr : A) (seq : ℕ) (p raw ack : List ℕ) (rest : List (Reading A))
      (link : Link A)
      → data_packet seq p ≡ ok raw
      → seq ≢ get_or rb addr 0
      → ack_packet (get_or rb addr 0) ≡ ok ack
      → (link' : Link A) × (recv_loop accepts rb (copies n raw addr rest) link
          ≡ recv_loop accepts rb rest link')
  unfolding recv_loop
  recv_loop-copies zero rb addr seq p raw ack rest link b n a = (link, refl)
  recv_loop-copies (suc k) rb addr seq p raw ack rest link b n a =
      let (link', ih) = recv_loop-copies k rb addr seq p raw ack rest (sent link ack addr) b n a in
      (
        link',
        rw
            (
              recv_loop,
              on_datagram_again rb addr seq p raw b n,
              a,
              ap (λ x. x.1) (sent_lem accepts link ack addr (all link.sends)),
              ap (λ x. x.0) (sent_lem accepts link ack addr (all link.sends)),
            )
            ih,
      )

  next_bit :
      (rb : Dict A ℕ) (addr : A) (bit : ℕ) → get_or (put rb addr (flip bit)) addr 0 ≡ flip bit
  next_bit rb addr bit = rw (get_or-put rb addr (flip bit) addr 0, beq_refl addr)

  skip :
      (n : ℕ) (rb : Dict A ℕ) (addr : A) (bit : ℕ) (p raw ack : List ℕ) (rest : List (Reading A))
      (link : Link A)
      → get_or rb addr 0 ≡ bit
      → bit < 2
      → data_packet (flip bit) p ≡ ok raw
      → ack_packet bit ≡ ok ack
      → (link' : Link A) × (recv_loop accepts rb (copies n raw addr rest) link
          ≡ recv_loop accepts rb rest link')
  skip n rb addr bit p raw ack rest link g lt b a =
      recv_loop-copies n rb addr (flip bit) p raw ack rest link b (rw g (flip_bit_lem bit lt).1)
        (rw g a)

  -- The first message of the stream, given what follows it behind any ACKs.
  first_of_stream :
      (calls : ℕ) (m : Message) (ms : List Message) (rb : Dict A ℕ) (addr : A) (bit : ℕ)
      (link : Link A)
      → get_or rb addr 0 ≡ bit
      → bit < 2
      → Alternate bit (m ∷ ms)
      → ((l : Link A)
          → recv_all accepts calls
              (put rb addr (flip bit))
              (copies m.extra m.raw addr (stream addr ms))
              l
            ≡ payloads ms)
      → (elim (recv_loop accepts rb (stream addr (m ∷ ms)) link) as (λ x. List (List ℕ)) [
        | timed_out bits l ↦ []
        | raised bits x l ↦ []
        | returned payload from bits l more ↦ payload ∷ recv_all accepts calls bits more l
      ])
        ≡ payloads (m ∷ ms)
  first_of_stream calls m ms rb addr bit link g lt alt ih =
      let (ack, a) = bit_ack (flip bit) (flip_bit_lem bit lt).0 in
      rw
        (
          fresh_round rb addr m.payload m.raw ack (copies m.extra m.raw addr (stream addr ms)) link
              (rw g alt.0) (rw g a),
          g,
        )
        (ap (λ ps. m.payload ∷ ps) (ih (sent link ack addr)))

  -- The state between two messages: copies of the message before may still arrive.
  after_message :
      (calls : ℕ) (ms : List Message) (rb : Dict A ℕ) (addr : A) (bit n : ℕ) (p raw : List ℕ)
      (link : Link A)
      → get_or rb addr 0 ≡ bit
      → bit < 2
      → data_packet (flip bit) p ≡ ok raw
      → Alternate bit ms
      → length ms ≤ calls
      → recv_all accepts calls rb (copies n raw addr (stream addr ms)) link ≡ payloads ms
  unfolding recv_all recvfrom
  after_message zero [] rb addr bit n p raw link g lt b alt l = refl
  after_message zero (m ∷ ms) rb addr bit n p raw link g lt b alt l = absurd (omega arith)
  after_message (suc calls) [] rb addr bit n p raw link g lt b alt l =
      let (ack, a) = bit_ack bit lt in
      let (link', e) = skip n rb addr bit p raw ack [] link g lt b a in
      rw (recv_all, e, no_more rb link')
  after_message (suc calls) (m ∷ ms) rb addr bit n p raw link g lt b alt l =
      let (ack, a) = bit_ack bit lt in
      let (link', e) = skip n rb addr bit p raw ack (stream addr (m ∷ ms)) link g lt b a in
      rw (recv_all, e)
        (first_of_stream calls m ms rb addr bit link' g lt alt (λ l'.
          after_message calls ms (put rb addr (flip bit)) addr (flip bit) m.extra m.payload m.raw l'
            (next_bit rb addr bit) (flip_bit_lem bit lt).0 (rw (flip-flip bit lt) alt.0) alt.1
            (omega (arith, l))))

  -- While the channel takes every ACK and raises nothing but TimeoutError: the datagrams that a
  -- stop-and-wait sender puts on a channel that does not reorder are packets numbered `bit`,
  -- `bit ^ 1`, …, each arriving once or more before the next. An application that calls `recvfrom`
  -- as often as there are messages gets each message once, in order.
  pub recv_all-stream :
      (calls : ℕ) (ms : List Message) (rb : Dict A ℕ) (addr : A) (bit : ℕ) (link : Link A)
      → get_or rb addr 0 ≡ bit
      → bit < 2
      → Alternate bit ms
      → length ms ≤ calls
      → recv_all accepts calls rb (stream addr ms) link ≡ payloads ms
  unfolding recv_all recvfrom
  recv_all-stream zero [] rb addr bit link g lt alt l = refl
  recv_all-stream zero (m ∷ ms) rb addr bit link g lt alt l = absurd (omega arith)
  recv_all-stream (suc calls) [] rb addr bit link g lt alt l = rw (recv_all, no_more rb link)
  recv_all-stream (suc calls) (m ∷ ms) rb addr bit link g lt alt l =
      first_of_stream calls m ms rb addr bit link g lt alt (λ l'.
        after_message calls ms (put rb addr (flip bit)) addr (flip bit) m.extra m.payload m.raw l'
          (next_bit rb addr bit) (flip_bit_lem bit lt).0 (rw (flip-flip bit lt) alt.0) alt.1
          (omega (arith, l)))
