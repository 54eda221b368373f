-- ===== src/GoBackN/Receiver/Prefix.antt =====
-- The receiver hands over the messages of a peer in their order, without gaps or repetitions.
use udp_arq_lab.Prelude.{
  ℕ, zero, suc, ◌+◌, ◌<◌, ◌≡◌, refl, sym, ap, ◌∙◌, inl, inr, Bool, true, Option, none, some, List,
  [], ◌∷◌, ◌++◌, append_assoc, append-nil, arith, length, All, ◌==◌, ==_iff, if◌then◌else◌,
  Bool-cases,
}
use udp_arq_lab.Prelude.Dict.{get_or-put, Eq, get_or, put}
use udp_arq_lab.Prelude.Result.{ok}
use udp_arq_lab.Packet.{Header}
use udp_arq_lab.Wire.{ack_packet}
use udp_arq_lab.Wire.Sound.{ack_packet-Carries}
use udp_arq_lab.GoBackN.State.{Receiver}
use udp_arq_lab.GoBackN.Receiver.{Reception, deliver, acknowledge, on_data}
use udp_arq_lab.Sliding.{Link}
use udp_arq_lab.Sliding.Peers.{sent, sent_lem}

-- A DATA packet that passed the tests, with the peer that it came from.
pub record Data (A : Type 0) : Type 0 where
  pub from : A
  pub header : Header
  pub payload : List ℕ

-- The payloads `msg n`, `msg (n + 1)`, …, so many of them
abbrev pub messages : (ℕ → List ℕ) → ℕ → ℕ → List (List ℕ)
messages msg n zero = []
messages msg n (suc k) = msg n ∷ messages msg (n + 1) k

pub messages_cong :
    (msg : ℕ → List ℕ) (n n' k k' : ℕ) → n ≡ n' → k ≡ k' → messages msg n k ≡ messages msg n' k'
messages_cong msg n n' k k' x y = cc

pub messages-append :
    (msg : ℕ → List ℕ) (n k l : ℕ)
    → messages msg n k ++ messages msg (n + k) l ≡ messages msg n (k + l)
messages-append msg n zero l = messages_cong msg _ _ _ _ (omega arith) (omega arith)
messages-append msg n (suc k) l =
    ap (λ ms. msg n ∷ (messages msg (n + 1) k ++ ms))
      (messages_cong msg _ (n + 1 + k) l l (omega arith) refl)
    ∙ ap (λ ms. msg n ∷ ms) (messages-append msg (n + 1) k l)
    ∙ messages_cong msg n n (suc (k + l)) (suc k + l) refl (omega arith)

module _ {A : Type 0} ⦃e : Eq A⦄ where
  -- What the queue holds from one peer.
  unfoldable pub payloads_of : A → List (List ℕ × A) → List (List ℕ)
  payloads_of addr [] = []
  payloads_of addr ((p, a) ∷ q) =
      let rest = payloads_of addr q in if e.beq a addr then p ∷ rest else rest

  -- The background thread on one DATA packet after the other, until an exception ends it.
  unfoldable pub feed : (ℕ → Bool) → Receiver A → Link A → List (Data A) → Reception A
  feed accepts r link [] = record { receiver = r; link = link; died = none }
  feed accepts r link (d ∷ more) =
      let q = on_data accepts r link d.from d.header d.payload in
      elim q.died [ some x ↦ q | none ↦ feed accepts q.receiver q.link more ]

  -- The receiver behind one DATA packet.
  abbrev pub step : Receiver A → Data A → Receiver A
  step r d =
      if d.header.seq == get_or r.expected d.from 0
      then record {
        expected = put r.expected d.from (get_or r.expected d.from 0 + 1);
        incoming = r.incoming ++ (d.payload, d.from) ∷ [];
      }
      else r

  acknowledge-deliver :
      (accepts : ℕ → Bool) (r : Receiver A) (link : Link A) (addr : A) (n : ℕ) (buf : List ℕ)
      (p : Option (List ℕ))
      → ack_packet n ≡ ok buf
      → accepts link.sends ≡ true
      → acknowledge accepts r link addr n p ≡ deliver accepts r addr p (sent link buf addr, true)
  unfolding acknowledge
  acknowledge-deliver accepts r link addr n buf p b h =
      rw (acknowledge, b, sent_lem accepts link buf addr h)

  pub on_data-step :
      (accepts : ℕ → Bool) (r : Receiver A) (link : Link A) (d : Data A)
      → ((n : ℕ) → accepts n ≡ true)
      → get_or r.expected d.from 0 + 1 < 0x1_0000_0000
      → (link' : Link A) × (on_data accepts r link d.from d.header d.payload
          ≡ record { receiver = step r d; link = link'; died = none })
  unfolding on_data deliver
  on_data-step accepts r link d all lt =
      let n = get_or r.expected d.from 0 in
      let (a, ea, ca) = ack_packet-Carries n (omega arith) in
      let (b, eb, cb) = ack_packet-Carries (n + 1) lt in
      elim (Bool-cases (d.header.seq == get_or r.expected d.from 0)) [
        | inl t ↦ (
          sent link b d.from,
          rw
              (
                t,
                acknowledge-deliver accepts _ link d.from (n + 1) b (some d.payload) eb
                    (all link.sends),
              )
              refl,
        )
        | inr t ↦ (
          sent link a d.from,
          rw (t, acknowledge-deliver accepts r link d.from n a none ea (all link.sends)) refl,
        )
      ]

  pub payloads_of-snoc :
      (addr : A) (q : List (List ℕ × A)) (p : List ℕ) (a : A)
      → payloads_of addr (q ++ (p, a) ∷ [])
        ≡ (if e.beq a addr then payloads_of addr q ++ p ∷ [] else payloads_of addr q)
  unfolding payloads_of
  payloads_of-snoc addr [] p a = ground arith
  payloads_of-snoc addr ((p', a') ∷ q) p a = ground (arith, payloads_of-snoc addr q p a)

  -- From `r` to `r'` the peer's expected number grew by `k`, and the queue by the `k` messages.
  pub record Grows (msg : ℕ → List ℕ) (addr : A) (r r' : Receiver A) : Type 0 where
    pub k : ℕ
    pub expected_eq : get_or r'.expected addr 0 ≡ get_or r.expected addr 0 + k
    pub incoming_eq :
        payloads_of addr r'.incoming
        ≡ payloads_of addr r.incoming ++ messages msg (get_or r.expected addr 0) k

  pub grows :
      (msg : ℕ → List ℕ) (addr : A) (r r' : Receiver A) (k : ℕ)
      → get_or r'.expected addr 0 ≡ get_or r.expected addr 0 + k
      → payloads_of addr r'.incoming
        ≡ payloads_of addr r.incoming ++ messages msg (get_or r.expected addr 0) k
      → Grows msg addr r r'
  grows msg addr r r' k x y = record { k = k; expected_eq = x; incoming_eq = y }

  pub Grows-refl : (msg : ℕ → List ℕ) (addr : A) (r : Receiver A) → Grows msg addr r r
  Grows-refl msg addr r = grows msg addr r r 0 (omega arith) (sym (append-nil _))

  accepted-Grows :
      (msg : ℕ → List ℕ) (addr : A) (r : Receiver A) (d : Data A)
      → (e.beq d.from addr ≡ true → d.payload ≡ msg d.header.seq)
      → d.header.seq ≡ get_or r.expected d.from 0
      → Grows msg addr r (record {
        expected = put r.expected d.from (get_or r.expected d.from 0 + 1);
        incoming = r.incoming ++ (d.payload, d.from) ∷ [];
      })
  accepted-Grows msg addr r d genuine eq = elim (Bool-cases (e.beq d.from addr)) [
    | inl t ↦
        grows msg addr r _ 1
          (ground (
            arith,
            get_or-put r.expected d.from (get_or r.expected d.from 0 + 1) addr 0,
            e.beq_iff d.from addr,
          ))
          (rw (payloads_of-snoc addr r.incoming d.payload d.from, t)
            (ap (λ p. payloads_of addr r.incoming ++ p ∷ [])
              (genuine t
                ∙ ap msg (eq ∙ ap (λ a. get_or r.expected a 0) ((e.beq_iff d.from addr).0 t)))))
    | inr t ↦
        grows msg addr r _ 0
          (ground (arith, get_or-put r.expected d.from (get_or r.expected d.from 0 + 1) addr 0))
          (rw (payloads_of-snoc addr r.incoming d.payload d.from, t) (sym (append-nil _)))
  ]

  pub step-Grows :
      (msg : ℕ → List ℕ) (addr : A) (r : Receiver A) (d : Data A)
      → (e.beq d.from addr ≡ true → d.payload ≡ msg d.header.seq)
      → Grows msg addr r (step r d)
  step-Grows msg addr r d genuine = elim (Bool-cases (d.header.seq == get_or r.expected d.from 0)) [
    | inl t ↦ rw t (
        accepted-Grows msg addr r d genuine
          ((==_iff d.header.seq (get_or r.expected d.from 0)).0 t))
    | inr t ↦ rw t (Grows-refl msg addr r)
  ]

  pub Grows-trans :
      (msg : ℕ → List ℕ) (addr : A) (r s t : Receiver A)
      → Grows msg addr r s
      → Grows msg addr s t
      → Grows msg addr r t
  Grows-trans msg addr r s t x y =
      grows msg addr r t (x.k + y.k) (omega (arith, x.expected_eq, y.expected_eq)) (
        y.incoming_eq
        ∙ ap (λ q. q ++ messages msg (get_or s.expected addr 0) y.k) x.incoming_eq
        ∙ append_assoc (payloads_of addr r.incoming) _ _
        ∙ ap
            (λ i.
              payloads_of addr r.incoming
              ++ (messages msg (get_or r.expected addr 0) x.k ++ messages msg i y.k))
            x.expected_eq
        ∙ ap (λ q. payloads_of addr r.incoming ++ q)
            (messages-append msg (get_or r.expected addr 0) x.k y.k))

  pub step_bound :
      (r : Receiver A) (d : Data A) (n : ℕ)
      → ((a : A) → get_or r.expected a 0 + (n + 1) < 0x1_0000_0000)
      → (a : A) → get_or (step r d).expected a 0 + n < 0x1_0000_0000
  step_bound r d n lt a = elim (Bool-cases (d.header.seq == get_or r.expected d.from 0)) [
    | inl t ↦ rw t (
        ground (
          arith,
          get_or-put r.expected d.from (get_or r.expected d.from 0 + 1) a 0,
          lt a,
          lt d.from,
        ))
    | inr t ↦ rw t (ground (arith, lt a))
  ]

  after_data : (ℕ → Bool) → List (Data A) → Reception A → Reception A
  after_data accepts ds q = elim q.died [ some x ↦ q | none ↦ feed accepts q.receiver q.link ds ]

  feed-next :
      (accepts : ℕ → Bool) (r r' : Receiver A) (link link' : Link A) (d : Data A)
      (ds : List (Data A))
      → on_data accepts r link d.from d.header d.payload
        ≡ record { receiver = r'; link = link'; died = none }
      → feed accepts r link (d ∷ ds) ≡ feed accepts r' link' ds
  unfolding feed after_data
  feed-next accepts r r' link link' d ds eq = ap (after_data accepts ds) eq

  -- While the channel takes every ACK and the numbers stay below 2^32, the background thread
  -- survives every list of DATA packets, from any peers and in any order. Where the packets of
  -- the peer `addr` carry the messages `msg` by number, the queue then holds, of that peer, what
  -- it held before and then exactly the messages from the old expected number to the new one.
  pub feed-Grows :
      (accepts : ℕ → Bool) (msg : ℕ → List ℕ) (addr : A) (ds : List (Data A)) (r : Receiver A)
      (link : Link A)
      → ((n : ℕ) → accepts n ≡ true)
      → ((a : A) → get_or r.expected a 0 + length ds < 0x1_0000_0000)
      → All (λ d. e.beq d.from addr ≡ true → d.payload ≡ msg d.header.seq) ds
      → ((feed accepts r link ds).died ≡ none) × Grows msg addr r (feed accepts r link ds).receiver
  unfolding feed
  feed-Grows accepts msg addr [] r link all lt genuine = (refl, Grows-refl msg addr r)
  feed-Grows accepts msg addr (d ∷ ds) r link all lt genuine =
      let (link', eq) = on_data-step accepts r link d all (omega (arith, lt d.from)) in
      let (alive, rest) =
        feed-Grows accepts msg addr ds (step r d) link' all
          (step_bound r d (length ds) (λ a. omega (arith, lt a))) genuine.1 in
      rw (feed-next accepts r (step r d) link link' d ds eq)
        (alive, Grows-trans msg addr r (step r d) _ (step-Grows msg addr r d genuine.0) rest)
