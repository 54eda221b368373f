-- ===== src/SelectiveRepeat/Receiver/Peers.antt =====
-- The receiver of all peers behind one DATA packet.
use mathlib.Core.Path.{subst}
use mathlib.Core.Logic.{inl, inr}
use udp_arq_lab.Prelude.{
  ℕ, ◌+◌, ◌≤◌, ◌<◌, ◌≡◌, refl, sym, ap, ◌∙◌, Bool, true, none, List, [], ◌∷◌, ◌++◌, map,
  append_assoc, append-nil, arith, if◌then◌else◌, Bool-cases, All, All-append,
}
use udp_arq_lab.Prelude.Dict.{nat_eq_inst, Dict, Eq, get, get_or, put, get_or-put, beq_refl}
use udp_arq_lab.Prelude.Result.{ok}
use udp_arq_lab.Packet.{Header}
use udp_arq_lab.Wire.{ack_packet}
use udp_arq_lab.Wire.Sound.{ack_packet-Carries}
use udp_arq_lab.Sliding.{Link, at}
use udp_arq_lab.Sliding.Peers.{at-put}
use udp_arq_lab.GoBackN.State as InOrder
use udp_arq_lab.GoBackN.Receiver.Prefix.{payloads_of, payloads_of-snoc, Grows, grows}
use udp_arq_lab.Sliding.Peers.{sent, sent_lem}
use udp_arq_lab.SelectiveRepeat.State.{Receiver}
use udp_arq_lab.SelectiveRepeat.Receiver.{
  Delivery, arrange, ack_number, deliver, acknowledge, on_data,
}
use udp_arq_lab.SelectiveRepeat.Receiver.Window.{IsGenuine, IsHeld}
use udp_arq_lab.SelectiveRepeat.Receiver.Arranged.{IsBelow, Arranged, arrange-Arranged}

-- The number that no packet carries: its ACK would not fit into 32 bits.
abbrev pub last_number : ℕ
last_number = 0xffff_ffff

ack_number-lt :
    (w expected seq : ℕ)
    → seq < last_number
    → expected ≤ last_number
    → ack_number w expected seq < 0x1_0000_0000
unfolding ack_number
ack_number-lt w expected seq lt le = ground arith

module _ {A : Type 0} ⦃e : Eq A⦄ where
  -- The half of the receiver that go_back_n.py has too.
  abbrev pub in_order : Receiver A → InOrder.Receiver A
  in_order r = record { expected = r.expected; incoming = r.incoming }

  -- Packet `n` of the peer was received.
  abbrev pub Held : Receiver A → A → ℕ → Type 0
  Held r a n = IsHeld (at r.buffer a) (get_or r.expected a 0) n

  abbrev pub arranged : ℕ → Receiver A → A → ℕ → List ℕ → Delivery
  arranged w r addr seq payload =
      arrange w (at r.buffer addr) (get_or r.expected addr 0) seq payload

  -- The receiver behind one DATA packet.
  abbrev pub step : ℕ → Receiver A → A → ℕ → List ℕ → Receiver A
  step w r addr seq payload =
      let d = arranged w r addr seq payload in
      record {
        expected = put r.expected addr d.expected;
        buffer = put r.buffer addr d.buffer;
        incoming = r.incoming ++ map (λ p. (p, addr)) d.queue;
      }

  acknowledge-deliver :
      (accepts : ℕ → Bool) (r : Receiver A) (link : Link A) (addr : A) (n : ℕ) (buf : List ℕ)
      (queue : List (List ℕ))
      → ack_packet n ≡ ok buf
      → accepts link.sends ≡ true
      → acknowledge accepts r link addr n queue
        ≡ deliver accepts r addr queue (sent link buf addr, true)
  unfolding acknowledge
  acknowledge-deliver accepts r link addr n buf queue b h =
      rw (acknowledge, b, sent_lem accepts link buf addr h)

  pub on_data-step :
      (accepts : ℕ → Bool) (w : ℕ) (r : Receiver A) (link : Link A) (addr : A) (header : Header)
      (payload : List ℕ)
      → ((n : ℕ) → accepts n ≡ true)
      → header.seq < last_number
      → get_or r.expected addr 0 ≤ last_number
      → (buf : List ℕ) × (ack_packet (ack_number w (get_or r.expected addr 0) header.seq) ≡ ok buf)
        × (on_data accepts w r link addr header payload ≡ record {
          receiver = step w r addr header.seq payload;
          link = sent link buf addr;
          died = none;
        })
  unfolding on_data deliver
  on_data-step accepts w r link addr header payload all lt le =
      let n = ack_number w (get_or r.expected addr 0) header.seq in
      let (buf, b, c) =
        ack_packet-Carries n (ack_number-lt w (get_or r.expected addr 0) header.seq lt le) in
      (buf, b, acknowledge-deliver accepts _ link addr n buf _ b (all link.sends))

  payloads_of-delivered :
      (a : A) (q : List (List ℕ × A)) (addr : A) (ps : List (List ℕ))
      → payloads_of a (q ++ map (λ p. (p, addr)) ps)
        ≡ (if e.beq addr a then payloads_of a q ++ ps else payloads_of a q)
  payloads_of-delivered a q addr [] =
      ap (payloads_of a) (append-nil q) ∙ (elim (Bool-cases (e.beq addr a)) [
        | inl t ↦ rw t (sym (append-nil (payloads_of a q)))
        | inr t ↦ rw t refl
      ])
  payloads_of-delivered a q addr (p ∷ ps) =
      ap (payloads_of a) (sym (append_assoc q ((p, addr) ∷ []) (map (λ p. (p, addr)) ps)))
      ∙ payloads_of-delivered a (q ++ (p, addr) ∷ []) addr ps
      ∙ (elim (Bool-cases (e.beq addr a)) [
        | inl t ↦ rw (payloads_of-snoc a q p addr, t) (append_assoc (payloads_of a q) (p ∷ []) ps)
        | inr t ↦ rw (payloads_of-snoc a q p addr, t) refl
      ])

module _ {A : Type 0} ⦃e : Eq A⦄ (msg : A → ℕ → List ℕ) where
  -- The buffers hold messages of their peers, the next message of no peer, and no late number.
  pub record IsOrderly (r : Receiver A) : Type 0 where
    pub genuine : (a : A) → IsGenuine (msg a) (at r.buffer a)
    pub next_missing : (a : A) → get (at r.buffer a) (get_or r.expected a 0) ≡ none
    pub below : (a : A) → IsBelow last_number (at r.buffer a) (get_or r.expected a 0)

  -- From `r` to `r'` each peer's queue grew by its next messages, and what was held is held.
  pub record Progress (r r' : Receiver A) : Type 0 where
    pub orderly : IsOrderly r'
    pub grown : (a : A) → Grows (msg a) a (in_order r) (in_order r')
    pub keeps : (a : A) (n : ℕ) → Held r a n → Held r' a n

module _ {A : Type 0} ⦃e : Eq A⦄ where
  -- Every packet that was sent to the peer is an ACK that names no packet but a received one.
  abbrev pub IsAnswered : A → Receiver A → List (List ℕ × A) → Type 0
  IsAnswered a r wire =
      All
        (λ x.
          e.beq x.1 a ≡ true
          → (ack : ℕ) × (ack_packet ack ≡ ok x.0) × ((n : ℕ) → ack ≡ n + 1 → Held r a n))
        wire

  pub IsAnswered-mono :
      (a : A) (r r' : Receiver A) (wire : List (List ℕ × A))
      → ((n : ℕ) → Held r a n → Held r' a n)
      → IsAnswered a r wire
      → IsAnswered a r' wire
  IsAnswered-mono a r r' [] more h = tt
  IsAnswered-mono a r r' (x ∷ wire) more h = (
    λ t. let (ack, built, knows) = h.0 t in (ack, built, λ n same. more n (knows n same)),
    IsAnswered-mono a r r' wire more h.1,
  )

module _ {A : Type 0} ⦃e : Eq A⦄ (P : A → Dict ℕ (List ℕ) → ℕ → Type 0) where
  at_peer :
      (r : Receiver A) (addr : A) (d : Delivery)
      → P addr d.buffer d.expected
      → P addr
          (at (put r.buffer addr d.buffer) addr)
          (get_or (put r.expected addr d.expected) addr 0)
  at_peer r addr d here =
      rw
        (
          at-put r.buffer addr d.buffer addr,
          get_or-put r.expected addr d.expected addr 0,
          beq_refl addr,
        )
        here

  -- What holds of the changed peer and held of all others holds of every peer.
  pub by_peer :
      (r : Receiver A) (addr : A) (d : Delivery)
      → P addr d.buffer d.expected
      → ((a : A) → P a (at r.buffer a) (get_or r.expected a 0))
      → (a : A)
      → P a (at (put r.buffer addr d.buffer) a) (get_or (put r.expected addr d.expected) a 0)
  by_peer r addr d here others a = elim (Bool-cases (e.beq addr a)) [
    | inl t ↦
        rw (at-put r.buffer addr d.buffer a, get_or-put r.expected addr d.expected a 0, t)
          (subst (λ b. P b d.buffer d.expected) ((e.beq_iff addr a).0 t) here)
    | inr t ↦
        rw (at-put r.buffer addr d.buffer a, get_or-put r.expected addr d.expected a 0, t)
          (others a)
  ]

module _ {A : Type 0} ⦃e : Eq A⦄ (msg : A → ℕ → List ℕ) (w : ℕ) (r : Receiver A) (addr : A)
    (seq : ℕ) (payload : List ℕ) where
  abbrev now : Delivery
  now = arranged w r addr seq payload

  module _ (o : IsOrderly msg r) (same : payload ≡ msg addr seq) where
    here : Arranged (msg addr) w (at r.buffer addr) (get_or r.expected addr 0) seq now
    here =
        arrange-Arranged (msg addr) w (at r.buffer addr) (get_or r.expected addr 0) seq payload same
          (o.genuine addr)

    step-Grows : (a : A) → Grows (msg a) a (in_order r) (in_order (step w r addr seq payload))
    step-Grows a = elim (Bool-cases (e.beq addr a)) [
      | inl t ↦
          subst (λ b. Grows (msg b) b (in_order r) (in_order (step w r addr seq payload)))
            ((e.beq_iff addr a).0 t)
            (grows (msg addr) addr _ _ here.k
              (get_or-put r.expected addr now.expected addr 0 ∙ rw (beq_refl addr) here.expected_eq)
              (payloads_of-delivered addr r.incoming addr now.queue
                ∙ rw (beq_refl addr) (ap (λ q. payloads_of addr r.incoming ++ q) here.queue_eq)))
      | inr t ↦
          grows (msg a) a _ _ 0 (ground (arith, get_or-put r.expected addr now.expected a 0)) (
            payloads_of-delivered a r.incoming addr now.queue
            ∙ rw t (sym (append-nil (payloads_of a r.incoming))))
    ]

    step-Held : (a : A) (n : ℕ) → Held r a n → Held (step w r addr seq payload) a n
    step-Held a n h =
        by_peer (λ a buffer expected. Held r a n → IsHeld buffer expected n) r addr now
          (here.keeps n) (λ a h. h) a h

    pub step-Progress : seq < last_number → Progress msg r (step w r addr seq payload)
    step-Progress lt = record {
      orderly = record {
        genuine =
            by_peer (λ a buffer expected. IsGenuine (msg a) buffer) r addr now here.genuine
              o.genuine;
        next_missing =
            by_peer (λ a buffer expected. get buffer expected ≡ none) r addr now here.next_missing
              o.next_missing;
        below =
            by_peer (λ a buffer expected. IsBelow last_number buffer expected) r addr now
              (here.below last_number lt (o.below addr)) o.below;
      };
      grown = step-Grows;
      keeps = step-Held;
    }

    pub step-IsBelow :
        (limit : ℕ) (a : A)
        → (addr ≡ a → seq < limit)
        → IsBelow limit (at r.buffer a) (get_or r.expected a 0)
        → IsBelow limit
            (at (step w r addr seq payload).buffer a)
            (get_or (step w r addr seq payload).expected a 0)
    step-IsBelow limit a lt b =
        by_peer
          (λ a buffer expected.
            IsBelow limit (at r.buffer a) (get_or r.expected a 0)
            → (addr ≡ a → seq < limit)
            → IsBelow limit buffer expected)
          r addr now (λ b lt. here.below limit (lt refl) b) (λ a b lt. b) a b lt

    -- A packet that does not lie beyond the window is received.
    pub step_takes : seq < get_or r.expected addr 0 + w → Held (step w r addr seq payload) addr seq
    step_takes lt =
        at_peer (λ a buffer expected. IsHeld buffer expected seq) r addr now (here.takes lt)

    step_acked :
        (m : ℕ)
        → ack_number w (get_or r.expected addr 0) seq ≡ m + 1
        → Held (step w r addr seq payload) addr m
    step_acked m h =
        at_peer (λ a buffer expected. IsHeld buffer expected m) r addr now (here.acked m h)

    pub step-IsAnswered :
        (a : A) (wire : List (List ℕ × A)) (buf : List ℕ)
        → ack_packet (ack_number w (get_or r.expected addr 0) seq) ≡ ok buf
        → IsAnswered a r wire
        → IsAnswered a (step w r addr seq payload) (wire ++ (buf, addr) ∷ [])
    step-IsAnswered a wire buf built h =
        let r' = step w r addr seq payload in
        All-append _ wire ((buf, addr) ∷ []) (IsAnswered-mono a r r' wire (step-Held a) h) (
          λ t. (
            ack_number w (get_or r.expected addr 0) seq,
            built,
            λ m same. subst (λ b. Held r' b m) ((e.beq_iff addr a).0 t) (step_acked m same),
          ),
          tt,
        )
