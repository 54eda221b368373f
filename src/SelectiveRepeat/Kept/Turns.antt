-- ===== src/SelectiveRepeat/Kept/Turns.antt =====
-- Every call of `sendto` and every round of the background thread keeps what a sender keeps.
use mathlib.Core.Path.{subst}
use mathlib.Core.Logic.{◌⊎◌, inl, inr}
use udp_arq_lab.Prelude.{
  ℕ, ◌+◌, ◌≡◌, refl, Bool, true, false, Option, none, some, List, arith, length, ltb, if◌then◌else◌,
  Bool-cases, Option-cases,
}
use udp_arq_lab.Prelude.Dict.{nat_eq_inst, Eq, get_or, has}
use udp_arq_lab.Prelude.Float.{Float}
use udp_arq_lab.Prelude.Result.{ok, Result-cases}
use udp_arq_lab.Packet.{Header, has_flag, flag_ack, flag_data}
use udp_arq_lab.Checksum.{verify}
use udp_arq_lab.Wire.{ack_packet}
use udp_arq_lab.Wire.Sound.{Carries-of_ack}
use udp_arq_lab.StopAndWait.{parse}
use udp_arq_lab.StopAndWait.Receiving.{parse_of_Carries}
use udp_arq_lab.Sliding.{Link, Turn, Item, keys}
use udp_arq_lab.Sliding.Peers.{sent_lem}
use udp_arq_lab.SelectiveRepeat.State.{SelectiveRepeat, Receiver}
use udp_arq_lab.SelectiveRepeat.Receiver.{deliver, acknowledge, on_data}
use udp_arq_lab.SelectiveRepeat.Ack.{handle_ack}
use udp_arq_lab.SelectiveRepeat.Pump.{drain_outbound, pump_all}
use udp_arq_lab.SelectiveRepeat.Timeouts.{handle_timeouts}
use udp_arq_lab.SelectiveRepeat.Calls.{sendto, received}
use udp_arq_lab.SelectiveRepeat.Loop.{
  dispatch, handle_incoming, after_drain, after_pump, after_timers, unless_dead, receive, turn,
}
use udp_arq_lab.SelectiveRepeat.Kept.{IsMessage, IsWired, sent-IsWired}
use udp_arq_lab.SelectiveRepeat.Kept.Sending.{enqueue-Keeps, drain-Keeps}
use udp_arq_lab.SelectiveRepeat.Kept.Pumping.{Holds, pump_all-Holds, handle_ack-Holds}
use udp_arq_lab.SelectiveRepeat.Kept.Expiry.{handle_timeouts-Holds, next_wait_time-Holds}

-- What the peer sends: damaged bytes, or an ACK that names only what it has received.
abbrev pub Tells : (ℕ → Type 0) → List ℕ → Type 0
Tells D raw =
    (verify raw ≡ false) ⊎ ((ack : ℕ) × (ack_packet ack ≡ ok raw) × ((n : ℕ) → ack ≡ n + 1 → D n))

module _ {A : Type 0} ⦃e : Eq A⦄ (b : A) (D : ℕ → Type 0) where
  -- What comes from the peer; what others send is arbitrary.
  abbrev pub IsTold : Option (List ℕ × A) → Type 0
  IsTold none = Unit
  IsTold (some (raw, addr)) = e.beq addr b ≡ true → Tells D raw

module _ {A : Type 0} ⦃e : Eq A⦄ (b : A) (msg : ℕ → List ℕ) (limit : ℕ) (accepts : ℕ → Bool)
    (all : (n : ℕ) → accepts n ≡ true) where
  acknowledge-IsWired :
      (r : Receiver A) (l : Link A) (addr : A) (n : ℕ) (queue : List (List ℕ))
      → IsWired b msg limit l.wire
      → IsWired b msg limit (acknowledge accepts r l addr n queue).link.wire
  unfolding acknowledge deliver
  acknowledge-IsWired r l addr n queue w = elim (Result-cases (ack_packet n)) [
    | inl (packet, built) ↦
        rw (acknowledge, built, sent_lem accepts l packet addr (all l.sends))
          (sent-IsWired b msg limit l packet addr (λ t. inr (n, built)) w)
    | inr (x, failed) ↦ rw (acknowledge, failed) w
  ]

  on_data-IsWired :
      (w : ℕ) (r : Receiver A) (l : Link A) (addr : A) (header : Header) (payload : List ℕ)
      → IsWired b msg limit l.wire
      → IsWired b msg limit (on_data accepts w r l addr header payload).link.wire
  unfolding on_data
  on_data-IsWired w r l addr header payload h = acknowledge-IsWired _ l addr _ _ h

module _ {T A : Type 0} ⦃f : Float T⦄ ⦃e : Eq A⦄ (b : A) (msg : ℕ → List ℕ) (limit : ℕ)
    (D : ℕ → Type 0) (accepts : ℕ → Bool) (all : (n : ℕ) → accepts n ≡ true) where
  -- The transport keeps what it has for the peer `b`.
  abbrev pub Safe : SelectiveRepeat T A → Type 0
  Safe g = Holds b msg limit D g.sender.outbound g.sender g.link

  pub sendto-Safe :
      (g : SelectiveRepeat T A) (payload : List ℕ) (addr : A)
      → ((sendto g payload addr).1 ≡ ok tt
          → addr ≡ b
          → (has g.sender.peer_errors b ≡ false)
            × IsMessage msg limit (get_or g.sender.next_seq b 0) payload)
      → Safe g
      → Safe (sendto g payload addr).0
  unfolding sendto
  sendto-Safe g payload addr allowed (k, w, r) =
      elim (Bool-cases (ltb g.config.mss (length payload))) [
        | inl t ↦ rw (sendto, t) (k, w, r)
        | inr t ↦ elim (Bool-cases g.stopped) [
          | inl u ↦ rw (sendto, t, u) (k, w, r)
          | inr u ↦
              rw (sendto, t, u)
                (
                  enqueue-Keeps b msg limit D g.sender payload addr
                      (allowed (rw (sendto, t, u) refl)) k,
                  w,
                  refl,
                )
        ]
      ]

  acked-Safe :
      (g : SelectiveRepeat T A) (addr : A) (ack : ℕ) (now : T)
      → (e.beq addr b ≡ true → (n : ℕ) → ack ≡ n + 1 → D n)
      → Safe g
      → Safe (record g { sender = handle_ack g.config g.sender addr ack now })
  acked-Safe g addr ack now knows h =
      let (k, w, r) =
        handle_ack-Holds b msg limit D g.sender.outbound g.link g.config g.sender addr ack now knows
          h in
      (rw r k, w, refl)

  dispatch-Safe :
      (g : SelectiveRepeat T A) (addr : A) (header : Header) (payload : List ℕ) (now : T)
      → e.beq addr b ≡ false
      → Safe g
      → Safe (dispatch accepts g addr header payload now)
  unfolding dispatch received
  dispatch-Safe g addr header payload now other (k, w, r) =
      elim (Bool-cases (has_flag header.flags flag_ack)) [
        | inl t ↦
            rw (dispatch, t)
              (acked-Safe g addr header.ack now (λ same. absurd (ground arith)) (k, w, r))
        | inr t ↦ elim (Bool-cases (has_flag header.flags flag_data)) [
          | inl u ↦
              rw (dispatch, t, u)
                (
                  k,
                  on_data-IsWired b msg limit accepts all g.config.window_size g.receiver g.link
                      addr header payload w,
                  refl,
                )
          | inr u ↦ rw (dispatch, t, u) (k, w, r)
        ]
      ]

  handle_incoming-Safe :
      (g : SelectiveRepeat T A) (raw : List ℕ) (addr : A) (now : T)
      → (e.beq addr b ≡ true → Tells D raw)
      → Safe g
      → Safe (handle_incoming accepts g raw addr now)
  unfolding handle_incoming dispatch parse
  handle_incoming-Safe g raw addr now told h = elim (Bool-cases (e.beq addr b)) [
    | inl t ↦ elim (told t) [
      | inl damaged ↦ rw (handle_incoming, parse, damaged) h
      | inr (ack, built, knows) ↦
          rw (handle_incoming, parse_of_Carries (Carries-of_ack ack raw built))
            (acked-Safe g addr ack now (λ same. knows) h)
    ]
    | inr t ↦ elim (Option-cases (parse raw)) [
      | inl n ↦ rw (handle_incoming, n) h
      | inr ((header, payload), p) ↦
          rw (handle_incoming, p) (dispatch-Safe g addr header payload now t h)
    ]
  ]

  settled :
      (q : List (Item A)) (g : SelectiveRepeat T A) → Holds b msg limit D q g.sender g.link → Safe g
  settled q g (k, w, r) = (rw r k, w, refl)

  receive-Safe :
      (g : SelectiveRepeat T A) (clock : Turn T A)
      → IsTold b D clock.arrival
      → Safe g
      → Safe (receive accepts g clock)
  unfolding receive
  receive-Safe g clock told h = elim (Option-cases clock.arrival) [
    | inl n ↦ rw (receive, n) h
    | inr ((raw, addr), x) ↦
        rw (receive, x)
          (handle_incoming-Safe g raw addr clock.got_at (subst (λ y. IsTold b D y) x told) h)
  ]

  timers-Safe :
      (g : SelectiveRepeat T A) (now : T)
      → Safe g
      → Safe (after_timers accepts g (handle_timeouts accepts g.config now g.sender g.link) now)
  unfolding after_timers
  timers-Safe g now h =
      settled g.sender.outbound
        (after_timers accepts g (handle_timeouts accepts g.config now g.sender g.link) now)
        (next_wait_time-Holds b msg limit D g.sender.outbound
          (handle_timeouts accepts g.config now g.sender g.link).0
          (handle_timeouts accepts g.config now g.sender g.link).1 now
          (handle_timeouts-Holds b msg limit D accepts all g.config now g.sender.outbound g.sender
            g.link h))

  pump-Safe :
      (g : SelectiveRepeat T A) (now : T)
      → Safe g
      → Safe (
          after_pump accepts g
            (pump_all accepts g.config now (keys g.sender.pending) g.sender g.link))
  unfolding after_pump
  pump-Safe g now h =
      settled g.sender.outbound
        (after_pump accepts g
          (pump_all accepts g.config now (keys g.sender.pending) g.sender g.link))
        (pump_all-Holds b msg limit D accepts all g.config now g.sender.outbound
          (keys g.sender.pending) g.sender g.link h)

  drain-Safe :
      (g : SelectiveRepeat T A)
      → Safe g
      → Safe (after_drain accepts g (drain_outbound g.config g.sender g.receiver.buffer))
  unfolding after_drain drain_outbound
  drain-Safe g (k, w, r) =
      (drain-Keeps b msg limit D g.config g.sender g.receiver.buffer g.sender.outbound k, w, refl)

  unless_dead-Safe :
      (g : SelectiveRepeat T A) (step : SelectiveRepeat T A → SelectiveRepeat T A)
      → ((h : SelectiveRepeat T A) → Safe h → Safe (step h))
      → Safe g
      → Safe (unless_dead accepts g step)
  unfolding unless_dead
  unless_dead-Safe g step keeps h = elim (Option-cases g.died) [
    | inl n ↦ rw (unless_dead, n) (keeps g h)
    | inr (x, d) ↦ rw (unless_dead, d) h
  ]

  if-Safe : (c : Bool) (x y : SelectiveRepeat T A) → Safe x → Safe y → Safe (if c then x else y)
  if-Safe true x y h k = h
  if-Safe false x y h k = k

  pub turn-Safe :
      (g : SelectiveRepeat T A) (clock : Turn T A)
      → IsTold b D clock.arrival
      → Safe g
      → Safe (turn accepts g clock)
  unfolding turn
  turn-Safe g clock told h = if-Safe g.stopped g _ h (
      unless_dead-Safe g _
        (λ g h.
          unless_dead-Safe _ _
            (λ g h.
              unless_dead-Safe _ _
                (λ g h. receive-Safe _ clock told (timers-Safe g clock.timers_at h))
                (pump-Safe g clock.pumped_at h))
            (drain-Safe g h))
        h)
