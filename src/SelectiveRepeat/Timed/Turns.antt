-- ===== src/SelectiveRepeat/Timed/Turns.antt =====
-- Every round of the background thread, and every call of the application, keeps the timers.
use udp_arq_lab.Prelude.{
  ℕ, refl, inl, inr, Bool, true, false, List, [], ◌∷◌, arith, length, ltb, if◌then◌else◌,
  Bool-cases, Option-cases, List-cases,
}
use udp_arq_lab.Prelude.Dict.{nat_eq_inst, pair_eq_inst, Eq, get, get_or}
use udp_arq_lab.Prelude.Float.{Float, FloatOrder}
use udp_arq_lab.Packet.{Header, has_flag, flag_ack, flag_data}
use udp_arq_lab.StopAndWait.{parse}
use udp_arq_lab.TimerHeap.{empty}
use udp_arq_lab.TimerHeap.Spec.{IsWellFormed}
use udp_arq_lab.Sliding.{Config, Turn, keys}
use udp_arq_lab.SelectiveRepeat.State.{SelectiveRepeat}
use udp_arq_lab.SelectiveRepeat.Pump.{drain_outbound, pump_all}
use udp_arq_lab.SelectiveRepeat.Timeouts.{handle_timeouts}
use udp_arq_lab.SelectiveRepeat.Calls.{enqueue, sendto, recvfrom, close, received}
use udp_arq_lab.SelectiveRepeat.Loop.{
  dispatch, handle_incoming, after_drain, after_pump, after_timers, unless_dead, receive, turn,
  Event, send, receive_call, close_call, background, apply, run, start,
}
use udp_arq_lab.SelectiveRepeat.Timed.{IsTimed, IsTimed-same, nothing_out}
use udp_arq_lab.SelectiveRepeat.Timed.Sending.{pump_all-IsTimed, handle_ack-IsTimed, drain-IsTimed}
use udp_arq_lab.SelectiveRepeat.Timed.Timeouts.{handle_timeouts-IsTimed, next_wait_time-IsTimed}

module _ {T A : Type 0} ⦃f : Float T⦄ ⦃e : Eq A⦄ where
  -- The heap is well-formed, and every packet that is out has a timer.
  abbrev pub Ticks : SelectiveRepeat T A → Type 0
  Ticks g = IsTimed (λ a n. ⊥) g.sender

  if-Ticks : (b : Bool) (x y : SelectiveRepeat T A) → Ticks x → Ticks y → Ticks (if b then x else y)
  if-Ticks true x y h k = h
  if-Ticks false x y h k = k

  unless_dead-Ticks :
      (accepts : ℕ → Bool) (g : SelectiveRepeat T A)
      (step : SelectiveRepeat T A → SelectiveRepeat T A)
      → ((h : SelectiveRepeat T A) → Ticks h → Ticks (step h))
      → Ticks g
      → Ticks (unless_dead accepts g step)
  unfolding unless_dead
  unless_dead-Ticks accepts g step keeps h = elim (Option-cases g.died) [
    | inl n ↦ rw (unless_dead, n) (keeps g h)
    | inr (x, d) ↦ rw (unless_dead, d) h
  ]

module _ {T A : Type 0} ⦃f : Float T⦄ ⦃e : Eq A⦄ (o : FloatOrder T) (accepts : ℕ → Bool) where
  dispatch-Ticks :
      (g : SelectiveRepeat T A) (addr : A) (header : Header) (payload : List ℕ) (now : T)
      → Ticks g
      → Ticks (dispatch accepts g addr header payload now)
  unfolding dispatch received
  dispatch-Ticks g addr header payload now h = elim (Bool-cases (has_flag header.flags flag_ack)) [
    | inl t ↦
        rw (dispatch, t) (handle_ack-IsTimed o (λ a n. ⊥) g.config g.sender addr header.ack now h)
    | inr t ↦ elim (Bool-cases (has_flag header.flags flag_data)) [
      | inl u ↦ rw (dispatch, t, u) h
      | inr u ↦ rw (dispatch, t, u) h
    ]
  ]

  handle_incoming-Ticks :
      (g : SelectiveRepeat T A) (raw : List ℕ) (addr : A) (now : T)
      → Ticks g
      → Ticks (handle_incoming accepts g raw addr now)
  unfolding handle_incoming
  handle_incoming-Ticks g raw addr now h = elim (Option-cases (parse raw)) [
    | inl n ↦ rw (handle_incoming, n) h
    | inr ((header, payload), p) ↦
        rw (handle_incoming, p) (dispatch-Ticks g addr header payload now h)
  ]

  receive-Ticks :
      (g : SelectiveRepeat T A) (clock : Turn T A) → Ticks g → Ticks (receive accepts g clock)
  unfolding receive
  receive-Ticks g clock h = elim (Option-cases clock.arrival) [
    | inl n ↦ rw (receive, n) h
    | inr ((raw, addr), x) ↦ rw (receive, x) (handle_incoming-Ticks g raw addr clock.got_at h)
  ]

  timers-Ticks :
      (g : SelectiveRepeat T A) (now : T)
      → Ticks g
      → Ticks (after_timers accepts g (handle_timeouts accepts g.config now g.sender g.link) now)
  unfolding after_timers
  timers-Ticks g now h =
      next_wait_time-IsTimed o _ now
        (handle_timeouts-IsTimed o accepts g.config now g.sender g.link h)

  pump-Ticks :
      (g : SelectiveRepeat T A) (now : T)
      → Ticks g
      → Ticks (
          after_pump accepts g
            (pump_all accepts g.config now (keys g.sender.pending) g.sender g.link))
  unfolding after_pump
  pump-Ticks g now h =
      pump_all-IsTimed o (λ a n. ⊥) accepts g.config now (keys g.sender.pending) g.sender g.link h

  drain-Ticks :
      (g : SelectiveRepeat T A)
      → Ticks g
      → Ticks (after_drain accepts g (drain_outbound g.config g.sender g.receiver.buffer))
  unfolding after_drain drain_outbound
  drain-Ticks g h =
      drain-IsTimed o (λ a n. ⊥) g.config g.sender g.receiver.buffer g.sender.outbound h

  turn-Ticks : (g : SelectiveRepeat T A) (clock : Turn T A) → Ticks g → Ticks (turn accepts g clock)
  unfolding turn
  turn-Ticks g clock h = if-Ticks g.stopped g _ h (
      unless_dead-Ticks accepts g _
        (λ g h.
          unless_dead-Ticks accepts _ _
            (λ g h.
              unless_dead-Ticks accepts _ _
                (λ g h. receive-Ticks _ clock (timers-Ticks g clock.timers_at h))
                (pump-Ticks g clock.pumped_at h))
            (drain-Ticks g h))
        h)

  apply-Ticks : (g : SelectiveRepeat T A) (x : Event T A) → Ticks g → Ticks (apply accepts g x)
  unfolding apply sendto enqueue recvfrom close
  apply-Ticks g (send payload addr) h = elim (Bool-cases (ltb g.config.mss (length payload))) [
    | inl t ↦ rw (apply, sendto, t) h
    | inr t ↦ elim (Bool-cases g.stopped) [
      | inl u ↦ rw (apply, sendto, t, u) h
      | inr u ↦ rw (apply, sendto, t, u) (IsTimed-same (λ a n. ⊥) g.sender _ refl (λ a n x. x) h)
    ]
  ]
  apply-Ticks g receive_call h = elim (List-cases g.receiver.incoming) [
    | inl n ↦ rw (apply, recvfrom, n) h
    | inr (x, xs, c) ↦ rw (apply, recvfrom, c) h
  ]
  apply-Ticks g close_call h =
      if-Ticks g.stopped g _ h (IsTimed-same (λ a n. ⊥) g.sender _ refl (λ a n x. x) h)
  apply-Ticks g (background clock) h = turn-Ticks g clock h

  run-Ticks :
      (g : SelectiveRepeat T A) (events : List (Event T A)) → Ticks g → Ticks (run accepts g events)
  unfolding run
  run-Ticks g [] h = h
  run-Ticks g (x ∷ events) h = run-Ticks (apply accepts g x) events (apply-Ticks g x h)

  no_timer : IsWellFormed {T = T} {K = A × ℕ} empty
  unfolding get
  no_timer = record { sorted = tt; covered = λ k t h. absurd (ground arith) }

  -- From a new transport, through any calls of the application and rounds of the background
  -- thread, with any channel, clock and datagrams: the timer heap is well-formed, and every packet
  -- that is outstanding to a peer has a timer of its own in it.
  pub run-IsTimed :
      (c : Config T) (events : List (Event T A))
      → IsTimed (λ a n. ⊥) (run accepts (start c) events).sender
  unfolding start get_or
  run-IsTimed c events =
      run-Ticks (start c) events
        (record { well_formed = no_timer; timed = λ a n out. absurd (nothing_out n out) })
