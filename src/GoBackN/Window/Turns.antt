-- ===== src/GoBackN/Window/Turns.antt =====
-- Every round of the background thread, and every call of the application, keeps the window.
use udp_arq_lab.Prelude.{
  ℕ, ◌≡◌, inl, inr, Bool, true, false, List, [], ◌∷◌, arith, length, ltb, if◌then◌else◌, Bool-cases,
  Option-cases, List-cases,
}
use udp_arq_lab.Prelude.Dict.{nat_eq_inst, Eq, get, get_or, has}
use udp_arq_lab.Prelude.Float.{Float}
use udp_arq_lab.Packet.{Header, has_flag, flag_ack, flag_data}
use udp_arq_lab.StopAndWait.{parse}
use udp_arq_lab.GoBackN.State.{GoBackN}
use udp_arq_lab.GoBackN.Pump.{drain_outbound, pump_all}
use udp_arq_lab.GoBackN.Timeouts.{timeout_all}
use udp_arq_lab.GoBackN.Calls.{enqueue, sendto, recvfrom, close, received}
use udp_arq_lab.GoBackN.Loop.{
  dispatch, handle_incoming, after_drain, after_pump, after_timers, unless_dead, receive, turn,
  Event, send, receive_call, close_call, background, apply, run, start,
}
use udp_arq_lab.GoBackN.Window.{IsWindowed, Shrinks-IsWindowed, handle_ack-Shrinks, drain-Shrinks}
use udp_arq_lab.GoBackN.Window.Sending.{pump_all-IsWindowed}
use udp_arq_lab.GoBackN.Window.Timers.{timeout_all-Shrinks}
use udp_arq_lab.Sliding.{Config, keys, Turn}

nothing_out : (n : ℕ) → has {V = List ℕ} [] n ≡ true → ⊥
unfolding has get
nothing_out n h = absurd (ground arith)

module _ {T A : Type 0} ⦃f : Float T⦄ ⦃e : Eq A⦄ where
  -- The window of every peer, by the configured size.
  abbrev pub Fits : GoBackN T A → Type 0
  Fits g = IsWindowed g.config.window_size g.sender

  if-Fits : (b : Bool) (x y : GoBackN T A) → Fits x → Fits y → Fits (if b then x else y)
  if-Fits true x y h k = h
  if-Fits false x y h k = k

  unless_dead-Fits :
      (accepts : ℕ → Bool) (g : GoBackN T A) (step : GoBackN T A → GoBackN T A)
      → ((h : GoBackN T A) → Fits h → Fits (step h))
      → Fits g
      → Fits (unless_dead accepts g step)
  unfolding unless_dead
  unless_dead-Fits accepts g step keeps h = elim (Option-cases g.died) [
    | inl n ↦ rw (unless_dead, n) (keeps g h)
    | inr (x, d) ↦ rw (unless_dead, d) h
  ]

  dispatch-Fits :
      (accepts : ℕ → Bool) (g : GoBackN T A) (addr : A) (header : Header) (payload : List ℕ)
      (now : T)
      → Fits g
      → Fits (dispatch accepts g addr header payload now)
  unfolding dispatch received
  dispatch-Fits accepts g addr header payload now h =
      elim (Bool-cases (has_flag header.flags flag_ack)) [
        | inl t ↦
            rw (dispatch, t)
              (Shrinks-IsWindowed g.config.window_size g.sender _
                (handle_ack-Shrinks g.config g.sender addr header.ack now) h)
        | inr t ↦ elim (Bool-cases (has_flag header.flags flag_data)) [
          | inl u ↦ rw (dispatch, t, u) h
          | inr u ↦ rw (dispatch, t, u) h
        ]
      ]

  handle_incoming-Fits :
      (accepts : ℕ → Bool) (g : GoBackN T A) (raw : List ℕ) (addr : A) (now : T)
      → Fits g
      → Fits (handle_incoming accepts g raw addr now)
  unfolding handle_incoming
  handle_incoming-Fits accepts g raw addr now h = elim (Option-cases (parse raw)) [
    | inl n ↦ rw (handle_incoming, n) h
    | inr ((header, payload), p) ↦
        rw (handle_incoming, p) (dispatch-Fits accepts g addr header payload now h)
  ]

  receive-Fits :
      (accepts : ℕ → Bool) (g : GoBackN T A) (clock : Turn T A)
      → Fits g
      → Fits (receive accepts g clock)
  unfolding receive
  receive-Fits accepts g clock h = elim (Option-cases clock.arrival) [
    | inl n ↦ rw (receive, n) h
    | inr ((raw, addr), x) ↦
        rw (receive, x) (handle_incoming-Fits accepts g raw addr clock.got_at h)
  ]

  timers-Fits :
      (accepts : ℕ → Bool) (g : GoBackN T A) (now : T)
      → Fits g
      → Fits (
          after_timers accepts g
            (timeout_all accepts g.config now (keys g.sender.timer_deadline) g.sender g.link))
  unfolding after_timers
  timers-Fits accepts g now h =
      Shrinks-IsWindowed g.config.window_size g.sender _
        (timeout_all-Shrinks accepts g.config now (keys g.sender.timer_deadline) g.sender g.link) h

  pump-Fits :
      (accepts : ℕ → Bool) (g : GoBackN T A) (now : T)
      → Fits g
      → Fits (
          after_pump accepts g
            (pump_all accepts g.config now (keys g.sender.pending) g.sender g.link))
  unfolding after_pump
  pump-Fits accepts g now h =
      pump_all-IsWindowed accepts g.config now (keys g.sender.pending) g.sender g.link h

  drain-Fits :
      (accepts : ℕ → Bool) (g : GoBackN T A)
      → Fits g
      → Fits (after_drain accepts g (drain_outbound g.config g.sender))
  unfolding after_drain drain_outbound
  drain-Fits accepts g h =
      Shrinks-IsWindowed g.config.window_size g.sender _
        (drain-Shrinks g.config g.sender g.sender.outbound) h

  turn-Fits :
      (accepts : ℕ → Bool) (g : GoBackN T A) (clock : Turn T A)
      → Fits g
      → Fits (turn accepts g clock)
  unfolding turn
  turn-Fits accepts g clock h = if-Fits g.stopped g _ h (
      unless_dead-Fits accepts g _
        (λ g h.
          unless_dead-Fits accepts _ _
            (λ g h.
              unless_dead-Fits accepts _ _
                (λ g h. receive-Fits accepts _ clock (timers-Fits accepts g clock.timers_at h))
                (pump-Fits accepts g clock.pumped_at h))
            (drain-Fits accepts g h))
        h)

  apply-Fits :
      (accepts : ℕ → Bool) (g : GoBackN T A) (x : Event T A) → Fits g → Fits (apply accepts g x)
  unfolding apply sendto enqueue recvfrom close
  apply-Fits accepts g (send payload addr) h =
      elim (Bool-cases (ltb g.config.mss (length payload))) [
        | inl t ↦ rw (apply, sendto, t) h
        | inr t ↦ elim (Bool-cases g.stopped) [
          | inl u ↦ rw (apply, sendto, t, u) h
          | inr u ↦ rw (apply, sendto, t, u) h
        ]
      ]
  apply-Fits accepts g receive_call h = elim (List-cases g.receiver.incoming) [
    | inl n ↦ rw (apply, recvfrom, n) h
    | inr (x, xs, c) ↦ rw (apply, recvfrom, c) h
  ]
  apply-Fits accepts g close_call h = if-Fits g.stopped g _ h h
  apply-Fits accepts g (background clock) h = turn-Fits accepts g clock h

  run-Fits :
      (accepts : ℕ → Bool) (g : GoBackN T A) (events : List (Event T A))
      → Fits g
      → Fits (run accepts g events)
  unfolding run
  run-Fits accepts g [] h = h
  run-Fits accepts g (x ∷ events) h =
      run-Fits accepts (apply accepts g x) events (apply-Fits accepts g x h)

  -- From a new transport, through any calls of the application and rounds of the background
  -- thread, with any channel, clock and datagrams: every packet that is outstanding to a peer is
  -- less than `window_size` numbers above the peer's base.
  pub run-IsWindowed :
      (accepts : ℕ → Bool) (c : Config T) (events : List (Event T A))
      → Fits (run accepts (start c) events)
  unfolding start get_or
  run-IsWindowed accepts c events =
      run-Fits accepts (start c) events (λ a n h. absurd (nothing_out n h))
