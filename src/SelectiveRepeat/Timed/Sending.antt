-- ===== src/SelectiveRepeat/Timed/Sending.antt =====
-- The pump and the ACK handler keep the timers.
use mathlib.Core.Path.{subst}
use udp_arq_lab.Prelude.{
  ℕ, zero, suc, ◌≡◌, refl, sym, ap, ◌∙◌, ◌⊎◌, inl, inr, Bool, true, false, ◌&&◌, none, List, [],
  ◌∷◌, arith, length, ◌==◌, if◌then◌else◌, Bool-cases, Option-cases, List-cases,
}
use udp_arq_lab.Prelude.Dict.{
  nat_eq_inst, pair_eq_inst, Dict, Eq, get, has, put, remove, set_default, get-put,
}
use udp_arq_lab.Prelude.Float.{Float, FloatOrder}
use udp_arq_lab.Prelude.Result.{Result-cases}
use udp_arq_lab.Wire.{data_packet}
use udp_arq_lab.TimerHeap.{cancel}
use udp_arq_lab.TimerHeap.Spec.{schedule-IsWellFormed, cancel-IsWellFormed}
use udp_arq_lab.Sliding.{Config, Link, Item, at, pop_at, new_estimator}
use udp_arq_lab.Sliding.Peers.{at-put, at-adjust, at-set_default}
use udp_arq_lab.SelectiveRepeat.State.{Sender, rto_value}
use udp_arq_lab.SelectiveRepeat.Ack.{handle_ack}
use udp_arq_lab.SelectiveRepeat.Ack.Individual.{handle_ack-AckEffect, get-pop_at, remove_nil}
use udp_arq_lab.SelectiveRepeat.Pump.{
  enter_partly, enter_pending, drain, enter_window, forget, after_send, pump_one, next_item,
  pump_peer, pump_all,
}
use udp_arq_lab.SelectiveRepeat.Timed.{IsTimed, IsTimed-same, schedule_lem, cancel_lem}

module _ {A : Type 0} ⦃e : Eq A⦄ where
  -- What is out behind a packet that enters, and behind one that goes.
  out_put :
      (d : Dict A (Dict ℕ (List ℕ))) (addr : A) (seq : ℕ) (packet : List ℕ) (a : A) (n : ℕ)
      → has (at (put d addr (put (at d addr) seq packet)) a) n
        ≡ (if e.beq addr a && (seq == n) then true else has (at d a) n)
  unfolding has
  out_put d addr seq packet a n = elim (Bool-cases (e.beq addr a)) [
    | inl t ↦
        rw (at-put d addr (put (at d addr) seq packet) a, t)
          (subst
            (λ b. has (put (at d addr) seq packet) n ≡ (if seq == n then true else has (at d b) n))
            ((e.beq_iff addr a).0 t) (ground (arith, get-put (at d addr) seq packet n)))
    | inr t ↦ rw (at-put d addr (put (at d addr) seq packet) a, t) refl
  ]

  out_pop :
      (d d' : Dict A (Dict ℕ (List ℕ))) (addr : A) (seq : ℕ) (a : A) (n : ℕ)
      → get (at d' a) n ≡ (if e.beq addr a && (seq == n) then none else get (at d a) n)
      → has (at d' a) n ≡ true
      → ((e.beq addr a && (seq == n)) ≡ false) × (has (at d a) n ≡ true)
  unfolding has
  out_pop d d' addr seq a n h out = (ground arith, ground arith)

module _ {T A : Type 0} ⦃f : Float T⦄ ⦃e : Eq A⦄ (o : FloatOrder T) (E : A → ℕ → Type 0) where
  enter_window-IsTimed :
      (c : Config T) (s : Sender T A) (addr : A) (seq : ℕ) (item : Item A) (packet : List ℕ)
      (now : T)
      → IsTimed E s
      → IsTimed E (enter_window c s addr seq item packet now)
  unfolding enter_window
  enter_window-IsTimed c s addr seq item packet now t = record {
    well_formed =
        schedule-IsWellFormed o s.timer_heap (addr, seq) (f.add now (rto_value c s addr))
          t.well_formed;
    timed = λ a n out. elim (Bool-cases (e.beq addr a && (seq == n))) [
      | inl b ↦ inl (schedule_lem s.timer_heap addr seq _ a n ∙ rw b refl)
      | inr b ↦
          elim (t.timed a n (sym (out_put s.outstanding addr seq packet a n ∙ rw b refl) ∙ out)) [
            | inl timer ↦ inl (schedule_lem s.timer_heap addr seq _ a n ∙ rw b timer)
            | inr excused ↦ inr excused
          ]
    ];
  }

  -- A packet goes, and its timer at most.
  popped-IsTimed :
      (s s' : Sender T A) (addr : A) (seq : ℕ)
      → (s'.timer_heap ≡ s.timer_heap) ⊎ (s'.timer_heap ≡ cancel s.timer_heap (addr, seq))
      → ((a : A) (n : ℕ)
          → get (at s'.outstanding a) n
            ≡ (if e.beq addr a && (seq == n) then none else get (at s.outstanding a) n))
      → IsTimed E s
      → IsTimed E s'
  popped-IsTimed s s' addr seq (inl same) w t =
      IsTimed-same E s s' same
        (λ a n out. (out_pop s.outstanding s'.outstanding addr seq a n (w a n) out).1) t
  popped-IsTimed s s' addr seq (inr cancelled) w t = record {
    well_formed = rw cancelled (cancel-IsWellFormed o s.timer_heap (addr, seq) t.well_formed);
    timed = λ a n out.
        let (other, was) = out_pop s.outstanding s'.outstanding addr seq a n (w a n) out in
        elim (t.timed a n was) [
          | inl timer ↦ inl (
              ap (λ h. has h.key_to_deadline (a, n)) cancelled
              ∙ cancel_lem s.timer_heap addr seq a n
              ∙ rw other timer)
          | inr excused ↦ inr excused
        ];
  }

  forget-IsTimed :
      (s : Sender T A) (addr : A) (seq : ℕ) → IsTimed E s → IsTimed E (forget s addr seq)
  unfolding forget
  forget-IsTimed s addr seq t =
      popped-IsTimed s (forget s addr seq) addr seq
        (elim (List-cases (at (pop_at s.outstanding addr seq) addr)) [
          | inl n ↦ inr (rw (forget, n) refl)
          | inr (p, ps, h) ↦ inl (rw (forget, h) refl)
        ])
        (λ a n.
          get-pop_at s.outstanding _ addr seq a n
            (at-adjust s.outstanding addr (λ d. remove d seq) a (remove_nil seq)))
        t

  after_send-IsTimed :
      (accepts : ℕ → Bool) (c : Config T) (now : T) (s : Sender T A) (addr : A) (seq : ℕ)
      (sent : Link A × Bool)
      → IsTimed E s
      → IsTimed E (after_send accepts c now s addr seq sent).sender
  unfolding after_send
  after_send-IsTimed accepts c now s addr seq (link, true) t = t
  after_send-IsTimed accepts c now s addr seq (link, false) t = forget-IsTimed s addr seq t

  pump_one-IsTimed :
      (accepts : ℕ → Bool) (c : Config T) (now : T) (s : Sender T A) (link : Link A) (addr : A)
      (seq : ℕ) (item : Item A)
      → IsTimed E s
      → IsTimed E (pump_one accepts c now s link addr seq item).sender
  unfolding pump_one
  pump_one-IsTimed accepts c now s link addr seq item t =
      elim (Result-cases (data_packet seq item.bytes)) [
        | inl (packet, b) ↦
            rw (pump_one, b)
              (after_send-IsTimed accepts c now _ addr seq _
                (enter_window-IsTimed c s addr seq item packet now t))
        | inr (x, b) ↦ rw (pump_one, b) (IsTimed-same E s _ refl (λ a n out. out) t)
      ]

  pump_peer-IsTimed :
      (accepts : ℕ → Bool) (c : Config T) (now : T) (fuel : ℕ) (s : Sender T A) (link : Link A)
      (addr : A)
      → IsTimed E s
      → IsTimed E (pump_peer accepts c now fuel s link addr).sender
  unfolding pump_peer
  pump_peer-IsTimed accepts c now zero s link addr t = t
  pump_peer-IsTimed accepts c now (suc fuel) s link addr t =
      elim (Option-cases (next_item accepts c now s addr)) [
        | inl n ↦ rw (pump_peer, n) t
        | inr ((seq, item), i) ↦
            let ih = pump_one-IsTimed accepts c now s link addr seq item t in
            elim (Option-cases (pump_one accepts c now s link addr seq item).died) [
              | inl d ↦ rw (pump_peer, i, d) (pump_peer-IsTimed accepts c now fuel _ _ addr ih)
              | inr (x, d) ↦ rw (pump_peer, i, d) ih
            ]
      ]

  pub pump_all-IsTimed :
      (accepts : ℕ → Bool) (c : Config T) (now : T) (addrs : List A) (s : Sender T A)
      (link : Link A)
      → IsTimed E s
      → IsTimed E (pump_all accepts c now addrs s link).sender
  unfolding pump_all
  pump_all-IsTimed accepts c now [] s link t = t
  pump_all-IsTimed accepts c now (addr ∷ more) s link t =
      let ih = pump_peer-IsTimed accepts c now (length (at s.pending addr)) s link addr t in
      elim (Option-cases (pump_peer accepts c now (length (at s.pending addr)) s link addr).died) [
        | inl d ↦ rw (pump_all, d) (pump_all-IsTimed accepts c now more _ _ ih)
        | inr (x, d) ↦ rw (pump_all, d) ih
      ]

  pub handle_ack-IsTimed :
      (c : Config T) (s : Sender T A) (addr : A) (ack : ℕ) (now : T)
      → IsTimed E s
      → IsTimed E (handle_ack c s addr ack now)
  unfolding handle_ack
  handle_ack-IsTimed c s addr ack now t = elim (Option-cases (get s.base addr)) [
    | inl n ↦ rw (handle_ack, n) t
    | inr (base, h) ↦ elim (handle_ack-AckEffect c s addr base ack now h) [
      | inl (seq, same, le, out, k) ↦
          popped-IsTimed s (handle_ack c s addr ack now) addr seq (inr k.timer_eq) k.window_eq t
      | inr (stray, eq) ↦ rw eq t
    ]
  ]

  entered-IsTimed :
      (s s' : Sender T A) (addr : A)
      → s'.timer_heap ≡ s.timer_heap
      → s'.outstanding ≡ set_default s.outstanding addr []
      → IsTimed E s
      → IsTimed E s'
  entered-IsTimed s s' addr h x t =
      IsTimed-same E s s' h
        (λ a n out.
          ap (λ d. has d n) (sym (ap (λ d. at d a) x ∙ at-set_default s.outstanding addr a)) ∙ out)
        t

  pub drain-IsTimed :
      (c : Config T) (s : Sender T A) (buffer : Dict A (Dict ℕ (List ℕ))) (items : List (Item A))
      → IsTimed E s
      → IsTimed E (drain c s buffer items).sender
  unfolding drain enter_pending enter_partly
  drain-IsTimed c s buffer [] t = IsTimed-same E s _ refl (λ a n out. out) t
  drain-IsTimed c s buffer (item ∷ more) t = elim (Result-cases (new_estimator c)) [
    | inl (r, h) ↦
        rw (drain, h)
          (drain-IsTimed c (enter_pending s item r) (set_default buffer item.addr []) more
            (entered-IsTimed s (enter_pending s item r) item.addr refl refl t))
    | inr (x, h) ↦ rw (drain, h) (entered-IsTimed s _ item.addr refl refl t)
  ]
