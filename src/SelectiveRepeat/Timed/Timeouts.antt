-- ===== src/SelectiveRepeat/Timed/Timeouts.antt =====
-- A timeout renews the timer of every packet that is due and still out.
use mathlib.Core.Path.{subst}
use udp_arq_lab.Prelude.{
  ℕ, ◌≡◌, refl, sym, ap, ◌∙◌, ◌⊎◌, inl, inr, Bool, true, false, ◌&&◌, ◌||◌, Option, none, some,
  List, [], ◌∷◌, ◌++◌, arith, ltb, ◌==◌, ==_iff, Bool-cases, Option-cases,
}
use udp_arq_lab.Prelude.Dict.{nat_eq_inst, pair_eq_inst, pair_beq, Dict, Eq, get, get_or, has, put}
use udp_arq_lab.Prelude.Float.{Float, FloatOrder}
use udp_arq_lab.TimerHeap.{nearest, pop_due}
use udp_arq_lab.TimerHeap.Spec.{schedule-IsWellFormed, is_due, contains}
use udp_arq_lab.TimerHeap.Spec.PopDue.{pop_due-PopsDue}
use udp_arq_lab.TimerHeap.Spec.Nearest.{nearest-IsWellFormed}
use udp_arq_lab.Sliding.{Config, Link, at, member, channel_send, send_failed, no_ack}
use udp_arq_lab.Sliding.Peers.{at-put}
use udp_arq_lab.SelectiveRepeat.State.{Sender, rto_value, max_retries}
use udp_arq_lab.SelectiveRepeat.Timeouts.{
  group_due, expire, count_retry, renew, resend, timeout_peer, timeout_all, handle_timeouts,
  next_wait_time,
}
use udp_arq_lab.SelectiveRepeat.Timed.{
  IsOut, IsTimed, IsTimed-same, schedule_lem, fail_peer-IsTimed,
}

member-append :
    (n : ℕ) (xs : List ℕ) (seq : ℕ) → member n (xs ++ seq ∷ []) ≡ (member n xs || (seq == n))
unfolding member
member-append n [] seq = ground arith
member-append n (x ∷ xs) seq = ground (arith, member-append n xs seq)

abbrev is_some : {V : Type 0} → Option V → Bool
is_some none = false
is_some (some v) = true

both : (b c : Bool) → (b && c) ≡ true → (b ≡ true) × (c ≡ true)
both true c h = (refl, h)
both false c h = absurd (ground arith)

module _ {A : Type 0} ⦃e : Eq A⦄ where
  -- The number stands in the peer's list.
  abbrev IsGrouped : Dict A (List ℕ) → A → ℕ → Type 0
  IsGrouped due a n = member n (at due a) ≡ true

  -- So it stands in one of the entries that the loop goes through.
  abbrev pub IsWaiting : Dict A (List ℕ) → A → ℕ → Type 0
  IsWaiting [] a n = ⊥
  IsWaiting ((b, seqs) ∷ more) a n =
      ((e.beq b a ≡ true) × (member n seqs ≡ true)) ⊎ IsWaiting more a n

  IsWaiting-of_grouped :
      (due : Dict A (List ℕ)) (a : A) (n : ℕ) → IsGrouped due a n → IsWaiting due a n
  unfolding get_or get member
  IsWaiting-of_grouped [] a n h = absurd (ground arith)
  IsWaiting-of_grouped ((b, seqs) ∷ more) a n h = elim (Bool-cases (e.beq b a)) [
    | inl t ↦ inl (t, rw (get_or, get, t) at h)
    | inr t ↦ inr (IsWaiting-of_grouped more a n (rw (get_or, get, t) at h))
  ]

  IsGrouped-put :
      (due : Dict A (List ℕ)) (addr : A) (seq : ℕ) (a : A) (n : ℕ)
      → member n (at (put due addr (at due addr ++ seq ∷ [])) a)
        ≡ (member n (at due a) || (e.beq addr a && (seq == n)))
  IsGrouped-put due addr seq a n = elim (Bool-cases (e.beq addr a)) [
    | inl t ↦
        rw (at-put due addr (at due addr ++ seq ∷ []) a, t)
          (subst (λ b. member n (at due addr ++ seq ∷ []) ≡ (member n (at due b) || (seq == n)))
            ((e.beq_iff addr a).0 t) (member-append n (at due addr) seq))
    | inr t ↦ rw (at-put due addr (at due addr ++ seq ∷ []) a, t) (ground arith)
  ]

  same_out :
      (out : Dict A (Dict ℕ (List ℕ))) (addr : A) (seq : ℕ) (a : A) (n : ℕ)
      → IsOut out a n
      → (e.beq addr a && (seq == n)) ≡ true
      → has (at out addr) seq ≡ true
  same_out out addr seq a n o h =
      let (here, there) = both (e.beq addr a) (seq == n) h in
      rw ((e.beq_iff addr a).0 here, (==_iff seq n).0 there) o

  -- Every key that is out is grouped.
  group_due-IsGrouped :
      (out : Dict A (Dict ℕ (List ℕ))) (keys : List (A × ℕ)) (due : Dict A (List ℕ)) (a : A) (n : ℕ)
      → IsOut out a n
      → (IsGrouped due a n) ⊎ (contains keys (a, n) ≡ true)
      → IsGrouped (group_due out keys due) a n
  unfolding group_due pair_beq
  group_due-IsGrouped out [] due a n o (inl g) = g
  group_due-IsGrouped out [] due a n o (inr c) = absurd (ground arith)
  group_due-IsGrouped out ((addr, seq) ∷ keys) due a n o h =
      elim (Bool-cases (has (at out addr) seq)) [
        | inl t ↦ rw t (
            group_due-IsGrouped out keys (put due addr (at due addr ++ seq ∷ [])) a n o
              (ground (arith, IsGrouped-put due addr seq a n)))
        | inr t ↦
            rw t
              (group_due-IsGrouped out keys due a n o (ground (arith, same_out out addr seq a n o)))
      ]

module _ {T A : Type 0} ⦃f : Float T⦄ ⦃e : Eq A⦄ (o : FloatOrder T) where
  -- A timer that ends is one of the keys, and the others stay.
  expire-IsTimed :
      (s : Sender T A) (now : T)
      → IsTimed (λ a n. ⊥) s
      → IsTimed (IsWaiting (expire s now).due_by_addr) (expire s now).sender
  unfolding expire has
  expire-IsTimed s now t =
      let p = pop_due-PopsDue o s.timer_heap now t.well_formed in
      record {
        well_formed = p.well_formed;
        timed = λ a n out.
            elim (Bool-cases (is_due now (get s.timer_heap.key_to_deadline (a, n)))) [
              | inl due ↦ inr (
                  IsWaiting-of_grouped _ a n (
                    group_due-IsGrouped s.outstanding (pop_due s.timer_heap now).1 [] a n out
                      (inr (p.returned (a, n) ∙ due))))
              | inr later ↦ elim (t.timed a n out) [
                | inl timer ↦ inl (ap is_some (p.left (a, n) ∙ rw later refl) ∙ timer)
                | inr never ↦ absurd never
              ]
            ];
      }

  count_retry-IsTimed :
      (E : A → ℕ → Type 0) (c : Config T) (s : Sender T A) (addr : A)
      → IsTimed E s
      → IsTimed E (count_retry c s addr)
  unfolding count_retry
  count_retry-IsTimed E c s addr t = IsTimed-same E s _ refl (λ a n out. out) t

  module _ (accepts : ℕ → Bool) (c : Config T) (now : T) (E : A → ℕ → Type 0) where
    -- The excuse of the numbers that the loop still has before it.
    abbrev Ahead : List ℕ → A → A → ℕ → Type 0
    Ahead seqs addr a n = ((e.beq addr a ≡ true) × (member n seqs ≡ true)) ⊎ E a n

    not_ahead :
        (seqs : List ℕ) (addr a : A) (n : ℕ) → e.beq addr a ≡ false → Ahead seqs addr a n → E a n
    not_ahead seqs addr a n b (inl (here, m)) = absurd (ground arith)
    not_ahead seqs addr a n b (inr x) = x

    renew-IsTimed :
        (s : Sender T A) (addr : A) (seq : ℕ) (more : List ℕ)
        → IsTimed (Ahead (seq ∷ more) addr) s
        → IsTimed (Ahead more addr) (renew accepts c now s addr seq)
    unfolding renew member
    renew-IsTimed s addr seq more t = record {
      well_formed =
          schedule-IsWellFormed o s.timer_heap (addr, seq) (f.add now (rto_value c s addr))
            t.well_formed;
      timed = λ a n out. elim (Bool-cases (e.beq addr a && (seq == n))) [
        | inl b ↦ inl (schedule_lem s.timer_heap addr seq _ a n ∙ rw b refl)
        | inr b ↦ elim (t.timed a n out) [
          | inl timer ↦ inl (schedule_lem s.timer_heap addr seq _ a n ∙ rw b timer)
          | inr (inl (here, m)) ↦ inr (inl (here, ground arith))
          | inr (inr x) ↦ inr (inr x)
        ]
      ];
    }

    -- A number that is not out needs no excuse.
    skip-IsTimed :
        (s : Sender T A) (addr : A) (seq : ℕ) (more : List ℕ)
        → get (at s.outstanding addr) seq ≡ none
        → IsTimed (Ahead (seq ∷ more) addr) s
        → IsTimed (Ahead more addr) s
    unfolding member has
    skip-IsTimed s addr seq more gone t = record {
      well_formed = t.well_formed;
      timed = λ a n out. elim (t.timed a n out) [
        | inl timer ↦ inl timer
        | inr (inl (here, m)) ↦
            let there =
              subst (λ b. has (at s.outstanding b) n ≡ true) (sym ((e.beq_iff addr a).0 here))
                out in
            inr (inl (here, ground arith))
        | inr (inr x) ↦ inr (inr x)
      ];
    }

    resend-IsTimed :
        (seqs : List ℕ) (s : Sender T A) (link : Link A) (addr : A)
        → IsTimed (Ahead seqs addr) s
        → IsTimed E (resend accepts c now seqs s link addr).0
    unfolding resend member
    resend-IsTimed [] s link addr t = record {
      well_formed = t.well_formed;
      timed = λ a n out. elim (t.timed a n out) [
        | inl timer ↦ inl timer
        | inr (inl (here, m)) ↦ absurd (ground arith)
        | inr (inr x) ↦ inr x
      ];
    }
    resend-IsTimed (seq ∷ more) s link addr t =
        elim (Option-cases (get (at s.outstanding addr) seq)) [
          | inl n ↦
              rw (resend, n) (resend-IsTimed more s link addr (skip-IsTimed s addr seq more n t))
          | inr (packet, h) ↦
              let renewed = renew-IsTimed s addr seq more t in
              elim (Bool-cases (channel_send accepts link packet addr).1) [
                | inl ok ↦
                    rw (resend, h, ok)
                      (resend-IsTimed more (renew accepts c now s addr seq)
                        (channel_send accepts link packet addr).0 addr renewed)
                | inr raised ↦
                    rw (resend, h, raised)
                      (fail_peer-IsTimed o (Ahead more addr) E (renew accepts c now s addr seq) addr
                        send_failed (λ a n b x. not_ahead more addr a n b x) renewed)
              ]
        ]

    timeout_peer-IsTimed :
        (seqs : List ℕ) (s : Sender T A) (link : Link A) (addr : A)
        → IsTimed (Ahead seqs addr) s
        → IsTimed E (timeout_peer accepts c now seqs s link addr).0
    unfolding timeout_peer
    timeout_peer-IsTimed seqs s link addr t =
        let counted = count_retry-IsTimed (Ahead seqs addr) c s addr t in
        elim (Bool-cases (ltb max_retries (get_or (count_retry c s addr).retries addr 0))) [
          | inl b ↦ rw b (
              fail_peer-IsTimed o (Ahead seqs addr) E (count_retry c s addr) addr no_ack
                (λ a n b x. not_ahead seqs addr a n b x) counted)
          | inr b ↦ rw b (resend-IsTimed seqs (count_retry c s addr) link addr counted)
        ]

  timeout_all-IsTimed :
      (accepts : ℕ → Bool) (c : Config T) (now : T) (due : Dict A (List ℕ)) (s : Sender T A)
      (link : Link A)
      → IsTimed (IsWaiting due) s
      → IsTimed (λ a n. ⊥) (timeout_all accepts c now due s link).0
  unfolding timeout_all
  timeout_all-IsTimed accepts c now [] s link t = t
  timeout_all-IsTimed accepts c now ((addr, seqs) ∷ more) s link t =
      timeout_all-IsTimed accepts c now more (timeout_peer accepts c now seqs s link addr).0
        (timeout_peer accepts c now seqs s link addr).1
        (timeout_peer-IsTimed accepts c now (IsWaiting more) seqs s link addr t)

  pub handle_timeouts-IsTimed :
      (accepts : ℕ → Bool) (c : Config T) (now : T) (s : Sender T A) (link : Link A)
      → IsTimed (λ a n. ⊥) s
      → IsTimed (λ a n. ⊥) (handle_timeouts accepts c now s link).0
  unfolding handle_timeouts
  handle_timeouts-IsTimed accepts c now s link t =
      timeout_all-IsTimed accepts c now (expire s now).due_by_addr (expire s now).sender link
        (expire-IsTimed s now t)

  pub next_wait_time-IsTimed :
      (s : Sender T A) (now : T)
      → IsTimed (λ a n. ⊥) s
      → IsTimed (λ a n. ⊥) (next_wait_time s now).0
  unfolding next_wait_time nearest
  next_wait_time-IsTimed s now t = record {
    well_formed = nearest-IsWellFormed o s.timer_heap t.well_formed;
    timed = λ a n out. t.timed a n out;
  }
