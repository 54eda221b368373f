-- ===== src/SelectiveRepeat/Kept/Expiry.antt =====
-- Timeouts keep what a sender keeps for a peer, or record its failure.
use mathlib.Core.Path.{subst}
use mathlib.Core.Logic.{inl, inr}
use udp_arq_lab.Prelude.{
  ℕ, ◌≡◌, refl, sym, ap, ◌∙◌, Bool, true, some, List, [], ◌∷◌, ltb, Bool-cases, Option-cases,
}
use udp_arq_lab.Prelude.Dict.{nat_eq_inst, Dict, Eq, get, get_or, has-set_default}
use udp_arq_lab.Prelude.Float.{Float}
use udp_arq_lab.Sliding.{Config, Link, Item, Failure, at, no_ack, channel_send}
use udp_arq_lab.Sliding.Peers.{at-adjust_here, at-adjust_other}
use udp_arq_lab.Sliding.Peers.{sent, sent_lem}
use udp_arq_lab.SelectiveRepeat.State.{Sender, max_retries, fail_peer}
use udp_arq_lab.SelectiveRepeat.Timeouts.{
  expire, count_retry, renew, resend, timeout_peer, timeout_all, handle_timeouts, next_wait_time,
}
use udp_arq_lab.SelectiveRepeat.Kept.{IsKept-fail, sent-IsWired}
use udp_arq_lab.SelectiveRepeat.Kept.Sending.{Keeps-same}
use udp_arq_lab.SelectiveRepeat.Kept.Pumping.{Holds}

module _ {T A : Type 0} ⦃f : Float T⦄ ⦃e : Eq A⦄ (b : A) (msg : ℕ → List ℕ) (limit : ℕ)
    (D : ℕ → Type 0) where
  fail_peer-Holds :
      (q : List (Item A)) (s : Sender T A) (l : Link A) (addr : A) (x : Failure)
      → Holds b msg limit D q s l
      → Holds b msg limit D q (fail_peer s addr x) l
  unfolding fail_peer
  fail_peer-Holds q s l addr x (k, w, r) = elim (Bool-cases (e.beq addr b)) [
    | inl t ↦ (
      rw
          (
            at-adjust_here s.pending addr (λ inner. []) b refl t,
            at-adjust_here s.outstanding addr (λ inner. []) b refl t,
            has-set_default s.peer_errors addr x b,
            t,
          )
          (IsKept-fail b msg limit D q (at s.pending b) (at s.outstanding b) _ _ k),
      w,
      r,
    )
    | inr t ↦ (
      Keeps-same b msg limit D q s (fail_peer s addr x)
          (at-adjust_other s.pending addr (λ inner. []) b refl t)
          (at-adjust_other s.outstanding addr (λ inner. []) b refl t) refl
          (has-set_default s.peer_errors addr x b ∙ rw t refl) k,
      w,
      r,
    )
  ]

  expire-Holds :
      (q : List (Item A)) (s : Sender T A) (l : Link A) (now : T)
      → Holds b msg limit D q s l
      → Holds b msg limit D q (expire s now).sender l
  unfolding expire
  expire-Holds q s l now h = h

  count_retry-Holds :
      (q : List (Item A)) (c : Config T) (s : Sender T A) (l : Link A) (addr : A)
      → Holds b msg limit D q s l
      → Holds b msg limit D q (count_retry c s addr) l
  unfolding count_retry
  count_retry-Holds q c s l addr h = h

  pub next_wait_time-Holds :
      (q : List (Item A)) (s : Sender T A) (l : Link A) (now : T)
      → Holds b msg limit D q s l
      → Holds b msg limit D q (next_wait_time s now).0 l
  unfolding next_wait_time
  next_wait_time-Holds q s l now h = h

  module _ (accepts : ℕ → Bool) (all : (n : ℕ) → accepts n ≡ true) (c : Config T) (now : T) where
    -- A packet that is out is sent again as it is.
    again-Holds :
        (q : List (Item A)) (s : Sender T A) (l : Link A) (addr : A) (seq : ℕ) (packet : List ℕ)
        → get (at s.outstanding addr) seq ≡ some packet
        → Holds b msg limit D q s l
        → Holds b msg limit D q (renew accepts c now s addr seq) (sent l packet addr)
    unfolding renew
    again-Holds q s l addr seq packet out (k, w, r) = (
      k,
      sent-IsWired b msg limit l packet addr
          (λ t. inl (
            seq,
            k.sent seq packet
                (ap (λ a. get (at s.outstanding a) seq) (sym ((e.beq_iff addr b).0 t)) ∙ out),
          ))
          w,
      r,
    )

    resend-Holds :
        (q : List (Item A)) (seqs : List ℕ) (s : Sender T A) (l : Link A) (addr : A)
        → Holds b msg limit D q s l
        → Holds b msg limit D q
            (resend accepts c now seqs s l addr).0
            (resend accepts c now seqs s l addr).1
    unfolding resend
    resend-Holds q [] s l addr h = h
    resend-Holds q (seq ∷ more) s l addr h = elim (Option-cases (get (at s.outstanding addr) seq)) [
      | inl n ↦ rw (resend, n) (resend-Holds q more s l addr h)
      | inr (packet, out) ↦
          let went = sent_lem accepts l packet addr (all l.sends) in
          rw (resend, out, ap (λ x. x.1) went)
            (resend-Holds q more (renew accepts c now s addr seq)
              (channel_send accepts l packet addr).0 addr
              (subst (λ x. Holds b msg limit D q (renew accepts c now s addr seq) x.0) (sym went)
                (again-Holds q s l addr seq packet out h)))
    ]

    timeout_peer-Holds :
        (q : List (Item A)) (seqs : List ℕ) (s : Sender T A) (l : Link A) (addr : A)
        → Holds b msg limit D q s l
        → Holds b msg limit D q
            (timeout_peer accepts c now seqs s l addr).0
            (timeout_peer accepts c now seqs s l addr).1
    unfolding timeout_peer
    timeout_peer-Holds q seqs s l addr h =
        let counted = count_retry-Holds q c s l addr h in
        elim (Bool-cases (ltb max_retries (get_or (count_retry c s addr).retries addr 0))) [
          | inl t ↦ rw t (fail_peer-Holds q (count_retry c s addr) l addr no_ack counted)
          | inr t ↦ rw t (resend-Holds q seqs (count_retry c s addr) l addr counted)
        ]

    timeout_all-Holds :
        (q : List (Item A)) (due : Dict A (List ℕ)) (s : Sender T A) (l : Link A)
        → Holds b msg limit D q s l
        → Holds b msg limit D q
            (timeout_all accepts c now due s l).0
            (timeout_all accepts c now due s l).1
    unfolding timeout_all
    timeout_all-Holds q [] s l h = h
    timeout_all-Holds q ((addr, seqs) ∷ more) s l h =
        timeout_all-Holds q more (timeout_peer accepts c now seqs s l addr).0
          (timeout_peer accepts c now seqs s l addr).1 (timeout_peer-Holds q seqs s l addr h)

    pub handle_timeouts-Holds :
        (q : List (Item A)) (s : Sender T A) (l : Link A)
        → Holds b msg limit D q s l
        → Holds b msg limit D q
            (handle_timeouts accepts c now s l).0
            (handle_timeouts accepts c now s l).1
    unfolding handle_timeouts
    handle_timeouts-Holds q s l h =
        timeout_all-Holds q (expire s now).due_by_addr (expire s now).sender l
          (expire-Holds q s l now h)
