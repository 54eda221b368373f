-- ===== src/GoBackN/Window/Timers.antt =====
-- Timeouts only shrink the window.
use udp_arq_lab.Prelude.{
  ℕ, ◌+◌, refl, inl, inr, Bool, none, List, [], ◌∷◌, ltb, Bool-cases, Option-cases, List-cases,
}
use udp_arq_lab.Prelude.Dict.{nat_eq_inst, Dict, Eq, get_or, put}
use udp_arq_lab.Prelude.Float.{Float}
use udp_arq_lab.GoBackN.State.{Sender, max_retries}
use udp_arq_lab.GoBackN.Timeouts.{
  mark, resend, rearm, retry, expire, timeout_peer, timeout_all, sort_keys,
}
use udp_arq_lab.GoBackN.Window.{
  Shrinks, Shrinks-refl, Shrinks-trans, Shrinks-same, fail_peer-Shrinks,
}
use udp_arq_lab.Sliding.{Config, Link, send_failed, no_ack, at, channel_send}

module _ {T A : Type 0} ⦃f : Float T⦄ ⦃e : Eq A⦄ (accepts : ℕ → Bool) (c : Config T) (now : T) where
  mark-Shrinks : (s : Sender T A) (addr : A) (seq : ℕ) → Shrinks s (mark accepts c now s addr seq)
  unfolding mark
  mark-Shrinks s addr seq = elim (Bool-cases c.adaptive) [
    | inl t ↦ rw t (Shrinks-same s _ refl refl)
    | inr t ↦ rw t (Shrinks-refl s)
  ]

  rearm-Shrinks : (s : Sender T A) (addr : A) → Shrinks s (rearm accepts c now s addr)
  unfolding rearm
  rearm-Shrinks s addr = elim (List-cases (at s.outstanding addr)) [
    | inl n ↦ rw (rearm, n) (Shrinks-refl s)
    | inr (p, ps, h) ↦ elim (Bool-cases c.adaptive) [
      | inl t ↦ rw (rearm, h, t) (Shrinks-same s _ refl refl)
      | inr t ↦ rw (rearm, h, t) (Shrinks-same s _ refl refl)
    ]
  ]

  resend-Shrinks :
      (packets : Dict ℕ (List ℕ)) (s : Sender T A) (link : Link A) (addr : A)
      → Shrinks s (resend accepts c now packets s link addr).0
  unfolding resend
  resend-Shrinks [] s link addr = Shrinks-refl s
  resend-Shrinks ((seq, packet) ∷ more) s link addr =
      elim (Bool-cases (channel_send accepts link packet addr).1) [
        | inl t ↦
            rw (resend, t)
              (Shrinks-trans s _ _ (mark-Shrinks s addr seq) (
                resend-Shrinks more (mark accepts c now s addr seq)
                  (channel_send accepts link packet addr).0 addr))
        | inr t ↦
            rw (resend, t)
              (Shrinks-trans s _ _ (mark-Shrinks s addr seq) (fail_peer-Shrinks _ addr send_failed))
      ]

  abbrev counted : Sender T A → A → Sender T A
  counted s addr = record s { retries = put s.retries addr (get_or s.retries addr 0 + 1) }

  retry-Shrinks :
      (s : Sender T A) (link : Link A) (addr : A) → Shrinks s (retry accepts c now s link addr).0
  unfolding retry
  retry-Shrinks s link addr = elim (Bool-cases (ltb max_retries (get_or s.retries addr 0 + 1))) [
    | inl t ↦ rw t (
        Shrinks-trans s (counted s addr) _ (Shrinks-same s _ refl refl)
          (fail_peer-Shrinks _ addr no_ack))
    | inr t ↦ rw t (
        Shrinks-trans s (counted s addr) _ (Shrinks-same s _ refl refl) (
          Shrinks-trans _ _ _
            (resend-Shrinks (sort_keys (at s.outstanding addr)) (counted s addr) link addr)
            (rearm-Shrinks _ addr)))
  ]

  expire-Shrinks :
      (s : Sender T A) (link : Link A) (addr : A) → Shrinks s (expire accepts c now s link addr).0
  unfolding expire
  expire-Shrinks s link addr = elim (List-cases (at s.outstanding addr)) [
    | inl n ↦ rw (expire, n) (Shrinks-same s _ refl refl)
    | inr (p, ps, h) ↦ rw (expire, h) (retry-Shrinks s link addr)
  ]

  timeout_peer-Shrinks :
      (s : Sender T A) (link : Link A) (addr : A)
      → Shrinks s (timeout_peer accepts c now s link addr).0
  unfolding timeout_peer
  timeout_peer-Shrinks s link addr = elim (Option-cases (get_or s.timer_deadline addr none)) [
    | inl n ↦ rw (timeout_peer, n) (Shrinks-refl s)
    | inr (deadline, h) ↦ elim (Bool-cases (f.lt now deadline)) [
      | inl t ↦ rw (timeout_peer, h, t) (Shrinks-refl s)
      | inr t ↦ rw (timeout_peer, h, t) (expire-Shrinks s link addr)
    ]
  ]

  pub timeout_all-Shrinks :
      (addrs : List A) (s : Sender T A) (link : Link A)
      → Shrinks s (timeout_all accepts c now addrs s link).0
  unfolding timeout_all
  timeout_all-Shrinks [] s link = Shrinks-refl s
  timeout_all-Shrinks (addr ∷ more) s link =
      Shrinks-trans s _ _ (timeout_peer-Shrinks s link addr) (
        timeout_all-Shrinks more (timeout_peer accepts c now s link addr).0
          (timeout_peer accepts c now s link addr).1)
