-- ===== src/GoBackN/Window.antt =====
-- The window: no packet is outstanding beyond `window_size` numbers from the base.
pub mod Sending
pub mod Timers
pub mod Turns
use mathlib.Core.Logic.{◌⊎◌, inl, inr}
use mathlib.Core.Path.{subst}
use udp_arq_lab.Prelude.{
  ℕ, zero, suc, ◌+◌, ◌≤◌, ◌<◌, ◌≡◌, refl, sym, ap, ◌∙◌, Bool, true, false, ◌&&◌, Option, none, some,
  List, [], ◌∷◌, arith, ltb, if◌then◌else◌, Bool-cases, Option-cases,
}
use udp_arq_lab.Prelude.Dict.{
  get_or-put, get_or-set_default, nat_eq_inst, Dict, Eq, get, get_or, has, put, remove, set_default,
  get-put, get-remove, get-set_default, beq_refl,
}
use udp_arq_lab.Prelude.Float.{Float}
use udp_arq_lab.Prelude.Result.{Result, ok, err}
use udp_arq_lab.Rto.{RtoEstimator}
use udp_arq_lab.GoBackN.State.{Sender, max_retries, fail_peer}
use udp_arq_lab.Sliding.Peers.{at-put, at-adjust, at-set_default}
use udp_arq_lab.GoBackN.Ack.{handle_ack}
use udp_arq_lab.GoBackN.Ack.Cumulative.{Acked, handle_ack_lem}
use udp_arq_lab.GoBackN.Pump.{enter_pending, enter_partly, drain, drain_outbound, forget}
use udp_arq_lab.GoBackN.Timeouts.{
  mark, resend, rearm, retry, expire, timeout_peer, timeout_all, sort_keys,
}
use udp_arq_lab.Sliding.{
  Config, Link, Item, Failure, ThreadError, bad_timeout, no_ack, send_failed, at, adjust,
  channel_send, new_estimator,
}

-- Every key of the first dict is one of the second.
abbrev pub IsSub : {V : Type 0} → Dict ℕ V → Dict ℕ V → Type 0
IsSub d d' = (n : ℕ) → has d n ≡ true → has d' n ≡ true

pub nil-IsSub : {V : Type 0} (d : Dict ℕ V) → IsSub [] d
unfolding has get
nil-IsSub d n h = absurd (ground arith)

pub remove-IsSub : {V : Type 0} (d : Dict ℕ V) (k : ℕ) → IsSub (remove d k) d
unfolding has
remove-IsSub d k n h = ground (arith, get-remove d k n)

pub below-IsSub :
    {V : Type 0} (d d' : Dict ℕ V) (ack : ℕ)
    → ((n : ℕ) → get d' n ≡ (if ltb n ack then none else get d n))
    → IsSub d' d
unfolding has
below-IsSub d d' ack h n o = ground (arith, h n)

pub put-has :
    {V : Type 0} (d : Dict ℕ V) (k : ℕ) (v : V) (n : ℕ)
    → has (put d k v) n ≡ true
    → (n ≡ k) ⊎ (has d n ≡ true)
unfolding has
put-has d k v n h = ground (arith, get-put d k v n)

module _ {A V : Type 0} ⦃e : Eq A⦄ where
  -- A change of one peer's dict to a part of it.
  pub IsSub-at :
      (o o' : Dict A (Dict ℕ V)) (addr : A) (d : Dict ℕ V)
      → ((a : A) → at o' a ≡ (if e.beq addr a then d else at o a))
      → IsSub d (at o addr)
      → (a : A) → IsSub (at o' a) (at o a)
  IsSub-at o o' addr d h sub a n x = elim (Bool-cases (e.beq addr a)) [
    | inl t ↦
        subst (λ b. has (at o b) n ≡ true) ((e.beq_iff addr a).0 t)
          (sub n (ap (λ d. has d n) (sym (h a ∙ rw t refl)) ∙ x))
    | inr t ↦ ap (λ d. has d n) (sym (h a ∙ rw t refl)) ∙ x
  ]

module _ {T A : Type 0} ⦃f : Float T⦄ ⦃e : Eq A⦄ where
  -- The packet `n` to the peer is sent and not acknowledged.
  abbrev pub IsOut : Sender T A → A → ℕ → Type 0
  IsOut s a n = has (at s.outstanding a) n ≡ true

  -- Every outstanding packet is less than `w` numbers above the base of its peer.
  abbrev pub IsWindowed : ℕ → Sender T A → Type 0
  IsWindowed w s = (a : A) (n : ℕ) → IsOut s a n → n < get_or s.base a 0 + w

  -- No base falls, and no packet becomes outstanding.
  pub record Shrinks (s s' : Sender T A) : Type 0 where
    pub base_le : (a : A) → get_or s.base a 0 ≤ get_or s'.base a 0
    pub out_of : (a : A) (n : ℕ) → IsOut s' a n → IsOut s a n

  pub Shrinks-IsWindowed :
      (w : ℕ) (s s' : Sender T A) → Shrinks s s' → IsWindowed w s → IsWindowed w s'
  Shrinks-IsWindowed w s s' sh h a n o = omega (arith, h a n (sh.out_of a n o), sh.base_le a)

  pub Shrinks-refl : (s : Sender T A) → Shrinks s s
  Shrinks-refl s = record { base_le = λ a. omega arith; out_of = λ a n o. o }

  pub Shrinks-trans : (r s t : Sender T A) → Shrinks r s → Shrinks s t → Shrinks r t
  Shrinks-trans r s t x y = record {
    base_le = λ a. omega (arith, x.base_le a, y.base_le a);
    out_of = λ a n o. x.out_of a n (y.out_of a n o);
  }

  -- Where base and outstanding stay as they are.
  pub Shrinks-same :
      (s s' : Sender T A) → s'.base ≡ s.base → s'.outstanding ≡ s.outstanding → Shrinks s s'
  Shrinks-same s s' b o = record { base_le = λ a. rw b (omega arith); out_of = λ a n h. rw o at h }

  -- A change of one peer's packets to a part of them, and no change of the base.
  pub Shrinks-at :
      (s s' : Sender T A) (addr : A) (d : Dict ℕ (List ℕ))
      → s'.base ≡ s.base
      → ((a : A) → at s'.outstanding a ≡ (if e.beq addr a then d else at s.outstanding a))
      → IsSub d (at s.outstanding addr)
      → Shrinks s s'
  Shrinks-at s s' addr d b h sub = record {
    base_le = λ a. rw b (omega arith);
    out_of = IsSub-at s.outstanding s'.outstanding addr d h sub;
  }

  pub fail_peer-Shrinks : (s : Sender T A) (addr : A) (x : Failure) → Shrinks s (fail_peer s addr x)
  unfolding fail_peer
  fail_peer-Shrinks s addr x =
      Shrinks-at s _ addr [] refl (λ a. at-adjust s.outstanding addr (λ inner. []) a refl)
        (nil-IsSub (at s.outstanding addr))

  pub forget-Shrinks : (s : Sender T A) (addr : A) (seq : ℕ) → Shrinks s (forget s addr seq)
  unfolding forget remove
  forget-Shrinks s addr seq =
      Shrinks-at s _ addr (remove (at s.outstanding addr) seq) refl
        (λ a. at-adjust s.outstanding addr (λ inner. remove inner seq) a refl)
        (remove-IsSub (at s.outstanding addr) seq)

  Acked-Shrinks :
      (c : Config T) (s s' : Sender T A) (addr : A) (base ack next_seq : ℕ) (now : T)
      → get s.base addr ≡ some base
      → base < ack
      → Acked c s addr ack next_seq now s'
      → Shrinks s s'
  unfolding get_or
  Acked-Shrinks c s s' addr base ack next_seq now h lt k = record {
    base_le = λ a. elim (Bool-cases (e.beq addr a)) [
      | inl t ↦
          subst (λ b. get_or s.base b 0 ≤ get_or s'.base b 0) ((e.beq_iff addr a).0 t)
            (ground (arith, h, k.base_eq addr, beq_refl addr))
      | inr t ↦ ground (arith, k.base_eq a)
    ];
    out_of =
        IsSub-at s.outstanding s'.outstanding addr (at s'.outstanding addr) k.others_eq
          (below-IsSub (at s.outstanding addr) (at s'.outstanding addr) ack k.window_eq);
  }

  pub handle_ack-Shrinks :
      (c : Config T) (s : Sender T A) (addr : A) (ack : ℕ) (now : T)
      → Shrinks s (handle_ack c s addr ack now)
  unfolding handle_ack
  handle_ack-Shrinks c s addr ack now = elim (Option-cases (get s.base addr)) [
    | inl n ↦ rw (handle_ack, n) (Shrinks-refl s)
    | inr (base, h) ↦ elim (handle_ack_lem c s addr base ack now h) [
      | inl (lt, le, k) ↦ Acked-Shrinks c s _ addr base ack _ now h lt k
      | inr (outside, eq) ↦ rw eq (Shrinks-refl s)
    ]
  ]

module _ {A : Type 0} ⦃e : Eq A⦄ where
  set_default_le :
      (d : Dict A ℕ) (k : A) (v : ℕ) (a : A) → get_or d a 0 ≤ get_or (set_default d k v) a 0
  unfolding get_or
  set_default_le d k v a = elim (Bool-cases (e.beq k a)) [
    | inl t ↦
        subst (λ b. get_or d b 0 ≤ get_or (set_default d k v) b 0) ((e.beq_iff k a).0 t)
          (ground (arith, get-set_default d k v k, beq_refl k))
    | inr t ↦ ground (arith, get-set_default d k v a)
  ]

module _ {T A : Type 0} ⦃f : Float T⦄ ⦃e : Eq A⦄ where
  entered-Shrinks :
      (s s' : Sender T A) (addr : A) (seq : ℕ)
      → s'.base ≡ set_default s.base addr seq
      → s'.outstanding ≡ set_default s.outstanding addr []
      → Shrinks s s'
  entered-Shrinks s s' addr seq b o = record {
    base_le = λ a. rw b (set_default_le s.base addr seq a);
    out_of = λ a n h.
        ap (λ d. has d n) (sym (ap (λ d. at d a) o ∙ at-set_default s.outstanding addr a)) ∙ h;
  }

  pub drain-Shrinks :
      (c : Config T) (s : Sender T A) (items : List (Item A)) → Shrinks s (drain c s items).0
  unfolding drain enter_pending enter_partly
  drain-Shrinks c s [] = Shrinks-same s _ refl refl
  drain-Shrinks c s (item ∷ more) =
      elim (new_estimator c)
        as (λ x.
          Shrinks s
            (elim x as (λ y. Sender T A × Option ThreadError) [
              | err y ↦ (enter_partly (record s { outbound = more }) item, some bad_timeout)
              | ok r ↦ drain c (enter_pending s item r) more
            ]).0) [
              | err y ↦ entered-Shrinks s _ item.addr item.seq refl refl
              | ok r ↦
                  Shrinks-trans s _ _
                    (entered-Shrinks s (enter_pending s item r) item.addr item.seq refl refl)
                    (drain-Shrinks c (enter_pending s item r) more)
            ]
