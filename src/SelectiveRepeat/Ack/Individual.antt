-- ===== src/SelectiveRepeat/Ack/Individual.antt =====
-- An individual ACK takes exactly its packet out of the window, and moves the base to the next
-- packet that is out.
use mathlib.Core.Path.{subst}
use mathlib.Core.Logic.{◌⊎◌, inl, inr}
use udp_arq_lab.Prelude.{
  ℕ, zero, suc, ◌+◌, ◌-◌, ◌≤◌, ◌<◌, ◌≡◌, refl, ap, ◌∙◌, true, false, not, ◌&&◌, none, some, [],
  arith, ltb, ◌==◌, if◌then◌else◌, Bool-cases,
}
use udp_arq_lab.Prelude.Dict.{
  nat_eq_inst, pair_eq_inst, Dict, Eq, get, get_or, has, remove, get-put, get-remove,
}
use udp_arq_lab.Prelude.Float.{Float}
use udp_arq_lab.TimerHeap.{cancel}
use udp_arq_lab.Sliding.{Config, at}
use udp_arq_lab.Sliding.Peers.{at-adjust}
use udp_arq_lab.SelectiveRepeat.State.{Sender}
use udp_arq_lab.SelectiveRepeat.Ack.{
  skip_acked, account, take_out, advance, ack_one, ack_from, handle_ack,
}

-- `b` is the first number from `base` on that is outstanding, or `next_seq` if none below it is.
pub record IsFirstOut {V : Type 0} (d : Dict ℕ V) (next_seq base b : ℕ) : Type 0 where
  pub base_le : base ≤ b
  pub none_before : (n : ℕ) → base ≤ n → n < b → has d n ≡ false
  pub out_there : b < next_seq → has d b ≡ true
  pub limited : (b ≤ next_seq) ⊎ (b ≡ base)

pub skip_acked-IsFirstOut :
    {V : Type 0} (fuel : ℕ) (d : Dict ℕ V) (next_seq base : ℕ)
    → next_seq ≤ base + fuel
    → IsFirstOut d next_seq base (skip_acked fuel d next_seq base)
unfolding skip_acked
skip_acked-IsFirstOut zero d next_seq base le = record {
  base_le = omega arith;
  none_before = λ n low high. absurd (omega (arith, low, high));
  out_there = λ lt. absurd (omega (arith, lt, le));
  limited = inr refl;
}
skip_acked-IsFirstOut (suc fuel) d next_seq base le =
    elim (Bool-cases (ltb base next_seq && not (has d base))) [
      | inl t ↦
          let ih = skip_acked-IsFirstOut fuel d next_seq (base + 1) (omega (arith, le)) in
          rw (skip_acked, t)
            (record {
              base_le = omega (arith, ih.base_le);
              none_before = λ n low high. ground (arith, ih.none_before n);
              out_there = ih.out_there;
              limited = inl (ground (arith, ih.limited));
            })
      | inr t ↦
          rw (skip_acked, t)
            (record {
              base_le = omega arith;
              none_before = λ n low high. absurd (omega (arith, low, high));
              out_there = λ lt. ground arith;
              limited = inr refl;
            })
    ]

module _ {T A : Type 0} ⦃f : Float T⦄ ⦃e : Eq A⦄ where
  -- From `s` to `s'` the packet `seq` to `addr` was acknowledged, and nothing else.
  pub record Acked (s : Sender T A) (addr : A) (base next_seq seq : ℕ) (s' : Sender T A)
      : Type 0 where
    pub b : ℕ
    pub base_eq : (a : A) → get s'.base a ≡ (if e.beq addr a then some b else get s.base a)
    pub first_out : IsFirstOut (at s'.outstanding addr) next_seq base b
    pub window_eq :
        (a : A) (n : ℕ)
        → get (at s'.outstanding a) n
          ≡ (if e.beq addr a && (seq == n) then none else get (at s.outstanding a) n)
    pub items_eq :
        (a : A) (n : ℕ)
        → get (at s'.sent_items a) n
          ≡ (if e.beq addr a && (seq == n) then none else get (at s.sent_items a) n)
    pub timer_eq : s'.timer_heap ≡ cancel s.timer_heap (addr, seq)
    pub pending_eq : s'.pending ≡ s.pending
    pub next_seq_eq : s'.next_seq ≡ s.next_seq
    pub errors_eq : s'.peer_errors ≡ s.peer_errors
    pub outbound_eq : s'.outbound ≡ s.outbound

  account_keeps :
      (c : Config T) (s : Sender T A) (addr : A) (seq : ℕ) (now : T)
      → ((account c s addr seq now).base ≡ s.base)
        × ((account c s addr seq now).outstanding ≡ s.outstanding)
        × ((account c s addr seq now).sent_items ≡ s.sent_items)
        × ((account c s addr seq now).timer_heap ≡ s.timer_heap)
        × ((account c s addr seq now).pending ≡ s.pending)
        × ((account c s addr seq now).next_seq ≡ s.next_seq)
        × ((account c s addr seq now).peer_errors ≡ s.peer_errors)
        × ((account c s addr seq now).outbound ≡ s.outbound)
  unfolding account
  account_keeps c s addr seq now = elim (Bool-cases c.adaptive) [
    | inl t ↦ rw t (refl, refl, refl, refl, refl, refl, refl, refl)
    | inr t ↦ rw t (refl, refl, refl, refl, refl, refl, refl, refl)
  ]

module _ {A V : Type 0} ⦃e : Eq A⦄ where
  pub get-pop_at :
      (d d' : Dict A (Dict ℕ V)) (addr : A) (seq : ℕ) (a : A) (n : ℕ)
      → at d' a ≡ (if e.beq addr a then remove (at d addr) seq else at d a)
      → get (at d' a) n ≡ (if e.beq addr a && (seq == n) then none else get (at d a) n)
  get-pop_at d d' addr seq a n h = elim (Bool-cases (e.beq addr a)) [
    | inl t ↦
        ap (λ x. get x n) h
        ∙ rw t (
            get-remove (at d addr) seq n
            ∙ ap (λ b. if seq == n then none else get (at d b) n) ((e.beq_iff addr a).0 t))
    | inr t ↦ ap (λ x. get x n) h ∙ rw t refl
  ]

number_of : (seq n : ℕ) → suc seq ≡ n + 1 → seq ≡ n
number_of seq n h = omega (arith, h)

pub remove_nil : {V : Type 0} (k : ℕ) → remove {V = V} [] k ≡ []
unfolding remove
remove_nil k = refl

module _ {T A : Type 0} ⦃f : Float T⦄ ⦃e : Eq A⦄ where
  take_out-Acked :
      (c : Config T) (s : Sender T A) (addr : A) (base next_seq seq : ℕ) (now : T)
      → Acked s addr base next_seq seq
          (advance (account c (take_out s addr seq) addr seq now) addr base next_seq)
  unfolding advance take_out
  take_out-Acked c s addr base next_seq seq now =
      let (kb, ko, ki, kt, kp, kn, ke, kq) = account_keeps c (take_out s addr seq) addr seq now in
      let moved =
        skip_acked (next_seq - base)
          (at (account c (take_out s addr seq) addr seq now).outstanding addr) next_seq base in
      record {
        b = moved;
        base_eq =
            λ a. get-put _ addr moved a ∙ ap (λ d. if e.beq addr a then some moved else get d a) kb;
        first_out = skip_acked-IsFirstOut (next_seq - base) _ next_seq base (omega arith);
        window_eq = λ a n.
            ap (λ d. get (at d a) n) ko
            ∙ get-pop_at s.outstanding _ addr seq a n
                (at-adjust s.outstanding addr (λ d. remove d seq) a (remove_nil seq));
        items_eq = λ a n.
            ap (λ d. get (at d a) n) ki
            ∙ get-pop_at s.sent_items _ addr seq a n
                (at-adjust s.sent_items addr (λ d. remove d seq) a (remove_nil seq));
        timer_eq = kt;
        pending_eq = kp;
        next_seq_eq = kn;
        errors_eq = ke;
        outbound_eq = kq;
      }

  -- The ACK names no outstanding packet, or one beyond what was assigned.
  abbrev pub IsStray : Sender T A → A → ℕ → ℕ → Type 0
  IsStray s addr next_seq ack =
      (next_seq < ack) ⊎ ((seq : ℕ) → ack ≡ seq + 1 → has (at s.outstanding addr) seq ≡ false)

  -- `handle_ack` takes `seq` out, or leaves all as it is.
  abbrev pub AckEffect : Sender T A → A → ℕ → ℕ → ℕ → Sender T A → Type 0
  AckEffect s addr base next_seq ack s' =
      ((seq : ℕ) × (ack ≡ seq + 1)
        × (ack ≤ next_seq)
        × (has (at s.outstanding addr) seq ≡ true)
        × Acked s addr base next_seq seq s')
      ⊎ (IsStray s addr next_seq ack × (s' ≡ s))

  ack_one-AckEffect :
      (c : Config T) (s : Sender T A) (addr : A) (base next_seq ack : ℕ) (now : T)
      → ack ≤ next_seq
      → AckEffect s addr base next_seq ack (ack_one c s addr base next_seq ack now)
  unfolding ack_one
  ack_one-AckEffect c s addr base next_seq zero now le =
      inr (inr (λ seq h. absurd (omega (arith, h))), refl)
  ack_one-AckEffect c s addr base next_seq (suc seq) now le =
      elim (Bool-cases (has (at s.outstanding addr) seq)) [
        | inl t ↦
            inl (seq, omega arith, le, t, rw t (take_out-Acked c s addr base next_seq seq now))
        | inr t ↦ inr (
          inr (λ n h. subst (λ m. has (at s.outstanding addr) m ≡ false) (number_of seq n h) t),
          rw t refl,
        )
      ]

  -- An ACK from a peer with a window: if it is `seq + 1`, at most the next number to assign, and
  -- packet `seq` is outstanding, then exactly this packet, its item and its timer go, the packets
  -- and bases of other peers, what is queued and pending, the numbers to assign and the recorded
  -- failures stay, and the base becomes the first number from
  -- the old one on that is outstanding, or the next number to assign if none below it is. Any other
  -- ACK changes nothing.
  pub handle_ack-AckEffect :
      (c : Config T) (s : Sender T A) (addr : A) (base ack : ℕ) (now : T)
      → get s.base addr ≡ some base
      → AckEffect s addr base (get_or s.next_seq addr base) ack (handle_ack c s addr ack now)
  unfolding handle_ack ack_from
  handle_ack-AckEffect c s addr base ack now h =
      elim (Bool-cases (ltb (get_or s.next_seq addr base) ack)) [
        | inl t ↦ rw (handle_ack, h, t) (inr (inl (ground arith), refl))
        | inr t ↦
            rw (handle_ack, h, t)
              (ack_one-AckEffect c s addr base (get_or s.next_seq addr base) ack now (ground arith))
      ]
