-- ===== src/GoBackN/Ack/Cumulative.antt =====
-- A cumulative ACK takes exactly the packets below it out of the window.
use mathlib.Core.Logic.{◌⊎◌, inl, inr}
use udp_arq_lab.Prelude.{
  ℕ, ◌≤◌, ◌<◌, ◌≡◌, refl, sym, ap, ◌∙◌, ◌&&◌, none, some, List, [], ◌∷◌, arith, ltb, leb,
  if◌then◌else◌, Bool-cases,
}
use udp_arq_lab.Prelude.Dict.{
  nat_eq_inst, Dict, Eq, get, get_or, has, remove, get-put, get-remove, beq_refl,
}
use udp_arq_lab.Prelude.Float.{Float}
use udp_arq_lab.GoBackN.State.{Sender, rto_value}
use udp_arq_lab.Sliding.Peers.{at-adjust}
use udp_arq_lab.GoBackN.Ack.{
  below, pop_all, account, restart_timer, advance, accept_ack, ack_from, handle_ack,
}
use udp_arq_lab.Sliding.{Config, at, member}

get-pop_all :
    {V : Type 0} (seqs : List ℕ) (d : Dict ℕ V) (n : ℕ)
    → get (pop_all d seqs) n ≡ (if member n seqs then none else get d n)
unfolding pop_all member
get-pop_all [] d n = refl
get-pop_all (s ∷ seqs) d n = ground (arith, get-pop_all seqs (remove d s) n, get-remove d s n)

member-below :
    {V : Type 0} (ack : ℕ) (d : Dict ℕ V) (n : ℕ) → member n (below ack d) ≡ (has d n && ltb n ack)
unfolding below member has get
member-below ack [] n = refl
member-below ack ((k, v) ∷ d) n = ground (arith, member-below ack d n)

pub get-pop_below :
    {V : Type 0} (ack : ℕ) (d : Dict ℕ V) (n : ℕ)
    → get (pop_all d (below ack d)) n ≡ (if ltb n ack then none else get d n)
unfolding has
get-pop_below ack d n = ground (arith, get-pop_all (below ack d) d n, member-below ack d n)

items_lem :
    {V W : Type 0} (ack : ℕ) (d : Dict ℕ V) (items : Dict ℕ W) (n : ℕ)
    → get (pop_all items (below ack d)) n ≡ (if has d n && ltb n ack then none else get items n)
items_lem ack d items n = ground (arith, get-pop_all (below ack d) items n, member-below ack d n)

pop_nil : {V : Type 0} (seqs : List ℕ) → pop_all {V = V} [] seqs ≡ []
unfolding pop_all remove
pop_nil [] = refl
pop_nil (s ∷ seqs) = pop_nil seqs

module _ {T A : Type 0} ⦃f : Float T⦄ ⦃e : Eq A⦄ where
  account_keeps :
      (c : Config T) (s : Sender T A) (addr : A) (base : ℕ) (seqs : List ℕ) (now : T)
      → ((account c s addr base seqs now).base ≡ s.base)
        × ((account c s addr base seqs now).outstanding ≡ s.outstanding)
        × ((account c s addr base seqs now).sent_items ≡ s.sent_items)
        × ((account c s addr base seqs now).pending ≡ s.pending)
  unfolding account
  account_keeps c s addr base seqs now = elim (Bool-cases c.adaptive) [
    | inl t ↦ rw t (refl, refl, refl, refl)
    | inr t ↦ rw t (refl, refl, refl, refl)
  ]

  -- From `s` to `s'` the packets of `addr` below `ack` were acknowledged, and nothing else.
  pub record Acked (c : Config T) (s : Sender T A) (addr : A) (ack next_seq : ℕ) (now : T)
      (s' : Sender T A) : Type 0 where
    pub base_eq : (a : A) → get s'.base a ≡ (if e.beq addr a then some ack else get s.base a)
    pub window_eq :
        (n : ℕ)
        → get (at s'.outstanding addr) n
          ≡ (if ltb n ack then none else get (at s.outstanding addr) n)
    pub items_eq :
        (n : ℕ)
        → get (at s'.sent_items addr) n ≡ (
            if has (at s.outstanding addr) n && ltb n ack
            then none
            else get (at s.sent_items addr) n)
    pub others_eq :
        (a : A)
        → at s'.outstanding a
          ≡ (if e.beq addr a then at s'.outstanding addr else at s.outstanding a)
    pub pending_eq : s'.pending ≡ s.pending
    pub timer_eq :
        get s'.timer_deadline addr
        ≡ some (if ltb ack next_seq then some (f.add now (rto_value c s' addr)) else none)

  advance_window :
      (s : Sender T A) (addr : A) (ack : ℕ) (a : A)
      → at (advance s addr ack).outstanding a ≡ (
          if e.beq addr a
          then pop_all (at s.outstanding addr) (below ack (at s.outstanding addr))
          else at s.outstanding a)
  unfolding advance
  advance_window s addr ack a =
      at-adjust s.outstanding addr (λ d. pop_all d (below ack (at s.outstanding addr))) a
        (pop_nil _)

  window_here :
      (s : Sender T A) (addr : A) (ack : ℕ)
      → at (advance s addr ack).outstanding addr
        ≡ pop_all (at s.outstanding addr) (below ack (at s.outstanding addr))
  window_here s addr ack = advance_window s addr ack addr ∙ rw (beq_refl addr) refl

  advance_items :
      (s : Sender T A) (addr : A) (ack : ℕ)
      → at (advance s addr ack).sent_items addr
        ≡ pop_all (at s.sent_items addr) (below ack (at s.outstanding addr))
  unfolding advance
  advance_items s addr ack =
      at-adjust s.sent_items addr (λ d. pop_all d (below ack (at s.outstanding addr))) addr
        (pop_nil _)
      ∙ rw (beq_refl addr) refl

  rto_value-timer :
      (c : Config T) (s : Sender T A) (addr : A) (ack next_seq : ℕ) (now : T)
      → rto_value c (restart_timer c s addr ack next_seq now) addr ≡ rto_value c s addr
  unfolding rto_value restart_timer
  rto_value-timer c s addr ack next_seq now = refl

  accept_ack-Acked :
      (c : Config T) (s : Sender T A) (addr : A) (base next_seq ack : ℕ) (now : T)
      → Acked c s addr ack next_seq now (accept_ack c s addr base next_seq ack now)
  unfolding accept_ack restart_timer advance account rto_value
  accept_ack-Acked c s addr base next_seq ack now =
      let (kb, ko, ki, kp) =
        account_keeps c (advance s addr ack) addr base (below ack (at s.outstanding addr)) now in
      record {
        base_eq = λ a. ap (λ d. get d a) kb ∙ get-put s.base addr ack a;
        window_eq = λ n.
            ap (λ d. get (at d addr) n) ko
            ∙ ap (λ d. get d n) (window_here s addr ack)
            ∙ get-pop_below ack (at s.outstanding addr) n;
        items_eq = λ n.
            ap (λ d. get (at d addr) n) ki
            ∙ ap (λ d. get d n) (advance_items s addr ack)
            ∙ items_lem ack (at s.outstanding addr) (at s.sent_items addr) n;
        others_eq = λ a.
            ap (λ d. at d a) ko
            ∙ advance_window s addr ack a
            ∙ ap (λ d. if e.beq addr a then d else at s.outstanding a)
                (sym (ap (λ d. at d addr) ko ∙ window_here s addr ack));
        pending_eq = kp;
        timer_eq = get-put _ addr _ addr ∙ rw (beq_refl addr) refl;
      }

  -- An ACK from a peer with a window either lies above its base and at most at the next number to
  -- assign, and then it acknowledges exactly the outstanding packets below it: they leave the
  -- window, the others and the pending ones stay, the base becomes the ACK's number, other peers
  -- keep their windows, and the timer runs on exactly if numbers below the next one are left. Or
  -- it lies outside, and nothing changes.
  pub handle_ack_lem :
      (c : Config T) (s : Sender T A) (addr : A) (base ack : ℕ) (now : T)
      → get s.base addr ≡ some base
      → ((base < ack)
          × (ack ≤ get_or s.next_seq addr base)
          × Acked c s addr ack (get_or s.next_seq addr base) now (handle_ack c s addr ack now))
        ⊎ (((ack ≤ base) ⊎ (get_or s.next_seq addr base < ack)) × (handle_ack c s addr ack now ≡ s))
  unfolding handle_ack ack_from
  handle_ack_lem c s addr base ack now h = elim (Bool-cases (leb ack base)) [
    | inl t ↦ inr (inl (ground arith), rw (handle_ack, h, t) refl)
    | inr t ↦ elim (Bool-cases (ltb (get_or s.next_seq addr base) ack)) [
      | inl u ↦ inr (inr (ground arith), rw (handle_ack, h, t, u) refl)
      | inr u ↦ inl (
        ground arith,
        ground arith,
        rw (handle_ack, h, t, u)
            (accept_ack-Acked c s addr base (get_or s.next_seq addr base) ack now),
      )
    ]
  ]
