-- ===== src/SelectiveRepeat/Timed.antt =====
-- The timers: every packet that is out has one.
pub mod Sending
pub mod Timeouts
pub mod Turns
use mathlib.Core.Path.{subst}
use udp_arq_lab.Prelude.{
  ℕ, ◌≡◌, refl, sym, ap, ◌∙◌, ◌⊎◌, inl, inr, Bool, true, false, ◌&&◌, not, none, some, List, [],
  ◌∷◌, arith, ◌==◌, if◌then◌else◌, Bool-cases,
}
use udp_arq_lab.Prelude.Dict.{
  nat_eq_inst, pair_eq_inst, pair_beq, Dict, Eq, get, has, put, remove, get-put, get-remove,
}
use udp_arq_lab.Prelude.Float.{Float, FloatOrder}
use udp_arq_lab.TimerHeap.{TimerHeap, schedule, cancel}
use udp_arq_lab.TimerHeap.Spec.{IsWellFormed, schedule-IsWellFormed, cancel-IsWellFormed}
use udp_arq_lab.Sliding.{Failure, at, keys}
use udp_arq_lab.Sliding.Peers.{at-adjust}
use udp_arq_lab.SelectiveRepeat.State.{Sender, cancel_all, fail_peer}

module _ {A : Type 0} ⦃e : Eq A⦄ where
  -- The packet `n` to the peer is sent and not acknowledged.
  abbrev pub IsOut : Dict A (Dict ℕ (List ℕ)) → A → ℕ → Type 0
  IsOut outstanding a n = has (at outstanding a) n ≡ true

module _ {T A : Type 0} ⦃f : Float T⦄ ⦃e : Eq A⦄ where
  -- A timer of the packet is scheduled.
  abbrev pub IsScheduled : TimerHeap T (A × ℕ) → A → ℕ → Type 0
  IsScheduled h a n = has h.key_to_deadline (a, n) ≡ true

  -- Each packet that is out has a timer, or is excused.
  pub record IsTimed (Excused : A → ℕ → Type 0) (s : Sender T A) : Type 0 where
    pub well_formed : IsWellFormed s.timer_heap
    pub timed :
        (a : A) (n : ℕ) → IsOut s.outstanding a n → IsScheduled s.timer_heap a n ⊎ Excused a n

  -- Where heap and packets stay as they are.
  pub IsTimed-same :
      (E : A → ℕ → Type 0) (s s' : Sender T A)
      → s'.timer_heap ≡ s.timer_heap
      → ((a : A) (n : ℕ) → IsOut s'.outstanding a n → IsOut s.outstanding a n)
      → IsTimed E s
      → IsTimed E s'
  IsTimed-same E s s' h o t = record {
    well_formed = rw h t.well_formed;
    timed = λ a n x. rw h (t.timed a n (o a n x));
  }

  pub schedule_lem :
      (h : TimerHeap T (A × ℕ)) (addr : A) (seq : ℕ) (deadline : T) (a : A) (n : ℕ)
      → has (schedule h (addr, seq) deadline).key_to_deadline (a, n)
        ≡ (if e.beq addr a && (seq == n) then true else has h.key_to_deadline (a, n))
  unfolding schedule has pair_beq
  schedule_lem h addr seq deadline a n =
      ground (arith, get-put h.key_to_deadline (addr, seq) deadline (a, n))

  pub cancel_lem :
      (h : TimerHeap T (A × ℕ)) (addr : A) (seq : ℕ) (a : A) (n : ℕ)
      → has (cancel h (addr, seq)).key_to_deadline (a, n)
        ≡ (if e.beq addr a && (seq == n) then false else has h.key_to_deadline (a, n))
  unfolding cancel has pair_beq
  cancel_lem h addr seq a n = ground (arith, get-remove h.key_to_deadline (addr, seq) (a, n))

  -- The timers of other peers stay.
  cancel_all_others :
      (h : TimerHeap T (A × ℕ)) (addr : A) (seqs : List ℕ) (a : A) (n : ℕ)
      → e.beq addr a ≡ false
      → has (cancel_all h addr seqs).key_to_deadline (a, n) ≡ has h.key_to_deadline (a, n)
  unfolding cancel_all
  cancel_all_others h addr [] a n b = refl
  cancel_all_others h addr (seq ∷ seqs) a n b =
      cancel_all_others (cancel h (addr, seq)) addr seqs a n b
      ∙ cancel_lem h addr seq a n
      ∙ rw b refl

pub nothing_out : (n : ℕ) → has {V = List ℕ} [] n ≡ true → ⊥
unfolding has get
nothing_out n h = absurd (ground arith)

module _ {T A : Type 0} ⦃f : Float T⦄ ⦃e : Eq A⦄ (o : FloatOrder T) where
  cancel_all-IsWellFormed :
      (h : TimerHeap T (A × ℕ)) (addr : A) (seqs : List ℕ)
      → IsWellFormed h
      → IsWellFormed (cancel_all h addr seqs)
  unfolding cancel_all
  cancel_all-IsWellFormed h addr [] w = w
  cancel_all-IsWellFormed h addr (seq ∷ seqs) w =
      cancel_all-IsWellFormed (cancel h (addr, seq)) addr seqs
        (cancel-IsWellFormed o h (addr, seq) w)

  -- A packet to the failed peer needs no excuse: none is out.
  pub fail_peer-IsTimed :
      (E E' : A → ℕ → Type 0) (s : Sender T A) (addr : A) (x : Failure)
      → ((a : A) (n : ℕ) → e.beq addr a ≡ false → E a n → E' a n)
      → IsTimed E s
      → IsTimed E' (fail_peer s addr x)
  unfolding fail_peer
  fail_peer-IsTimed E E' s addr x pass t = record {
    well_formed =
        cancel_all-IsWellFormed s.timer_heap addr (keys (at s.outstanding addr)) t.well_formed;
    timed = λ a n out. elim (Bool-cases (e.beq addr a)) [
      | inl b ↦ absurd (
          nothing_out n (
            ap (λ d. has d n) (sym (at-adjust s.outstanding addr (λ inner. []) a refl ∙ rw b refl))
            ∙ out))
      | inr b ↦
          elim (t.timed a n (
            ap (λ d. has d n) (sym (at-adjust s.outstanding addr (λ inner. []) a refl ∙ rw b refl))
            ∙ out)) [
              | inl timer ↦
                  inl (
                    cancel_all_others s.timer_heap addr (keys (at s.outstanding addr)) a n b
                    ∙ timer)
              | inr excused ↦ inr (pass a n b excused)
            ]
    ];
  }
