-- ===== src/SelectiveRepeat/Kept.antt =====
-- What a sender keeps for one peer: every number that was assigned is queued, pending or out, or
-- the peer has received it, or the peer failed.
pub mod Sending
pub mod Pumping
pub mod Expiry
pub mod Turns
use mathlib.Core.Path.{subst}
use mathlib.Core.Logic.{◌⊎◌, inl, inr}
use udp_arq_lab.Prelude.{
  ℕ, ◌+◌, ◌<◌, ◌≡◌, refl, sym, ap, ◌∙◌, Bool, true, false, ◌&&◌, none, some, List, [], ◌∷◌, ◌++◌,
  arith, All, All-append, ◌==◌, ==_iff, if◌then◌else◌, Bool-cases,
}
use udp_arq_lab.Prelude.Dict.{
  nat_eq_inst, Dict, Eq, get, get_or, has, put, remove, get-put, get-remove,
}
use udp_arq_lab.Prelude.Result.{ok}
use udp_arq_lab.Wire.{data_packet, ack_packet}
use udp_arq_lab.Sliding.{Item, Link, at}
use udp_arq_lab.Sliding.Peers.{sent}
use udp_arq_lab.SelectiveRepeat.State.{Sender}

-- The bytes are message `n`, which has a packet. Only numbers below `limit` are used.
abbrev pub IsMessage : (ℕ → List ℕ) → ℕ → ℕ → List ℕ → Type 0
IsMessage msg limit n bytes =
    (bytes ≡ msg n) × (n < limit) × (packet : List ℕ) × (data_packet n (msg n) ≡ ok packet)

-- The packet carries message `n`.
abbrev pub Packs : (ℕ → List ℕ) → ℕ → ℕ → List ℕ → Type 0
Packs msg limit n packet = (n < limit) × (data_packet n (msg n) ≡ ok packet)

both : (b c : Bool) → (b && c) ≡ true → (b ≡ true) × (c ≡ true)
both true c h = (refl, h)
both false c h = absurd (ground arith)

-- What is found at the key that was just written.
put_here :
    {V : Type 0} (d : Dict ℕ V) (k : ℕ) (v : V) (n : ℕ) (w : V)
    → get (put d k v) n ≡ some w
    → (k == n) ≡ true
    → (k ≡ n) × (v ≡ w)
put_here d k v n w h t = (ground arith, ground (arith, get-put d k v n))

module _ {A : Type 0} ⦃e : Eq A⦄ (b : A) where
  -- The queue holds an item of that number to the peer.
  abbrev pub IsQueued : ℕ → List (Item A) → Type 0
  IsQueued n [] = ⊥
  IsQueued n (i ∷ q) = ((e.beq i.addr b ≡ true) × (i.seq ≡ n)) ⊎ IsQueued n q

  IsQueued-snoc : (n : ℕ) (q : List (Item A)) (i : Item A) → IsQueued n q → IsQueued n (q ++ i ∷ [])
  IsQueued-snoc n (j ∷ q) i (inl h) = inl h
  IsQueued-snoc n (j ∷ q) i (inr h) = inr (IsQueued-snoc n q i h)
  IsQueued-snoc n [] i h = absurd h

  IsQueued-last :
      (n : ℕ) (q : List (Item A)) (i : Item A)
      → e.beq i.addr b ≡ true
      → i.seq ≡ n
      → IsQueued n (q ++ i ∷ [])
  IsQueued-last n [] i h k = inl (h, k)
  IsQueued-last n (j ∷ q) i h k = inr (IsQueued-last n q i h k)

module _ {A : Type 0} ⦃e : Eq A⦄ (b : A) (msg : ℕ → List ℕ) (limit : ℕ) (D : ℕ → Type 0) where
  -- Of the numbers below `next`, by what is queued, pending and out to the peer; `D` says which
  -- ones the peer has received.
  pub record IsKept (q : List (Item A)) (pending : Dict ℕ (Item A)) (out : Dict ℕ (List ℕ))
      (next : ℕ) (failed : Bool) : Type 0 where
    pub queued : All (λ i. e.beq i.addr b ≡ true → IsMessage msg limit i.seq i.bytes) q
    pub waiting : (n : ℕ) (i : Item A) → get pending n ≡ some i → IsMessage msg limit n i.bytes
    pub sent : (n : ℕ) (p : List ℕ) → get out n ≡ some p → Packs msg limit n p
    pub accounted :
        (n : ℕ)
        → n < next
        → (IsQueued b n q ⊎ ((has pending n ≡ true) ⊎ (has out n ≡ true))) ⊎ (D n ⊎ (failed ≡ true))

  module _ (q : List (Item A)) (p : Dict ℕ (Item A)) (o : Dict ℕ (List ℕ)) (next : ℕ)
      (failed : Bool) where
    -- An item for the peer joins the queue.
    pub IsKept-queue :
        (i : Item A)
        → e.beq i.addr b ≡ true
        → i.seq ≡ next
        → IsMessage msg limit i.seq i.bytes
        → IsKept q p o next failed
        → IsKept (q ++ i ∷ []) p o (next + 1) failed
    IsKept-queue i here same good k = record {
      queued = All-append _ q (i ∷ []) k.queued ((λ h. good), tt);
      waiting = k.waiting;
      sent = k.sent;
      accounted = λ n lt. elim (Bool-cases (n == next)) [
        | inl t ↦ inl (inl (IsQueued-last b n q i here (ground (arith, same))))
        | inr t ↦ elim (k.accounted n (ground arith)) [
          | inl (inl x) ↦ inl (inl (IsQueued-snoc b n q i x))
          | inl (inr x) ↦ inl (inr x)
          | inr x ↦ inr x
        ]
      ];
    }

    -- An item for another peer joins it.
    pub IsKept-queue_other :
        (i : Item A)
        → e.beq i.addr b ≡ false
        → IsKept q p o next failed
        → IsKept (q ++ i ∷ []) p o next failed
    IsKept-queue_other i other k = record {
      queued = All-append _ q (i ∷ []) k.queued ((λ h. absurd (ground arith)), tt);
      waiting = k.waiting;
      sent = k.sent;
      accounted = λ n lt. elim (k.accounted n lt) [
        | inl (inl x) ↦ inl (inl (IsQueued-snoc b n q i x))
        | inl (inr x) ↦ inl (inr x)
        | inr x ↦ inr x
      ];
    }

    -- The first item becomes pending.
    pub IsKept-drain :
        (i : Item A)
        → e.beq i.addr b ≡ true
        → IsKept (i ∷ q) p o next failed
        → IsKept q (put p i.seq i) o next failed
    unfolding has
    IsKept-drain i here k = record {
      queued = k.queued.1;
      waiting = λ n j h. elim (Bool-cases (i.seq == n)) [
        | inl t ↦
            let (at_n, same) = put_here p i.seq i n j h t in
            subst (λ m. IsMessage msg limit m j.bytes) at_n
              (subst (λ x. IsMessage msg limit i.seq x) (ap (λ x. x.bytes) same) (k.queued.0 here))
        | inr t ↦ k.waiting n j (ground (arith, get-put p i.seq i n))
      ];
      sent = k.sent;
      accounted = λ n lt. elim (k.accounted n lt) [
        | inl (inl (inl (here, same))) ↦ inl (inr (inl (ground (arith, get-put p i.seq i n))))
        | inl (inl (inr x)) ↦ inl (inl x)
        | inl (inr (inl x)) ↦ inl (inr (inl (ground (arith, get-put p i.seq i n))))
        | inl (inr (inr x)) ↦ inl (inr (inr x))
        | inr x ↦ inr x
      ];
    }

    pub IsKept-drain_other :
        (i : Item A)
        → e.beq i.addr b ≡ false
        → IsKept (i ∷ q) p o next failed
        → IsKept q p o next failed
    IsKept-drain_other i other k = record {
      queued = k.queued.1;
      waiting = k.waiting;
      sent = k.sent;
      accounted = λ n lt. elim (k.accounted n lt) [
        | inl (inl (inl (here, same))) ↦ absurd (ground arith)
        | inl (inl (inr x)) ↦ inl (inl x)
        | inl (inr x) ↦ inl (inr x)
        | inr x ↦ inr x
      ];
    }

    -- A pending packet goes out.
    pub IsKept-pump :
        (seq : ℕ) (packet : List ℕ)
        → Packs msg limit seq packet
        → IsKept q p o next failed
        → IsKept q (remove p seq) (put o seq packet) next failed
    unfolding has
    IsKept-pump seq packet good k = record {
      queued = k.queued;
      waiting = λ n j h. k.waiting n j (ground (arith, get-remove p seq n));
      sent = λ n x h. elim (Bool-cases (seq == n)) [
        | inl t ↦
            let (at_n, same) = put_here o seq packet n x h t in
            subst (λ m. Packs msg limit m x) at_n (subst (λ y. Packs msg limit seq y) same good)
        | inr t ↦ k.sent n x (ground (arith, get-put o seq packet n))
      ];
      accounted = λ n lt. elim (k.accounted n lt) [
        | inl (inl x) ↦ inl (inl x)
        | inl (inr x) ↦ inl (inr (ground (arith, get-remove p seq n, get-put o seq packet n)))
        | inr x ↦ inr x
      ];
    }

    -- A packet goes, only if the peer has received it.
    pub IsKept-ack :
        (hit : Bool) (seq : ℕ) (o' : Dict ℕ (List ℕ))
        → (hit ≡ true → D seq)
        → ((n : ℕ) → get o' n ≡ (if hit && (seq == n) then none else get o n))
        → IsKept q p o next failed
        → IsKept q p o' next failed
    unfolding has
    IsKept-ack hit seq o' d less k = record {
      queued = k.queued;
      waiting = k.waiting;
      sent = λ n x h. k.sent n x (ground (arith, less n));
      accounted = λ n lt. elim (k.accounted n lt) [
        | inl (inl x) ↦ inl (inl x)
        | inl (inr (inl x)) ↦ inl (inr (inl x))
        | inl (inr (inr x)) ↦ elim (Bool-cases (hit && (seq == n))) [
          | inl t ↦
              let (here, there) = both hit (seq == n) t in
              inr (inl (subst D ((==_iff seq n).0 there) (d here)))
          | inr t ↦ inl (inr (inr (ground (arith, less n))))
        ]
        | inr x ↦ inr x
      ];
    }

    -- The peer failed, and nothing is pending or out any more.
    pub IsKept-fail : IsKept q p o next failed → IsKept q [] [] next true
    unfolding get
    IsKept-fail k = record {
      queued = k.queued;
      waiting = λ n j h. absurd (ground arith);
      sent = λ n x h. absurd (ground arith);
      accounted = λ n lt. inr (inr refl);
    }

module _ {A : Type 0} ⦃e : Eq A⦄ (b : A) (msg : ℕ → List ℕ) (limit : ℕ) where
  -- What a transport puts on the wire: a message of its own, or an ACK.
  abbrev pub IsCarried : List ℕ → Type 0
  IsCarried raw = ((n : ℕ) × Packs msg limit n raw) ⊎ ((ack : ℕ) × (ack_packet ack ≡ ok raw))

  abbrev pub IsWired : List (List ℕ × A) → Type 0
  IsWired wire = All (λ x. e.beq x.1 b ≡ true → IsCarried x.0) wire

  pub sent-IsWired :
      (l : Link A) (packet : List ℕ) (addr : A)
      → (e.beq addr b ≡ true → IsCarried packet)
      → IsWired l.wire
      → IsWired (sent l packet addr).wire
  sent-IsWired l packet addr good w = All-append _ l.wire ((packet, addr) ∷ []) w (good, tt)
