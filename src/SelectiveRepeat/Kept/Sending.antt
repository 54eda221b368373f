-- ===== src/SelectiveRepeat/Kept/Sending.antt =====
-- `sendto`, the drain, the pump and the ACK handler keep what a sender keeps for a peer.
use mathlib.Core.Path.{subst}
use mathlib.Core.Logic.{inl, inr}
use udp_arq_lab.Prelude.{ℕ, ◌+◌, ◌≡◌, refl, sym, false, none, List, [], ◌∷◌, Bool-cases}
use udp_arq_lab.Prelude.Dict.{
  nat_eq_inst, Dict, Eq, get_or, has, set_default, get_or-put, has-remove, beq_refl,
}
use udp_arq_lab.Prelude.Float.{Float}
use udp_arq_lab.Prelude.Result.{Result-cases}
use udp_arq_lab.Sliding.{Config, Item, at, put_at, new_estimator}
use udp_arq_lab.Sliding.Peers.{at-put_other, at-put_at, at-set_default}
use udp_arq_lab.SelectiveRepeat.State.{Sender}
use udp_arq_lab.SelectiveRepeat.Calls.{enqueue}
use udp_arq_lab.SelectiveRepeat.Pump.{enter_partly, enter_pending, drain}
use udp_arq_lab.SelectiveRepeat.Kept.{
  IsMessage, IsKept, IsKept-queue, IsKept-queue_other, IsKept-drain, IsKept-drain_other,
}

module _ {T A : Type 0} ⦃f : Float T⦄ ⦃e : Eq A⦄ (b : A) (msg : ℕ → List ℕ) (limit : ℕ)
    (D : ℕ → Type 0) where
  -- What the sender keeps for the peer `b`, with `q` in its queue.
  abbrev pub Keeps : List (Item A) → Sender T A → Type 0
  Keeps q s =
      IsKept b msg limit D q (at s.pending b) (at s.outstanding b) (get_or s.next_seq b 0)
        (has s.peer_errors b)

  -- Where nothing of the peer's changes.
  pub Keeps-same :
      (q : List (Item A)) (s s' : Sender T A)
      → at s'.pending b ≡ at s.pending b
      → at s'.outstanding b ≡ at s.outstanding b
      → get_or s'.next_seq b 0 ≡ get_or s.next_seq b 0
      → has s'.peer_errors b ≡ has s.peer_errors b
      → Keeps q s
      → Keeps q s'
  Keeps-same q s s' p o n x k = rw (p, o, n, x) k

  -- A call of `sendto` to the peer, while no failure is recorded.
  enqueue_here :
      (s : Sender T A) (payload : List ℕ)
      → has s.peer_errors b ≡ false
      → IsMessage msg limit (get_or s.next_seq b 0) payload
      → Keeps s.outbound s
      → Keeps (enqueue s payload b).outbound (enqueue s payload b)
  unfolding enqueue
  enqueue_here s payload healthy good k =
      let number = get_or s.next_seq b 0 in
      rw (get_or-put s.next_seq b (number + 1) b 0, has-remove s.peer_errors b b, beq_refl b)
        (IsKept-queue b msg limit D s.outbound (at s.pending b) (at s.outstanding b) number false
          (record { addr = b; seq = number; bytes = payload; error = none }) (beq_refl b) refl good
          (rw healthy at k))

  enqueue_other :
      (s : Sender T A) (payload : List ℕ) (addr : A)
      → e.beq addr b ≡ false
      → Keeps s.outbound s
      → Keeps (enqueue s payload addr).outbound (enqueue s payload addr)
  unfolding enqueue
  enqueue_other s payload addr other k =
      let number = get_or s.next_seq addr 0 in
      rw (get_or-put s.next_seq addr (number + 1) b 0, has-remove s.peer_errors addr b, other)
        (IsKept-queue_other b msg limit D s.outbound (at s.pending b) (at s.outstanding b)
          (get_or s.next_seq b 0) (has s.peer_errors b)
          (record { addr = addr; seq = number; bytes = payload; error = none }) other k)

  pub enqueue-Keeps :
      (s : Sender T A) (payload : List ℕ) (addr : A)
      → (addr ≡ b
          → (has s.peer_errors b ≡ false) × IsMessage msg limit (get_or s.next_seq b 0) payload)
      → Keeps s.outbound s
      → Keeps (enqueue s payload addr).outbound (enqueue s payload addr)
  enqueue-Keeps s payload addr allowed k = elim (Bool-cases (e.beq addr b)) [
    | inl t ↦
        let same = (e.beq_iff addr b).0 t in
        subst (λ x. Keeps (enqueue s payload x).outbound (enqueue s payload x)) (sym same)
          (enqueue_here s payload (allowed same).0 (allowed same).1 k)
    | inr t ↦ enqueue_other s payload addr t k
  ]

  -- The first item becomes pending.
  entered-Keeps :
      (q : List (Item A)) (s s' : Sender T A) (i : Item A)
      → s'.pending ≡ put_at s.pending i.addr i.seq i
      → s'.outstanding ≡ set_default s.outstanding i.addr []
      → s'.next_seq ≡ s.next_seq
      → s'.peer_errors ≡ s.peer_errors
      → Keeps (i ∷ q) s
      → Keeps q s'
  entered-Keeps q s s' i p o n x k = elim (Bool-cases (e.beq i.addr b)) [
    | inl t ↦
        rw
          (
            p,
            o,
            n,
            x,
            at-put_at s.pending i.addr i.seq i b t,
            at-set_default s.outstanding i.addr b,
          )
          (IsKept-drain b msg limit D q (at s.pending b) (at s.outstanding b) _ _ i t k)
    | inr t ↦
        rw (p, o, n, x, at-put_other s.pending i.addr _ b t, at-set_default s.outstanding i.addr b)
          (IsKept-drain_other b msg limit D q (at s.pending b) (at s.outstanding b) _ _ i t k)
  ]

  pub drain-Keeps :
      (c : Config T) (s : Sender T A) (buffer : Dict A (Dict ℕ (List ℕ))) (q : List (Item A))
      → Keeps q s
      → Keeps (drain c s buffer q).sender.outbound (drain c s buffer q).sender
  unfolding drain enter_pending enter_partly
  drain-Keeps c s buffer [] k = k
  drain-Keeps c s buffer (i ∷ more) k = elim (Result-cases (new_estimator c)) [
    | inl (r, h) ↦
        rw (drain, h)
          (drain-Keeps c (enter_pending s i r) (set_default buffer i.addr []) more
            (entered-Keeps more s (enter_pending s i r) i refl refl refl refl k))
    | inr (x, h) ↦ rw (drain, h) (entered-Keeps more s (enter_partly s i) i refl refl refl refl k)
  ]
