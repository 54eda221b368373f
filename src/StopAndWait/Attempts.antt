-- ===== src/StopAndWait/Attempts.antt =====
-- The attempts of one `sendto`: which of them is the last, and what the ones before leave behind.
use mathlib.Core.Path.{subst}
use mathlib.Core.Logic.{◌≢◌, ◌⊎◌}
use native.Mathlib.Nat.{add-zero}
use udp_arq_lab.Prelude.{
  ℕ, zero, suc, ◌+◌, ◌<◌, ◌≡◌, refl, true, List, [], ◌∷◌, arith, Bool-cases, inl, inr,
  if◌then◌else◌,
}
use udp_arq_lab.Prelude.Dict.{Eq}
use udp_arq_lab.Prelude.Float.{Float}
use udp_arq_lab.Rto
use udp_arq_lab.Rto.{new, RtoEstimator}
use udp_arq_lab.StopAndWait.{
  Reading, datagram, broken, Arrival, is_ack, Wait, expired, acked, failed, answered, exhausted,
  channel_raised, wait_ack, Attempt, Sender, Outcome, answer, attempts, on_ack, on_expiry,
}

module _ {T A : Type 0} ⦃f : Float T⦄ (s : Sender T A) where
  -- The estimator behind `n` attempts that expired.
  abbrev pub backed_off : ℕ → RtoEstimator T → RtoEstimator T
  backed_off zero r = r
  backed_off (suc n) r = backed_off n (if s.adaptive then Rto.on_timeout r else r)

module _ {A : Type 0} ⦃e : Eq A⦄ (seq : ℕ) (addr : A) where
  unfoldable pub IsAck : Reading A → Type 0
  IsAck broken = ⊥
  IsAck (datagram raw from) = is_ack seq addr raw from ≡ true

  -- The ACK from the peer is among the arrivals, read at `got`.
  unfoldable pub Hears : {T : Type 0} → T → List (Arrival T A) → Type 0
  Hears got [] = ⊥
  Hears got (a ∷ more) = (IsAck a.reading × (a.got ≡ got)) ⊎ Hears got more

module _ {T A : Type 0} ⦃f : Float T⦄ ⦃e : Eq A⦄ (s : Sender T A) (addr : A) (seq : ℕ)
    (script : ℕ → Attempt T A) where
  -- `n` attempts from one on end at their deadlines.
  unfoldable pub Expire : ℕ → ℕ → RtoEstimator T → Type 0
  Expire zero attempt r = Unit
  Expire (suc n) attempt r =
      (answer s addr seq script attempt r ≡ expired)
      × Expire n (attempt + 1) (on_expiry s addr seq script r)

  -- In none of `n` attempts the channel raises anything but TimeoutError.
  unfoldable pub Survive : ℕ → ℕ → RtoEstimator T → Type 0
  Survive zero attempt r = Unit
  Survive (suc n) attempt r =
      (answer s addr seq script attempt r ≢ failed)
      × Survive n (attempt + 1) (on_expiry s addr seq script r)

  -- How the loop ends: with the first attempt that does not expire, attempt `n`, which is the `i`-th
  -- from `attempt` on, or behind all.
  pub data Course (left attempt : ℕ) (r : RtoEstimator T) (o : Outcome T) : Type 0 where
    ends_answered :
        (i n : ℕ) (got : T)
        → i < left
        → n ≡ attempt + i
        → Expire i attempt r
        → answer s addr seq script n (backed_off s i r) ≡ acked got
        → o.estimator ≡ on_ack s addr seq script (backed_off s i r) n got
        → o.ending ≡ answered
        → Course left attempt r o
    ends_raised :
        (i n : ℕ)
        → i < left
        → n ≡ attempt + i
        → Expire i attempt r
        → answer s addr seq script n (backed_off s i r) ≡ failed
        → o.estimator ≡ backed_off s i r
        → o.ending ≡ channel_raised
        → Course left attempt r o
    ends_exhausted :
        Expire left attempt r
        → o.estimator ≡ backed_off s left r
        → o.ending ≡ exhausted
        → Course left attempt r o

  Wait-cases : (w : Wait T) → (w ≡ expired) ⊎ ((w ≡ failed) ⊎ ((got : T) × (w ≡ acked got)))
  Wait-cases expired = inl refl
  Wait-cases failed = inr (inl refl)
  Wait-cases (acked got) = inr (inr (got, refl))

  later :
      (left attempt : ℕ) (r : RtoEstimator T) (o : Outcome T)
      → answer s addr seq script attempt r ≡ expired
      → Course left (attempt + 1) (on_expiry s addr seq script r) o
      → Course (suc left) attempt r o
  unfolding Expire
  later left attempt r o x (ends_answered i n got lt eq all h est end) =
      ends_answered (suc i) n got (omega (arith, lt)) (omega (arith, eq)) (x, all) h est end
  later left attempt r o x (ends_raised i n lt eq all h est end) =
      ends_raised (suc i) n (omega (arith, lt)) (omega (arith, eq)) (x, all) h est end
  later left attempt r o x (ends_exhausted all est end) = ends_exhausted (x, all) est end

  pub attempts-Course :
      (left attempt : ℕ) (r : RtoEstimator T)
      → Course left attempt r (attempts s addr seq script left attempt r)
  unfolding attempts Expire
  attempts-Course zero attempt r = ends_exhausted tt refl refl
  attempts-Course (suc left) attempt r = elim (Wait-cases (answer s addr seq script attempt r)) [
    | inl x ↦
        rw (attempts, x)
          (later left attempt r _ x
            (attempts-Course left (attempt + 1) (on_expiry s addr seq script r)))
    | inr (inl x) ↦
        rw (attempts, x) (ends_raised 0 attempt (omega arith) (omega arith) tt x refl refl)
    | inr (inr (got, x)) ↦
        rw (attempts, x) (ends_answered 0 attempt got (omega arith) (omega arith) tt x refl refl)
  ]

  -- An attempt that is answered with the timeout that it has by then is enough, where no attempt
  -- before it raises.
  pub attempts_succeed :
      (left attempt j : ℕ) (r : RtoEstimator T) (got : T)
      → j < left
      → Survive j attempt r
      → answer s addr seq script (attempt + j) (backed_off s j r) ≡ acked got
      → (attempts s addr seq script left attempt r).ending ≡ answered
  unfolding attempts Survive
  attempts_succeed zero attempt j r got lt v h = absurd (omega (arith, lt))
  attempts_succeed (suc left) attempt zero r got lt v h = rw (attempts, rw add-zero at h) refl
  attempts_succeed (suc left) attempt (suc j) r got lt v h =
      elim (Wait-cases (answer s addr seq script attempt r)) [
        | inl x ↦
            rw (attempts, x)
              (attempts_succeed left (attempt + 1) j (on_expiry s addr seq script r) got
                (omega (arith, lt)) v.1
                (subst (λ k. answer s addr seq script k (backed_off s (suc j) r) ≡ acked got)
                  (omega arith) h))
        | inr (inl x) ↦ absurd (v.0 x)
        | inr (inr (at, x)) ↦ rw (attempts, x) refl
      ]

module _ {T A : Type 0} ⦃f : Float T⦄ ⦃e : Eq A⦄ where
  -- An ACK that is reported was read.
  wait_ack-Hears :
      (seq : ℕ) (addr : A) (deadline got : T) (arrivals : List (Arrival T A))
      → wait_ack seq addr deadline arrivals ≡ acked got
      → Hears seq addr got arrivals
  unfolding wait_ack Hears IsAck
  wait_ack-Hears seq addr deadline got [] h = cc
  wait_ack-Hears seq addr deadline got (a ∷ more) h =
      ground (arith, wait_ack-Hears seq addr deadline got more)

  pub answer-Hears :
      (s : Sender T A) (addr : A) (seq : ℕ) (script : ℕ → Attempt T A) (n : ℕ) (r : RtoEstimator T)
      (got : T)
      → answer s addr seq script n r ≡ acked got
      → Hears seq addr got (script n).arrivals
  unfolding answer
  answer-Hears s addr seq script n r got h = elim (Bool-cases (script n).accepted) [
    | inl t ↦ wait_ack-Hears seq addr _ got (script n).arrivals (rw t at h)
    | inr t ↦ absurd (ground arith)
  ]
