-- ===== src/StopAndWait/Sending.antt =====
-- The sender: how often a packet is sent, and what a success or a failure leaves behind.
use mathlib.Core.Path.{subst}
use udp_arq_lab.Prelude.{
  ℕ, ◌+◌, ◌≤◌, ◌<◌, ◌≡◌, refl, ap, true, List, arith, length, ltb, Bool-cases, inl, inr,
}
use udp_arq_lab.Prelude.Dict.{Eq, get_or, put}
use udp_arq_lab.Prelude.Float.{Float}
use udp_arq_lab.Prelude.Result.{Result, ok, err}
use udp_arq_lab.Wire.{data_packet}
use udp_arq_lab.Rto.{new, RtoEstimator}
use udp_arq_lab.StopAndWait.{
  acked, failed, answered, Attempt, Sender, SendError, Outcome, bad_timeout, no_ack, channel_error,
  max_retries, flip, answer, attempts, finish, transmit, sendto, new_estimator, on_ack,
}
use udp_arq_lab.StopAndWait.Attempts.{
  backed_off, Hears, Expire, Survive, Course, ends_answered, ends_raised, ends_exhausted,
  attempts-Course, attempts_succeed, answer-Hears,
}

-- The ends of a `sendto` whose packet could be built, from the estimator `r`. In each, the attempts
-- before the last one expired, and the estimator backed off with them.
pub data Finished {T A : Type 0} ⦃f : Float T⦄ ⦃e : Eq A⦄ (s : Sender T A) (addr : A)
    (script : ℕ → Attempt T A) (r : RtoEstimator T) (out : Sender T A × Result SendError (Unit {0}))
    : Type 0 where
  -- Attempt `n` hears the ACK: the send bit is flipped, and a first attempt is sampled.
  delivered :
      (n : ℕ) (got : T)
      → n < max_retries
      → Expire s addr (get_or s.send_bit addr 0) script n 0 r
      → answer s addr (get_or s.send_bit addr 0) script n (backed_off s n r) ≡ acked got
      → Hears (get_or s.send_bit addr 0) addr got (script n).arrivals
      → out ≡ (
        record s {
          rto =
              put s.rto addr
                (on_ack s addr (get_or s.send_bit addr 0) script (backed_off s n r) n got);
          send_bit = put s.send_bit addr (flip (get_or s.send_bit addr 0));
        },
        ok tt,
      )
      → Finished s addr script r out
  -- All attempts expire.
  gave_up :
      Expire s addr (get_or s.send_bit addr 0) script max_retries 0 r
      → out ≡ (record s { rto = put s.rto addr (backed_off s max_retries r) }, err no_ack)
      → Finished s addr script r out
  -- In attempt `n` the channel raises.
  broke_off :
      (n : ℕ)
      → n < max_retries
      → Expire s addr (get_or s.send_bit addr 0) script n 0 r
      → answer s addr (get_or s.send_bit addr 0) script n (backed_off s n r) ≡ failed
      → out ≡ (record s { rto = put s.rto addr (backed_off s n r) }, err channel_error)
      → Finished s addr script r out

module _ {T A : Type 0} ⦃f : Float T⦄ ⦃e : Eq A⦄ (s : Sender T A) (addr : A)
    (script : ℕ → Attempt T A) where
  abbrev bit : ℕ
  bit = get_or s.send_bit addr 0

  -- The run of the attempts that a call of `sendto` makes.
  abbrev attempts_of : RtoEstimator T → Outcome T
  attempts_of r = attempts s addr bit script max_retries 0 r

  from_first : (n i : ℕ) → n ≡ 0 + i → n ≡ i
  from_first n i eq = omega (arith, eq)

  finish-Finished :
      (r : RtoEstimator T) (o : Outcome T)
      → Course s addr bit script max_retries 0 r o
      → Finished s addr script r (finish s addr bit o)
  unfolding finish
  finish-Finished r o (ends_answered i n got lt eq all h est end) =
      let same = from_first n i eq in
      let here = subst (λ k. answer s addr bit script k (backed_off s i r) ≡ acked got) same h in
      delivered i got lt all here (answer-Hears s addr bit script i (backed_off s i r) got here) (
        rw (end, est)
          (ap
            (λ k. (
              record s {
                rto = put s.rto addr (on_ack s addr bit script (backed_off s i r) k got);
                send_bit = put s.send_bit addr (flip bit);
              },
              ok tt,
            ))
            same))
  finish-Finished r o (ends_raised i n lt eq all h est end) =
      broke_off i lt all
        (subst (λ k. answer s addr bit script k (backed_off s i r) ≡ failed) (from_first n i eq) h)
        (rw (end, est) refl)
  finish-Finished r o (ends_exhausted all est end) = gave_up all (rw (end, est) refl)

  finish_answered :
      (seq : ℕ) (o : Outcome T) → o.ending ≡ answered → (finish s addr seq o).1 ≡ ok tt
  unfolding finish
  finish_answered seq o a = rw a refl

  -- `sendto`, once the payload is short enough, the timeout accepted and the packet built.
  sendto_runs :
      (payload : List ℕ) (r : RtoEstimator T) (packet : List ℕ)
      → length payload ≤ s.mss
      → new_estimator s.timeout ≡ ok r
      → data_packet (get_or s.send_bit addr 0) payload ≡ ok packet
      → sendto s payload addr script ≡ finish s addr bit (attempts_of (get_or s.rto addr r))
  unfolding sendto transmit
  sendto_runs payload r packet fits est built = elim (Bool-cases (ltb s.mss (length payload))) [
    | inl long ↦ absurd (ground arith)
    | inr short ↦ rw (short, est, transmit, built) refl
  ]

module _ {T A : Type 0} ⦃f : Float T⦄ ⦃e : Eq A⦄ where
  -- For a payload of at most `mss` bytes, a timeout that the estimator accepts and a packet that can
  -- be built, `sendto` ends in one of three ways, the attempts before its last one having expired
  -- and, if adaptive, backed off: in an attempt that reads an ACK of the packet from the peer it
  -- returns with the peer's send bit flipped; behind MAX_RETRIES attempts that expire it raises
  -- TimeoutError; in an attempt in which the channel raises, that error passes through. In the last
  -- two no send bit changes.
  pub sendto-Finished :
      (s : Sender T A) (payload : List ℕ) (addr : A) (script : ℕ → Attempt T A) (r : RtoEstimator T)
      (packet : List ℕ)
      → length payload ≤ s.mss
      → new_estimator s.timeout ≡ ok r
      → data_packet (get_or s.send_bit addr 0) payload ≡ ok packet
      → Finished s addr script (get_or s.rto addr r) (sendto s payload addr script)
  sendto-Finished s payload addr script r packet fits est built =
      let q = get_or s.rto addr r in
      rw (sendto_runs s addr script payload r packet fits est built)
        (finish-Finished s addr script q _ (attempts-Course s addr _ script max_retries 0 q))

  -- For a payload of at most `mss` bytes, a timeout that the estimator accepts and a packet that can
  -- be built: if in none of the attempts before attempt `j`, of MAX_RETRIES, the channel raises
  -- anything but TimeoutError, and attempt `j` is answered before its deadline, with the timeout that
  -- `j` back-offs leave if adaptive, then `sendto` returns normally.
  pub sendto_succeeds :
      (s : Sender T A) (payload : List ℕ) (addr : A) (script : ℕ → Attempt T A) (r : RtoEstimator T)
      (packet : List ℕ) (j : ℕ) (got : T)
      → length payload ≤ s.mss
      → new_estimator s.timeout ≡ ok r
      → data_packet (get_or s.send_bit addr 0) payload ≡ ok packet
      → j < max_retries
      → Survive s addr (get_or s.send_bit addr 0) script j 0 (get_or s.rto addr r)
      → answer s addr (get_or s.send_bit addr 0) script j (backed_off s j (get_or s.rto addr r))
        ≡ acked got
      → (sendto s payload addr script).1 ≡ ok tt
  sendto_succeeds s payload addr script r packet j got fits est built lt v h =
      let q = get_or s.rto addr r in
      rw (sendto_runs s addr script payload r packet fits est built) (
        finish_answered s addr script _ _ (
          attempts_succeed s addr _ script max_retries 0 j q got lt v (
            subst
              (λ k.
                answer s addr (get_or s.send_bit addr 0) script k (backed_off s j q) ≡ acked got)
              (omega arith) h)))

  -- A timeout above 5 seconds, the estimator's default `max_rto`, makes every `sendto` of at most
  -- `mss` bytes raise ValueError and change nothing, whether the transport is adaptive or not.
  pub sendto_long_timeout :
      (s : Sender T A) (payload : List ℕ) (addr : A) (script : ℕ → Attempt T A)
      → length payload ≤ s.mss
      → f.lt (f.ratio 5 1) s.timeout ≡ true
      → sendto s payload addr script ≡ (s, err bad_timeout)
  unfolding sendto new_estimator new
  sendto_long_timeout s payload addr script fits long = ground arith
