-- ===== src/Rto/Bounds.antt =====
-- The timeout stays between its limits, and a backoff never lowers it.
use udp_arq_lab.Prelude.{
  ℕ, zero, suc, inl, inr, Bool-cases, ◌∙◌, ◌≡◌, refl, true, false, arith, Option, none, some, List,
  [], ◌∷◌,
}
use udp_arq_lab.Prelude.Float.{Float, FloatOrder, zero_f, max_f, min_f, lt_irrefl, le_f_trans}
use udp_arq_lab.Prelude.Result.{Result, ok, err}
use udp_arq_lab.Rto.{RtoEstimator, ValueError, new, sample, on_timeout, run, or_keep}

-- 0 <= min_rto <= rto <= max_rto
pub record InLimits {T : Type 0} ⦃f : Float T⦄ (r : RtoEstimator T) : Type 0 where
  pub positive : f.lt zero_f r.min_rto ≡ true
  pub above_min : f.lt r.rto r.min_rto ≡ false
  pub below_max : f.lt r.max_rto r.rto ≡ false

module _ {T : Type 0} ⦃f : Float T⦄ (o : FloatOrder T) where
  clamp_limits :
      (lo hi x : T)
      → f.lt hi lo ≡ false
      → (f.lt (max_f lo (min_f hi x)) lo ≡ false) × (f.lt hi (max_f lo (min_f hi x)) ≡ false)
  clamp_limits lo hi x h =
      ground
        (arith, lt_irrefl o lo, lt_irrefl o hi, o.lt_asymm lo hi, o.lt_asymm lo x, o.lt_asymm x hi)

  limits_ordered : {r : RtoEstimator T} → InLimits r → f.lt r.max_rto r.min_rto ≡ false
  limits_ordered {r} h = le_f_trans o r.min_rto r.rto r.max_rto h.above_min h.below_max

  rto_nonneg : {r : RtoEstimator T} → InLimits r → f.lt r.rto zero_f ≡ false
  rto_nonneg {r} h =
      le_f_trans o zero_f r.min_rto r.rto (o.lt_asymm zero_f r.min_rto h.positive) h.above_min

  pub new-InLimits :
      (initial lo hi g : T) (r : RtoEstimator T) → new initial lo hi g ≡ ok r → InLimits r
  unfolding new
  new-InLimits initial lo hi g r e = ground arith

  new_limits :
      (initial lo hi g : T) (r : RtoEstimator T)
      → new initial lo hi g ≡ ok r
      → (r.min_rto ≡ lo) × (r.max_rto ≡ hi)
  unfolding new
  new_limits initial lo hi g r e = ground arith

  pub sample-InLimits :
      (r : RtoEstimator T) (rtt : T) (r' : RtoEstimator T)
      → InLimits r
      → sample r rtt ≡ ok r'
      → InLimits r'
  unfolding sample
  sample-InLimits r rtt r' h e =
      ground (arith, limits_ordered h, clamp_limits r.min_rto r.max_rto r'.rto)

  -- A backoff never lowers the timeout.
  on_timeout-ge : (r : RtoEstimator T) → InLimits r → f.lt (on_timeout r).rto r.rto ≡ false
  unfolding on_timeout
  on_timeout-ge r h = ground (arith, o.le_double r.rto (rto_nonneg h), h.below_max)

  pub on_timeout-InLimits : (r : RtoEstimator T) → InLimits r → InLimits (on_timeout r)
  unfolding on_timeout
  on_timeout-InLimits r h = record {
    positive = h.positive;
    above_min = le_f_trans o r.min_rto r.rto (on_timeout r).rto h.above_min (on_timeout-ge r h);
    below_max =
        ground (arith, lt_irrefl o r.max_rto, o.lt_asymm (f.mul r.rto (f.ratio 2 1)) r.max_rto);
  }

  or_keep-InLimits :
      (r : RtoEstimator T) (rtt : T) (res : Result ValueError (RtoEstimator T))
      → sample r rtt ≡ res
      → InLimits r
      → InLimits (or_keep r res)
  or_keep-InLimits r rtt (ok r') e h = sample-InLimits r rtt r' h e
  or_keep-InLimits r rtt (err x) e h = h

  pub run-InLimits :
      (events : List (Option T)) (r : RtoEstimator T) → InLimits r → InLimits (run r events)
  unfolding run
  run-InLimits [] r h = h
  run-InLimits (none ∷ events) r h = run-InLimits events (on_timeout r) (on_timeout-InLimits r h)
  run-InLimits (some rtt ∷ events) r h =
      run-InLimits events _ (or_keep-InLimits r rtt (sample r rtt) refl h)

  -- The limits themselves are never written.
  record SameLimits (r s : RtoEstimator T) : Type 0 where
    lower : s.min_rto ≡ r.min_rto
    upper : s.max_rto ≡ r.max_rto

  sample-SameLimits : (r : RtoEstimator T) (rtt : T) → SameLimits r (or_keep r (sample r rtt))
  unfolding sample
  sample-SameLimits r rtt = ground arith

  on_timeout-SameLimits : (r : RtoEstimator T) → SameLimits r (on_timeout r)
  unfolding on_timeout
  on_timeout-SameLimits r = ground arith

  run-SameLimits : (events : List (Option T)) (r : RtoEstimator T) → SameLimits r (run r events)
  unfolding run
  run-SameLimits [] r = record { lower = refl; upper = refl }
  run-SameLimits (none ∷ events) r =
      ground (arith, run-SameLimits events (on_timeout r), on_timeout-SameLimits r)
  run-SameLimits (some rtt ∷ events) r =
      ground (arith, run-SameLimits events (or_keep r (sample r rtt)), sample-SameLimits r rtt)

  -- From an estimator that the constructor accepted, whatever samples and timeouts follow, the
  -- timeout is neither below `min_rto` nor above `max_rto` as they were given.
  pub run_limits :
      (initial lo hi g : T) (r : RtoEstimator T) (events : List (Option T))
      → new initial lo hi g ≡ ok r
      → (f.lt (run r events).rto lo ≡ false) × (f.lt hi (run r events).rto ≡ false)
  run_limits initial lo hi g r events e = ground (
    arith,
    new_limits initial lo hi g r e,
    run-InLimits events r (new-InLimits initial lo hi g r e),
    run-SameLimits events r,
  )

module _ {T : Type 0} where
  -- `n` timeouts in a row, and no sample between them
  abbrev pub timeouts : ℕ → List (Option T)
  timeouts zero = []
  timeouts (suc n) = none ∷ timeouts n

module _ {T : Type 0} ⦃f : Float T⦄ where
  -- `n` times doubled
  abbrev pub doubled : ℕ → T → T
  doubled zero x = x
  doubled (suc n) x = doubled n (f.mul x (f.ratio 2 1))

module _ {T : Type 0} ⦃f : Float T⦄ (o : FloatOrder T) where
  double_nonneg : (x : T) → f.lt x zero_f ≡ false → f.lt (f.mul x (f.ratio 2 1)) zero_f ≡ false
  double_nonneg x h = le_f_trans o zero_f x (f.mul x (f.ratio 2 1)) h (o.le_double x h)

  doubled-ge : (n : ℕ) (x : T) → f.lt x zero_f ≡ false → f.lt (doubled n x) x ≡ false
  doubled-ge zero x h = lt_irrefl o x
  doubled-ge (suc n) x h =
      le_f_trans o x (f.mul x (f.ratio 2 1)) (doubled n (f.mul x (f.ratio 2 1))) (o.le_double x h)
        (doubled-ge n (f.mul x (f.ratio 2 1)) (double_nonneg x h))

  -- A cap before more doublings does not show behind the cap at the end.
  capped :
      (n : ℕ) (hi x : T)
      → f.lt hi zero_f ≡ false
      → f.lt x zero_f ≡ false
      → min_f hi (doubled n (min_f hi x)) ≡ min_f hi (doubled n x)
  capped n hi x h k = elim (Bool-cases (f.lt x hi)) [
    | inl t ↦ rw t refl
    | inr t ↦ rw (t, doubled-ge n hi h, le_f_trans o hi x (doubled n x) t (doubled-ge n x k)) refl
  ]

  -- On an estimator whose timeout is within its limits, `n + 1` timeouts in a row leave the timeout
  -- doubled `n + 1` times, or `max_rto` where that is less.
  pub on_timeout-doubled :
      (n : ℕ) (r : RtoEstimator T)
      → InLimits r
      → (run r (timeouts (suc n))).rto ≡ min_f r.max_rto (doubled (suc n) r.rto)
  unfolding run on_timeout
  on_timeout-doubled zero r h = refl
  on_timeout-doubled (suc n) r h =
      on_timeout-doubled n (on_timeout r) (on_timeout-InLimits o r h)
      ∙ capped (suc n) r.max_rto (f.mul r.rto (f.ratio 2 1))
          (le_f_trans o zero_f r.rto r.max_rto (rto_nonneg o h) h.below_max)
          (double_nonneg r.rto (rto_nonneg o h))
