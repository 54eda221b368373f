-- ===== src/Rto.antt =====
-- udp_arq/rto.py: the Jacobson/Karels estimator of the retransmission timeout.
pub mod Bounds
use udp_arq_lab.Prelude.{◌&&◌, Option, none, some, if◌then◌else◌, List, [], ◌∷◌}
use udp_arq_lab.Prelude.Float.{Float, max_f, min_f, le_f, zero_f}
use udp_arq_lab.Prelude.Result.{Result, ok, err, ◌>>=◌, ◌>>◌, require}

pub data ValueError : Type 0 where
  bad_limits rtt_not_positive : ValueError

-- `srtt` and `rttvar` are None together and set together.
pub record Smoothed (T : Type 0) : Type 0 where
  pub srtt : T
  pub rttvar : T

pub record RtoEstimator (T : Type 0) : Type 0 where
  pub min_rto : T
  pub max_rto : T
  pub g : T
  pub smoothed : Option (Smoothed T)
  pub rto : T

module _ {T : Type 0} ⦃f : Float T⦄ where
  -- ALPHA = 0.125, BETA = 0.25, K = 4
  abbrev pub alpha : T
  alpha = f.ratio 1 8

  abbrev pub beta : T
  beta = f.ratio 1 4

  abbrev pub k_factor : T
  k_factor = f.ratio 4 1

  -- __init__
  unfoldable pub new : T → T → T → T → Result ValueError (RtoEstimator T)
  new initial_rto min_rto max_rto clock_granularity = do
    require (f.lt zero_f min_rto && le_f min_rto initial_rto && le_f initial_rto max_rto) bad_limits
    ok (record {
      min_rto = min_rto;
      max_rto = max_rto;
      g = clock_granularity;
      smoothed = none;
      rto = initial_rto;
    })

  -- The new averages; the first sample starts them.
  unfoldable pub smooth : Option (Smoothed T) → T → Smoothed T
  smooth none rtt = record { srtt = rtt; rttvar = f.mul rtt (f.ratio 1 2) }
  smooth (some s) rtt = record {
    srtt = f.add (f.mul (f.sub (f.ratio 1 1) alpha) s.srtt) (f.mul alpha rtt);
    rttvar =
        f.add (f.mul (f.sub (f.ratio 1 1) beta) s.rttvar) (f.mul beta (f.abs (f.sub s.srtt rtt)));
  }

  unfoldable pub sample : RtoEstimator T → T → Result ValueError (RtoEstimator T)
  sample r rtt = do
    require (f.lt zero_f rtt) rtt_not_positive
    let s = smooth r.smoothed rtt
    ok (record r {
      smoothed = some s;
      rto = max_f r.min_rto (min_f r.max_rto (f.add s.srtt (max_f r.g (f.mul k_factor s.rttvar))));
    })

  unfoldable pub on_timeout : RtoEstimator T → RtoEstimator T
  on_timeout r = record r { rto = min_f r.max_rto (f.mul r.rto (f.ratio 2 1)) }

  -- A sample that raises changes nothing.
  abbrev pub or_keep : RtoEstimator T → Result ValueError (RtoEstimator T) → RtoEstimator T
  or_keep r (ok r') = r'
  or_keep r (err e) = r

  -- What the transports do to an estimator in the course of a connection: samples and timeouts.
  unfoldable pub run : RtoEstimator T → List (Option T) → RtoEstimator T
  run r [] = r
  run r (none ∷ events) = run (on_timeout r) events
  run r (some rtt ∷ events) = run (or_keep r (sample r rtt)) events
