-- ===== src/SelectiveRepeat/State.antt =====
-- The state of `SelectiveRepeatTransport`, and `_rto_value` and `_fail_peer`, which its parts share.
use udp_arq_lab.Prelude.{ℕ, Bool, Option, none, some, List, [], ◌∷◌, if◌then◌else◌}
use udp_arq_lab.Prelude.Dict.{nat_eq_inst, pair_eq_inst, Dict, Eq, get, set_default}
use udp_arq_lab.Prelude.Float.{Float}
use udp_arq_lab.Rto.{RtoEstimator}
use udp_arq_lab.TimerHeap.{TimerHeap, cancel}
use udp_arq_lab.Sliding.{Failure, Item, Config, Link, ThreadError, at, clear, keys}

-- MAX_RETRIES
abbrev pub max_retries : ℕ
max_retries = 1000

-- The sender's dicts, by peer, and the timers, by peer and number.
pub record Sender (T A : Type 0) : Type 0 where
  pub base : Dict A ℕ
  pub next_seq : Dict A ℕ
  pub outstanding : Dict A (Dict ℕ (List ℕ))
  pub sent_items : Dict A (Dict ℕ (Item A))
  pub pending : Dict A (Dict ℕ (Item A))
  pub timer_heap : TimerHeap T (A × ℕ)
  pub retries : Dict A ℕ
  pub peer_errors : Dict A Failure
  pub rto : Dict A (RtoEstimator T)
  pub send_time : Dict A (Dict ℕ T)
  pub retransmitted : Dict A (List ℕ)
  pub retransmissions : ℕ
  pub outbound : List (Item A)

-- `buffer` holds the packets that came before their turn.
pub record Receiver (A : Type 0) : Type 0 where
  pub expected : Dict A ℕ
  pub buffer : Dict A (Dict ℕ (List ℕ))
  pub incoming : List (List ℕ × A)

-- `died` is the exception that ended the background thread, if one did.
pub record SelectiveRepeat (T A : Type 0) : Type 0 where
  pub config : Config T
  pub sender : Sender T A
  pub receiver : Receiver A
  pub link : Link A
  pub stopped : Bool
  pub died : Option ThreadError

module _ {T A : Type 0} ⦃f : Float T⦄ ⦃e : Eq A⦄ where
  -- An estimator is there for every peer that a packet was sent to.
  unfoldable pub rto_value : Config T → Sender T A → A → T
  rto_value c s addr =
      if c.adaptive
      then (elim (get s.rto addr) [ none ↦ c.timeout | some r ↦ r.rto ])
      else c.timeout

  -- `cancel((addr, seq))` for each of them
  unfoldable pub cancel_all : TimerHeap T (A × ℕ) → A → List ℕ → TimerHeap T (A × ℕ)
  cancel_all h addr [] = h
  cancel_all h addr (seq ∷ seqs) = cancel_all (cancel h (addr, seq)) addr seqs

  unfoldable pub fail_peer : Sender T A → A → Failure → Sender T A
  fail_peer s addr error = record s {
    sent_items = clear s.sent_items addr;
    pending = clear s.pending addr;
    timer_heap = cancel_all s.timer_heap addr (keys (at s.outstanding addr));
    outstanding = clear s.outstanding addr;
    send_time = clear s.send_time addr;
    retransmitted = clear s.retransmitted addr;
    peer_errors = set_default s.peer_errors addr error;
  }
