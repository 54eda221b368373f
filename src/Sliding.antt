-- ===== src/Sliding.antt =====
-- What go_back_n.py and selective_repeat.py share in the same words: items, the channel's side, the
-- dicts by peer, the errors of the calls and the clock of a round.
pub mod Peers
use udp_arq_lab.Prelude.{
  ℕ, suc, ◌+◌, Bool, true, false, Option, none, some, List, [], ◌∷◌, ◌++◌, ltb, ◌==◌, if◌then◌else◌,
}
use udp_arq_lab.Prelude.Dict.{nat_eq_inst, Dict, Eq, get, get_or, put, remove}
use udp_arq_lab.Prelude.Float.{Float, min_f}
use udp_arq_lab.Prelude.Result.{Result}
use udp_arq_lab.Packet.{PacketError}
use udp_arq_lab.Rto
use udp_arq_lab.Rto.{RtoEstimator}

-- The exceptions that a caller of `flush` sees.
pub data Failure : Type 0 where
  no_ack : Failure
  send_failed : Failure
  transport_closed : Failure

-- The item of one `sendto`. Its Event tells a waiting `flush` to look again, and is not modelled.
pub record Item (A : Type 0) : Type 0 where
  pub addr : A
  pub seq : ℕ
  pub bytes : List ℕ
  pub error : Option Failure

pub record Config (T : Type 0) : Type 0 where
  pub mss : ℕ
  pub timeout : T
  pub window_size : ℕ
  pub adaptive : Bool

-- `sends` counts the calls of the channel's `sendto`, and `wire` holds those that it accepted.
pub record Link (A : Type 0) : Type 0 where
  pub sends : ℕ
  pub wire : List (List ℕ × A)

-- What ends the background thread: an exception that its loop does not catch.
pub data ThreadError : Type 0 where
  bad_packet : PacketError → ThreadError
  bad_timeout : ThreadError

-- `channel.sendto`; `accepts n` says whether its `n`-th call returns or raises.
unfoldable pub channel_send : {A : Type 0} → (ℕ → Bool) → Link A → List ℕ → A → Link A × Bool
channel_send accepts l packet addr =
    if accepts l.sends
    then (record { sends = suc l.sends; wire = l.wire ++ (packet, addr) ∷ [] }, true)
    else (record l { sends = suc l.sends }, false)

module _ {A V : Type 0} ⦃e : Eq A⦄ where
  -- `d.get(addr, {})`, to read
  abbrev pub at : Dict A (List V) → A → List V
  at d addr = get_or d addr []

  -- A change of `d.get(addr, {})` in place: where the key is missing, nothing is stored.
  unfoldable pub adjust : Dict A (List V) → A → (List V → List V) → Dict A (List V)
  adjust d addr g = elim (get d addr) [ none ↦ d | some inner ↦ put d addr (g inner) ]

  -- `d.get(addr, {}).clear()`
  abbrev pub clear : Dict A (List V) → A → Dict A (List V)
  clear d addr = adjust d addr (λ inner. [])

module _ {A V : Type 0} ⦃e : Eq A⦄ where
  -- `d.setdefault(addr, {})[seq] = v`
  abbrev pub put_at : Dict A (Dict ℕ V) → A → ℕ → V → Dict A (Dict ℕ V)
  put_at d addr seq v = put d addr (put (at d addr) seq v)

  -- `d.get(addr, {}).pop(seq, None)`
  abbrev pub pop_at : Dict A (Dict ℕ V) → A → ℕ → Dict A (Dict ℕ V)
  pop_at d addr seq = adjust d addr (λ inner. remove inner seq)

-- `seq in retransmitted`, `retransmitted.discard(seq)`, `retransmitted.add(seq)`
unfoldable pub member : ℕ → List ℕ → Bool
member seq [] = false
member seq (x ∷ xs) = if x == seq then true else member seq xs

unfoldable pub discard : ℕ → List ℕ → List ℕ
discard seq [] = []
discard seq (x ∷ xs) = let rest = discard seq xs in if x == seq then rest else x ∷ rest

-- `min(pending)`, of a dict that holds `seq` at least
unfoldable pub min_key : {V : Type 0} → ℕ → Dict ℕ V → ℕ
min_key seq [] = seq
min_key seq ((k, v) ∷ d) = min_key (if ltb k seq then k else seq) d

module _ {T : Type 0} ⦃f : Float T⦄ where
  -- `RTOEstimator(initial_rto=self.timeout, min_rto=min(0.1, self.timeout))`
  abbrev pub new_estimator : Config T → Result Rto.ValueError (RtoEstimator T)
  new_estimator c = Rto.new c.timeout (min_f (f.ratio 1 10) c.timeout) (f.ratio 5 1) (f.ratio 1 20)

pub data CallError : Type 0 where
  too_long : CallError
  is_closed : CallError
  no_datagram : CallError
  not_flushed : CallError
  failed : Failure → CallError

-- `d.keys()`
unfoldable pub keys : {A V : Type 0} → Dict A V → List A
keys [] = []
keys ((k, v) ∷ d) = k ∷ keys d

-- `d.values()`
unfoldable pub values : {A V : Type 0} → Dict A V → List V
values [] = []
values ((k, v) ∷ d) = v ∷ values d

module _ {A : Type 0} where
  unfoldable pub item_errors : List (Item A) → List Failure
  item_errors [] = []
  item_errors (i ∷ items) = elim i.error [
    | none ↦ item_errors items
    | some x ↦ x ∷ item_errors items
  ]

  -- `item["error"] = error` for all items of all peers
  unfoldable pub fail_items : Dict ℕ (Item A) → Dict ℕ (Item A)
  fail_items [] = []
  fail_items ((k, i) ∷ d) = (k, record i { error = some transport_closed }) ∷ fail_items d

  unfoldable pub fail_all : Dict A (Dict ℕ (Item A)) → Dict A (Dict ℕ (Item A))
  fail_all [] = []
  fail_all ((a, d) ∷ peers) = (a, fail_items d) ∷ fail_all peers

module _ {A : Type 0} ⦃e : Eq A⦄ where
  -- `[self._peer_errors[a] for a in addrs if a in self._peer_errors]`
  unfoldable pub errors_of : Dict A Failure → List A → List Failure
  errors_of d [] = []
  errors_of d (a ∷ addrs) = elim (get d a) [
    | none ↦ errors_of d addrs
    | some x ↦ x ∷ errors_of d addrs
  ]

-- The clock at the pump, at the timers and at an ACK, and the datagram that the channel has.
pub record Turn (T A : Type 0) : Type 0 where
  pub pumped_at : T
  pub timers_at : T
  pub got_at : T
  pub arrival : Option (List ℕ × A)
