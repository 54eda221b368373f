-- ===== src/SelectiveRepeat/Timeouts.antt =====
-- `_handle_timeouts` and `_next_wait_time`.
use udp_arq_lab.Prelude.{
  ℕ, ◌+◌, Bool, true, false, Option, none, some, List, [], ◌∷◌, ◌++◌, ltb, if◌then◌else◌,
}
use udp_arq_lab.Prelude.Dict.{nat_eq_inst, pair_eq_inst, Dict, Eq, get, get_or, has, put}
use udp_arq_lab.Prelude.Float.{Float, max_f, min_f, zero_f}
use udp_arq_lab.Rto
use udp_arq_lab.TimerHeap.{schedule, nearest, pop_due}
use udp_arq_lab.Sliding.{Config, Link, no_ack, send_failed, at, member, channel_send}
use udp_arq_lab.SelectiveRepeat.State.{Sender, max_retries, rto_value, fail_peer}

-- The sender and the numbers that are due, by peer.
pub record Expired (T A : Type 0) : Type 0 where
  pub sender : Sender T A
  pub due_by_addr : Dict A (List ℕ)

module _ {A : Type 0} ⦃e : Eq A⦄ where
  -- `due_by_addr`: of the keys, those that are outstanding, by peer
  unfoldable pub group_due :
      Dict A (Dict ℕ (List ℕ)) → List (A × ℕ) → Dict A (List ℕ) → Dict A (List ℕ)
  group_due outstanding [] due = due
  group_due outstanding ((addr, seq) ∷ keys) due =
      group_due outstanding keys
        (if has (at outstanding addr) seq then put due addr (at due addr ++ seq ∷ []) else due)

module _ {T A : Type 0} ⦃f : Float T⦄ ⦃e : Eq A⦄ where
  unfoldable pub expire : Sender T A → T → Expired T A
  expire s now =
      let (heap, keys) = pop_due s.timer_heap now in
      record {
        sender = record s { timer_heap = heap };
        due_by_addr = group_due s.outstanding keys [];
      }

  -- `_retries` and the backoff of one timeout.
  unfoldable pub count_retry : Config T → Sender T A → A → Sender T A
  count_retry c s addr = record s {
    retries = put s.retries addr (get_or s.retries addr 0 + 1);
    rto =
        if c.adaptive
        then (elim (get s.rto addr) [ none ↦ s.rto | some r ↦ put s.rto addr (Rto.on_timeout r) ])
        else s.rto;
  }

module _ {T A : Type 0} ⦃f : Float T⦄ ⦃e : Eq A⦄ (accepts : ℕ → Bool) (c : Config T) (now : T) where
  -- The packet is counted and marked as sent again, and its timer starts anew.
  unfoldable pub renew : Sender T A → A → ℕ → Sender T A
  renew s addr seq = record s {
    retransmissions = s.retransmissions + 1;
    retransmitted = put s.retransmitted addr (
        if member seq (at s.retransmitted addr)
        then at s.retransmitted addr
        else seq ∷ at s.retransmitted addr);
    timer_heap = schedule s.timer_heap (addr, seq) (f.add now (rto_value c s addr));
  }

  -- The numbers that are due and still outstanding are sent again, until the channel raises.
  unfoldable pub resend : List ℕ → Sender T A → Link A → A → Sender T A × Link A
  resend [] s link addr = (s, link)
  resend (seq ∷ more) s link addr = elim (get (at s.outstanding addr) seq) [
    | none ↦ resend more s link addr
    | some packet ↦
        let (link', sent) = channel_send accepts link packet addr in
        let s' = renew s addr seq in
        elim sent [
          | true ↦ resend more s' link' addr
          | false ↦ (fail_peer s' addr send_failed, link')
        ]
  ]

  -- One timeout of a peer is one retry, whatever the number of packets.
  unfoldable pub timeout_peer : List ℕ → Sender T A → Link A → A → Sender T A × Link A
  timeout_peer seqs s link addr =
      let s' = count_retry c s addr in
      if ltb max_retries (get_or s'.retries addr 0)
      then (fail_peer s' addr no_ack, link)
      else resend seqs s' link addr

  -- `for addr, seqs in due_by_addr.items()`
  unfoldable pub timeout_all : Dict A (List ℕ) → Sender T A → Link A → Sender T A × Link A
  timeout_all [] s link = (s, link)
  timeout_all ((addr, seqs) ∷ more) s link =
      let (s', link') = timeout_peer seqs s link addr in timeout_all more s' link'

  unfoldable pub handle_timeouts : Sender T A → Link A → Sender T A × Link A
  handle_timeouts s link = let x = expire s now in timeout_all x.due_by_addr x.sender link

module _ {T : Type 0} ⦃f : Float T⦄ where
  -- 0.05 s, or less where a timer ends earlier
  unfoldable pub wait_time : Option T → T → T
  wait_time none now = f.ratio 1 20
  wait_time (some t) now = max_f zero_f (min_f (f.ratio 1 20) (f.sub t now))

module _ {T A : Type 0} ⦃f : Float T⦄ ⦃e : Eq A⦄ where
  -- `nearest` drops the stale entries at the top of the heap.
  unfoldable pub next_wait_time : Sender T A → T → Sender T A × T
  next_wait_time s now =
      let (heap, next) = nearest s.timer_heap in
      (record s { timer_heap = heap }, wait_time next now)
