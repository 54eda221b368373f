-- ===== src/GoBackN/Timeouts.antt =====
-- `_handle_timeouts` and `_next_wait_time`.
use udp_arq_lab.Prelude.{
  ℕ, ◌+◌, Bool, true, false, Option, none, some, List, [], ◌∷◌, ltb, if◌then◌else◌,
}
use udp_arq_lab.Prelude.Dict.{nat_eq_inst, Dict, Eq, get, get_or, put}
use udp_arq_lab.Prelude.Float.{Float, max_f, min_f, zero_f}
use udp_arq_lab.Rto
use udp_arq_lab.GoBackN.State.{Sender, max_retries, rto_value, fail_peer}
use udp_arq_lab.Sliding.{Config, Link, no_ack, send_failed, at, channel_send, member}

-- `sorted(outstanding)`, with the packets
unfoldable pub insert_key : ℕ → List ℕ → Dict ℕ (List ℕ) → Dict ℕ (List ℕ)
insert_key seq packet [] = (seq, packet) ∷ []
insert_key seq packet ((k, p) ∷ d) =
    let rest = insert_key seq packet d in
    if ltb seq k then (seq, packet) ∷ (k, p) ∷ d else (k, p) ∷ rest

unfoldable pub sort_keys : Dict ℕ (List ℕ) → Dict ℕ (List ℕ)
sort_keys [] = []
sort_keys ((k, p) ∷ d) = insert_key k p (sort_keys d)

module _ {T A : Type 0} ⦃f : Float T⦄ ⦃e : Eq A⦄ (accepts : ℕ → Bool) (c : Config T) (now : T) where
  -- `self._retransmitted.setdefault(addr, set()).add(seq)`, in adaptive mode
  unfoldable pub mark : Sender T A → A → ℕ → Sender T A
  mark s addr seq =
      if c.adaptive
      then record s {
        retransmitted = put s.retransmitted addr (
            if member seq (at s.retransmitted addr)
            then at s.retransmitted addr
            else seq ∷ at s.retransmitted addr);
      }
      else s

  -- All outstanding packets again, in the order of their numbers, until the channel raises.
  unfoldable pub resend : Dict ℕ (List ℕ) → Sender T A → Link A → A → Sender T A × Link A
  resend [] s link addr = (s, link)
  resend ((seq, packet) ∷ more) s link addr =
      let (link', sent) = channel_send accepts link packet addr in
      let s' = mark s addr seq in
      elim sent [
        | true ↦ resend more s' link' addr
        | false ↦ (fail_peer s' addr send_failed, link')
      ]

  -- The timer starts anew while something is outstanding, after a backoff in adaptive mode.
  unfoldable pub rearm : Sender T A → A → Sender T A
  rearm s addr =
      let backed_off =
        if c.adaptive
        then record s {
          rto = elim (get s.rto addr) [ none ↦ s.rto | some r ↦ put s.rto addr (Rto.on_timeout r) ];
        }
        else s in
      elim (at s.outstanding addr) [
        | [] ↦ s
        | p ∷ ps ↦ record backed_off {
          timer_deadline =
              put s.timer_deadline addr (some (f.add now (rto_value c backed_off addr)));
        }
      ]

  -- One timeout of a peer with packets out is one retry.
  unfoldable pub retry : Sender T A → Link A → A → Sender T A × Link A
  retry s link addr =
      let retries = get_or s.retries addr 0 + 1 in
      let s' = record s { retries = put s.retries addr retries } in
      let (s'', link') = resend (sort_keys (at s.outstanding addr)) s' link addr in
      if ltb max_retries retries then (fail_peer s' addr no_ack, link) else (rearm s'' addr, link')

  unfoldable pub expire : Sender T A → Link A → A → Sender T A × Link A
  expire s link addr = elim (at s.outstanding addr) [
    | [] ↦ (record s { timer_deadline = put s.timer_deadline addr none }, link)
    | p ∷ ps ↦ retry s link addr
  ]

  unfoldable pub timeout_peer : Sender T A → Link A → A → Sender T A × Link A
  timeout_peer s link addr = elim (get_or s.timer_deadline addr none) [
    | none ↦ (s, link)
    | some deadline ↦ if f.lt now deadline then (s, link) else expire s link addr
  ]

  unfoldable pub timeout_all : List A → Sender T A → Link A → Sender T A × Link A
  timeout_all [] s link = (s, link)
  timeout_all (addr ∷ more) s link =
      let (s', link') = timeout_peer s link addr in timeout_all more s' link'

module _ {T A : Type 0} ⦃f : Float T⦄ where
  -- `[deadline for deadline in self._timer_deadline.values() if deadline is not None]`
  unfoldable pub deadlines : Dict A (Option T) → List T
  deadlines [] = []
  deadlines ((addr, none) ∷ d) = deadlines d
  deadlines ((addr, some t) ∷ d) = t ∷ deadlines d

module _ {T : Type 0} ⦃f : Float T⦄ where
  unfoldable pub min_all : T → List T → T
  min_all t [] = t
  min_all t (u ∷ us) = min_all (min_f t u) us

  -- 0.05 s, or less where a timer ends earlier
  unfoldable pub wait_time : List T → T → T
  wait_time [] now = f.ratio 1 20
  wait_time (t ∷ ts) now = max_f zero_f (min_f (f.ratio 1 20) (f.sub (min_all t ts) now))
