-- ===== src/SelectiveRepeat/Calls/Flush.antt =====
-- `flush` and `close` of the two sliding windows promise the same.
use udp_arq_lab.Prelude.{◌≡◌, ◌⊎◌, inl, inr, none, some, List, [], ◌∷◌}
use udp_arq_lab.Prelude.Dict.{Eq, get}
use udp_arq_lab.Prelude.Float.{Float}
use udp_arq_lab.Prelude.Result.{ok}
use udp_arq_lab.Sliding.{at}
use udp_arq_lab.GoBackN.Calls.Flush as Cumulative
use udp_arq_lab.SelectiveRepeat.State.{Sender}
use udp_arq_lab.SelectiveRepeat.Calls.{backlog, backlogs, flush}

module _ {T A : Type 0} ⦃f : Float T⦄ ⦃e : Eq A⦄ (sorted_set : List A → List A) where
  -- Nothing to the peer is pending or sent without an ACK, and no failure is recorded.
  pub record IsQuiet (s : Sender T A) (a : A) : Type 0 where
    pub pending : at s.pending a ≡ []
    pub sent : at s.sent_items a ≡ []
    pub no_error : get s.peer_errors a ≡ none

  -- One of the looks finds the peer quiet.
  abbrev pub QuietLook : List (Sender T A × T) → A → Type 0
  QuietLook [] a = ⊥
  QuietLook ((s, now) ∷ looks) a = IsQuiet s a ⊎ QuietLook looks a

  QuietLook-of_backlogs :
      (looks : List (Sender T A × T)) (a : A)
      → Cumulative.QuietLook sorted_set (backlogs looks) a
      → QuietLook looks a
  unfolding backlogs backlog
  QuietLook-of_backlogs [] a q = q
  QuietLook-of_backlogs ((s, now) ∷ looks) a (inl q) =
      inl (record { pending = q.pending; sent = q.sent; no_error = q.no_error })
  QuietLook-of_backlogs ((s, now) ∷ looks) a (inr q) = inr (QuietLook-of_backlogs looks a q)

  -- If `flush` for a peer returns normally, then at one of its looks nothing to the peer was
  -- pending or sent and unacknowledged, and no failure was recorded.
  pub flush_returns_quiet :
      (looks : List (Sender T A × T)) (a : A) (deadline : T)
      → flush sorted_set looks (some a) deadline ≡ some (ok tt)
      → QuietLook looks a
  unfolding flush
  flush_returns_quiet looks a deadline h =
      QuietLook-of_backlogs looks a (Cumulative.flush_lem sorted_set (backlogs looks) a deadline h)
