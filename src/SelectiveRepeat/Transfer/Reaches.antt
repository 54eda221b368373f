-- ===== src/SelectiveRepeat/Transfer/Reaches.antt =====
-- What reaches the far transport, and what it has then from the near one.
use mathlib.Core.Path.{subst}
use mathlib.Core.Logic.{inl, inr}
use udp_arq_lab.Prelude.{
  ℕ, ◌+◌, ◌≤◌, ◌<◌, ◌≡◌, refl, sym, ap, ◌∙◌, true, false, List, [], ◌∷◌, ◌++◌, arith, All,
}
use udp_arq_lab.Prelude.Dict.{nat_eq_inst, Eq, get_or, has}
use udp_arq_lab.Prelude.Result.{ok}
use udp_arq_lab.Checksum.{verify}
use udp_arq_lab.Wire.{data_packet, ack_packet}
use udp_arq_lab.Sliding.{Item, at}
use udp_arq_lab.GoBackN.Receiver.Prefix.{
  payloads_of, messages, messages-append, messages_cong, Grows,
}
use udp_arq_lab.SelectiveRepeat.State.{Sender, Receiver}
use udp_arq_lab.SelectiveRepeat.Receiver.Peers.{last_number, in_order}
use udp_arq_lab.SelectiveRepeat.Receiver.Arranged.{IsBelow}
use udp_arq_lab.SelectiveRepeat.Receiver.Arrivals.{Arrives, damaged, is_ack, is_data}
use udp_arq_lab.SelectiveRepeat.Kept.{IsQueued, IsKept, IsCarried}
use udp_arq_lab.SelectiveRepeat.Transfer.{OnWire}

module _ {A : Type 0} ⦃e : Eq A⦄ (b : A) where
  pub IsKept-mono :
      (m : ℕ → List ℕ) (limit : ℕ) (D D' : ℕ → Type 0) {T : Type 0} (s : Sender T A)
      → ((n : ℕ) → D n → D' n)
      → IsKept b m limit D s.outbound
          (at s.pending b)
          (at s.outstanding b)
          (get_or s.next_seq b 0)
          (has s.peer_errors b)
      → IsKept b m limit D' s.outbound
          (at s.pending b)
          (at s.outstanding b)
          (get_or s.next_seq b 0)
          (has s.peer_errors b)
  IsKept-mono m limit D D' s more k = record {
    queued = k.queued;
    waiting = k.waiting;
    sent = k.sent;
    accounted = λ n lt. elim (k.accounted n lt) [
      | inl x ↦ inl x
      | inr (inl x) ↦ inr (inl (more n x))
      | inr (inr x) ↦ inr (inr x)
    ];
  }

  -- What was sent has every property of all that was sent.
  pub OnWire-All :
      (P : List ℕ → Type 0) (raw : List ℕ) (wire : List (List ℕ × A))
      → All (λ x. e.beq x.1 b ≡ true → P x.0) wire
      → OnWire b raw wire
      → P raw
  OnWire-All P raw [] all w = absurd w
  OnWire-All P raw (x ∷ wire) all (inl (same, there)) = subst P same (all.0 there)
  OnWire-All P raw (x ∷ wire) all (inr w) = OnWire-All P raw wire all.1 w

  pub IsQueued-elsewhere :
      (n : ℕ) (q : List (Item A)) → All (λ i. e.beq i.addr b ≡ false) q → ¬ IsQueued b n q
  IsQueued-elsewhere n [] other h = h
  IsQueued-elsewhere n (i ∷ q) other (inl (here, same)) = absurd (ground (arith, other.0))
  IsQueued-elsewhere n (i ∷ q) other (inr h) = IsQueued-elsewhere n q other.1 h

module _ {A : Type 0} ⦃e : Eq A⦄ (limit : ℕ) (a : A) where
  abbrev pub IsBounded : Receiver A → Type 0
  IsBounded r = IsBelow limit (at r.buffer a) (get_or r.expected a 0)

module _ {A : Type 0} ⦃e : Eq A⦄ (msg : A → ℕ → List ℕ) (limit : ℕ) (a b : A) where
  -- What reaches the far transport, where `a` has fewer than `limit` messages.
  pub data Reaches (raw : List ℕ) (from : A) : Type 0 where
    broken : verify raw ≡ false → Reaches raw from
    answer : (ack : ℕ) → ack_packet ack ≡ ok raw → Reaches raw from
    message :
        (seq : ℕ)
        → seq < last_number
        → (from ≡ a → seq < limit)
        → data_packet seq (msg from seq) ≡ ok raw
        → Reaches raw from

  pub Arrives-of : (raw : List ℕ) (from : A) → Reaches raw from → Arrives msg raw from
  Arrives-of raw from (broken bad) = damaged bad
  Arrives-of raw from (answer ack built) = is_ack ack built
  Arrives-of raw from (message seq lt below built) = is_data seq lt built

  pub others-Reaches :
      (raw : List ℕ) (from : A) → e.beq from a ≡ false → Arrives msg raw from → Reaches raw from
  others-Reaches raw from other (damaged bad) = broken bad
  others-Reaches raw from other (is_ack ack built) = answer ack built
  others-Reaches raw from other (is_data seq lt built) =
      message seq lt (λ same. absurd (ground (arith, (e.beq_iff from a).1 same))) built

  pub carried-Reaches :
      (raw : List ℕ) (from : A)
      → limit ≤ last_number
      → a ≡ from
      → IsCarried b (msg a) limit raw
      → Reaches raw from
  carried-Reaches raw from small same (inl (n, (lt, built))) =
      message n (omega (arith, lt, small)) (λ x. lt)
        (subst (λ x. data_packet n (msg x n) ≡ ok raw) same built)
  carried-Reaches raw from small same (inr (ack, built)) = answer ack built

module _ {A : Type 0} ⦃e : Eq A⦄ (msg : A → ℕ → List ℕ) (a : A) where
  -- The queue holds the first messages of `a`, as many as are expected behind.
  abbrev pub IsPrefix : Receiver A → Type 0
  IsPrefix r = payloads_of a r.incoming ≡ messages (msg a) 0 (get_or r.expected a 0)

  pub longer-IsPrefix :
      (r r' : Receiver A) → Grows (msg a) a (in_order r) (in_order r') → IsPrefix r → IsPrefix r'
  longer-IsPrefix r r' g h =
      let n = get_or r.expected a 0 in
      g.incoming_eq
      ∙ ap (λ q. q ++ messages (msg a) n g.k) h
      ∙ ap (λ q. messages (msg a) 0 n ++ q)
          (messages_cong (msg a) n (0 + n) g.k g.k (omega arith) refl)
      ∙ messages-append (msg a) 0 n g.k
      ∙ messages_cong (msg a) 0 0 (n + g.k) (get_or r'.expected a 0) refl (sym g.expected_eq)
