-- ===== src/SelectiveRepeat/Transfer/Joined.antt =====
-- What holds between the two transports behind every move.
use mathlib.Core.Logic.{inl, inr}
use udp_arq_lab.Prelude.{
  ℕ, ◌+◌, ◌≤◌, ◌≡◌, refl, sym, Bool, true, none, some, Option, List, [], ◌∷◌, Bool-cases,
}
use udp_arq_lab.Prelude.Dict.{nat_eq_inst, Eq}
use udp_arq_lab.Prelude.Float.{Float}
use udp_arq_lab.Prelude.Result.{ok}
use udp_arq_lab.Wire.{ack_packet}
use udp_arq_lab.GoBackN.Receiver.Arrivals.{Datagram}
use udp_arq_lab.SelectiveRepeat.State.{SelectiveRepeat}
use udp_arq_lab.SelectiveRepeat.Receiver.Peers.{
  last_number, Held, IsOrderly, IsAnswered, step-IsBelow,
}
use udp_arq_lab.SelectiveRepeat.Receiver.Arrivals.{
  Progresses, Progresses-one, handle_incoming_damaged, handle_incoming_ack, handle_incoming-step,
}
use udp_arq_lab.SelectiveRepeat.Calls.{sendto}
use udp_arq_lab.SelectiveRepeat.Loop.{handle_incoming, turn}
use udp_arq_lab.SelectiveRepeat.Kept.{IsCarried}
use udp_arq_lab.SelectiveRepeat.Kept.Turns.{Tells, IsTold, Safe, sendto-Safe, turn-Safe}
use udp_arq_lab.SelectiveRepeat.Transfer.{
  Pair, Move, sends, turns, hears, move, play, IsRelayed, IsReplied, IsAllowed, AllAllowed,
}
use udp_arq_lab.SelectiveRepeat.Transfer.Reaches.{
  IsKept-mono, OnWire-All, IsBounded, Reaches, broken, answer, message, Arrives-of, others-Reaches,
  carried-Reaches, IsPrefix, longer-IsPrefix,
}

module _ {T A : Type 0} ⦃f : Float T⦄ ⦃e : Eq A⦄ (msg : A → ℕ → List ℕ) (limit : ℕ) (a b : A)
    (accepts : ℕ → Bool) (all : (k : ℕ) → accepts k ≡ true) (small : limit ≤ last_number) where
  -- What holds between the two transports.
  pub record Joined (p : Pair T A) : Type 0 where
    pub safe : Safe b (msg a) limit (λ n. Held p.far.receiver a n) accepts all p.near
    pub alive : p.far.died ≡ none
    pub orderly : IsOrderly msg p.far.receiver
    pub answered : IsAnswered a p.far.receiver p.far.link.wire
    pub in_turn : IsPrefix msg a p.far.receiver
    pub bounded : IsBounded limit a p.far.receiver

  relayed-Tells :
      (p : Pair T A) (raw : List ℕ)
      → Joined p
      → IsRelayed a raw p.far.link.wire
      → Tells (λ n. Held p.far.receiver a n) raw
  relayed-Tells p raw j (inl bad) = inl bad
  relayed-Tells p raw j (inr w) = inr (
      OnWire-All a
        (λ x.
          (ack : ℕ) × (ack_packet ack ≡ ok x) × ((n : ℕ) → ack ≡ n + 1 → Held p.far.receiver a n))
        raw p.far.link.wire j.answered w)

  replied-IsTold :
      (p : Pair T A) (arrival : Option (List ℕ × A))
      → Joined p
      → IsReplied a b arrival p.far.link.wire
      → IsTold b (λ n. Held p.far.receiver a n) arrival
  replied-IsTold p none j r = tt
  replied-IsTold p (some (raw, from)) j r = λ t. relayed-Tells p raw j (r t)

  relayed-Reaches :
      (p : Pair T A) (d : Datagram T A)
      → Joined p
      → e.beq d.from a ≡ true
      → IsRelayed b d.raw p.near.link.wire
      → Reaches msg limit a b d.raw d.from
  relayed-Reaches p d j t (inl bad) = broken bad
  relayed-Reaches p d j t (inr w) =
      carried-Reaches msg limit a b d.raw d.from small (sym ((e.beq_iff d.from a).0 t))
        (OnWire-All b (IsCarried b (msg a) limit) d.raw p.near.link.wire j.safe.1 w)

  allowed-Reaches :
      (p : Pair T A) (d : Datagram T A)
      → Joined p
      → IsAllowed msg limit a b p (hears d)
      → Reaches msg limit a b d.raw d.from
  allowed-Reaches p d j (mine, others) = elim (Bool-cases (e.beq d.from a)) [
    | inl t ↦ relayed-Reaches p d j t (mine t)
    | inr t ↦ others-Reaches msg limit a b d.raw d.from t (others t)
  ]

  -- No number from `limit` on is expected or buffered.
  reached-IsBelow :
      (g : SelectiveRepeat T A) (d : Datagram T A)
      → IsOrderly msg g.receiver
      → Reaches msg limit a b d.raw d.from
      → IsBounded limit a g.receiver
      → IsBounded limit a (handle_incoming accepts g d.raw d.from d.got_at).receiver
  reached-IsBelow g d o (broken bad) x =
      rw (handle_incoming_damaged accepts g d.raw d.from d.got_at bad) x
  reached-IsBelow g d o (answer ack built) x =
      rw (handle_incoming_ack accepts g ack d.raw d.from d.got_at built).0 x
  reached-IsBelow g d o (message seq lt below built) x =
      rw (handle_incoming-step msg accepts all g d seq o lt built).2 (
        step-IsBelow msg g.config.window_size g.receiver d.from seq (msg d.from seq) o refl limit a
          below x)

  near-Joined :
      (p : Pair T A) (g : SelectiveRepeat T A)
      → Safe b (msg a) limit (λ n. Held p.far.receiver a n) accepts all g
      → Joined p
      → Joined (record p { near = g })
  near-Joined p g safe j = record {
    safe = safe;
    alive = j.alive;
    orderly = j.orderly;
    answered = j.answered;
    in_turn = j.in_turn;
    bounded = j.bounded;
  }

  far-Joined :
      (p : Pair T A) (g : SelectiveRepeat T A)
      → Progresses msg p.far g
      → IsBounded limit a g.receiver
      → Joined p
      → Joined (record p { far = g })
  far-Joined p g x bounded j = record {
    safe = (
      IsKept-mono b (msg a) limit (λ n. Held p.far.receiver a n) (λ n. Held g.receiver a n)
          p.near.sender (x.progress.keeps a) j.safe.0,
      j.safe.1,
      refl,
    );
    alive = x.alive;
    orderly = x.progress.orderly;
    answered = x.answers a j.answered;
    in_turn = longer-IsPrefix msg a p.far.receiver g.receiver (x.progress.grown a) j.in_turn;
    bounded = bounded;
  }

  move-Joined :
      (p : Pair T A) (m : Move T A)
      → IsAllowed msg limit a b p m
      → Joined p
      → Joined (move accepts p m)
  unfolding move
  move-Joined p (sends payload addr) allowed j =
      near-Joined p (sendto p.near payload addr).0
        (sendto-Safe b (msg a) limit (λ n. Held p.far.receiver a n) accepts all p.near payload addr
          allowed j.safe)
        j
  move-Joined p (turns clock) allowed j =
      near-Joined p (turn accepts p.near clock)
        (turn-Safe b (msg a) limit (λ n. Held p.far.receiver a n) accepts all p.near clock
          (replied-IsTold p clock.arrival j allowed) j.safe)
        j
  move-Joined p (hears d) allowed j =
      let reaches = allowed-Reaches p d j allowed in
      far-Joined p (handle_incoming accepts p.far d.raw d.from d.got_at)
        (Progresses-one msg accepts all p.far d j.alive j.orderly
          (Arrives-of msg limit a b d.raw d.from reaches))
        (reached-IsBelow p.far d j.orderly reaches j.bounded) j

  pub play-Joined :
      (p : Pair T A) (moves : List (Move T A))
      → AllAllowed msg limit a b accepts p moves
      → Joined p
      → Joined (play accepts p moves)
  unfolding play
  play-Joined p [] allowed j = j
  play-Joined p (m ∷ moves) allowed j =
      play-Joined (move accepts p m) moves allowed.1 (move-Joined p m allowed.0 j)
