-- ===== src/SelectiveRepeat/Transfer/Delivery.antt =====
-- The far transport receives what the near one was given, all of it and in order.
use mathlib.Core.Logic.{inl, inr}
use udp_arq_lab.Prelude.{ℕ, ◌≤◌, ◌<◌, ◌≡◌, refl, ◌∙◌, Bool, true, List, arith}
use udp_arq_lab.Prelude.Dict.{nat_eq_inst, Eq, get, get_or, has}
use udp_arq_lab.Prelude.Float.{Float}
use udp_arq_lab.Sliding.{Config}
use udp_arq_lab.GoBackN.Receiver.Prefix.{payloads_of, messages, messages_cong}
use udp_arq_lab.SelectiveRepeat.Receiver.Peers.{last_number, Held}
use udp_arq_lab.SelectiveRepeat.Receiver.Complete.{all_delivered}
use udp_arq_lab.SelectiveRepeat.Loop.{start}
use udp_arq_lab.SelectiveRepeat.Transfer.{Pair, Move, play, opened, AllAllowed, IsSettled}
use udp_arq_lab.SelectiveRepeat.Transfer.Reaches.{IsQueued-elsewhere}
use udp_arq_lab.SelectiveRepeat.Transfer.Joined.{Joined, play-Joined}

module _ {T A : Type 0} ⦃f : Float T⦄ ⦃e : Eq A⦄ (msg : A → ℕ → List ℕ) (limit : ℕ) (a b : A)
    (accepts : ℕ → Bool) (all : (k : ℕ) → accepts k ≡ true) (small : limit ≤ last_number) where
  opened-Joined : (c d : Config T) → Joined msg limit a b accepts all small (opened c d)
  unfolding start get_or get has payloads_of
  opened-Joined c d = record {
    safe = (
      record {
        queued = tt;
        waiting = λ n i h. absurd (ground arith);
        sent = λ n q h. absurd (ground arith);
        accounted = λ n lt. absurd (omega (arith, lt));
      },
      tt,
      refl,
    );
    alive = refl;
    orderly = record {
      genuine = λ x n q h. absurd (ground arith);
      next_missing = λ x. refl;
      below = λ x. record { expected_le = omega arith; buffer_lt = λ n h. absurd (ground arith) };
    };
    answered = tt;
    in_turn = refl;
    bounded = record { expected_le = omega arith; buffer_lt = λ n h. absurd (ground arith) };
  }

  -- Where nothing is left over, each number that was assigned was received.
  settled-Held :
      (p : Pair T A) (n : ℕ)
      → Joined msg limit a b accepts all small p
      → IsSettled b p.near.sender
      → n < get_or p.near.sender.next_seq b 0
      → Held p.far.receiver a n
  unfolding has get
  settled-Held p n j s lt = elim (j.safe.0.accounted n lt) [
    | inl (inl queued) ↦ absurd (IsQueued-elsewhere b n p.near.sender.outbound s.queue queued)
    | inl (inr (inl waiting)) ↦ absurd (ground (arith, s.pending))
    | inl (inr (inr out)) ↦ absurd (ground (arith, s.outstanding))
    | inr (inl held) ↦ held
    | inr (inr failed) ↦ absurd (ground (arith, s.healthy))
  ]

  -- Two new transports, at `a` and at `b`, on channels that take every packet: the first sends to `b`
  -- and to others and runs rounds of its thread, the second handles datagrams. What comes to one of
  -- them from the other is damaged so that `verify` rejects it, or was sent to it before, in any
  -- order and number; from other addresses, the second gets only damaged bytes, ACKs and packets of
  -- their messages. Message `n` to `b` is the payload of call `n` among those that return normally,
  -- has a packet, and is sent while no failure of `b` is recorded; there are `limit` of them, at most
  -- 2^32 - 1. If in the end nothing to `b` is queued, pending or without an ACK, and no failure of it
  -- is recorded, then the queue of the second transport holds from `a` exactly these messages, each
  -- once and in order.
  pub transfer_delivers :
      (c d : Config T) (moves : List (Move T A))
      → AllAllowed msg limit a b accepts (opened c d) moves
      → IsSettled b (play accepts (opened c d) moves).near.sender
      → get_or (play accepts (opened c d) moves).near.sender.next_seq b 0 ≡ limit
      → payloads_of a (play accepts (opened c d) moves).far.receiver.incoming
        ≡ messages (msg a) 0 limit
  transfer_delivers c d moves allowed settled given =
      let p = play accepts (opened c d) moves in
      let j =
        play-Joined msg limit a b accepts all small (opened c d) moves allowed
          (opened-Joined c d) in
      let received =
        all_delivered msg accepts all a 0 (get_or p.near.sender.next_seq b 0) p.far j.orderly
          (λ n low lt. settled-Held p n j settled (omega (arith, lt))) (omega arith) in
      j.in_turn
      ∙ messages_cong (msg a) 0 0 _ _ refl (omega (arith, received, given, j.bounded.expected_le))
