-- ===== src/SelectiveRepeat/Receiver/Complete.antt =====
-- The receive window: packets that arrive out of order wait, and are delivered with the missing ones.
use mathlib.Core.Path.{subst}
use udp_arq_lab.Prelude.{
  ℕ, ◌+◌, ◌≤◌, ◌<◌, ◌≡◌, ◌⊎◌, inl, inr, Bool, true, none, List, [], ◌∷◌, ◌++◌, arith, All,
}
use udp_arq_lab.Prelude.Dict.{nat_eq_inst, Eq, get_or, has}
use udp_arq_lab.Prelude.Float.{Float}
use udp_arq_lab.Prelude.Result.{ok}
use udp_arq_lab.Wire.{data_packet}
use udp_arq_lab.GoBackN.Receiver.Prefix.{payloads_of, messages}
use udp_arq_lab.GoBackN.Receiver.Arrivals.{Datagram}
use udp_arq_lab.SelectiveRepeat.State.{SelectiveRepeat}
use udp_arq_lab.SelectiveRepeat.Receiver.Peers.{last_number, Held, IsOrderly}
use udp_arq_lab.SelectiveRepeat.Receiver.Arrivals.{
  hear, hear_next, Arrives, Progresses-data, Progresses-one, hear-Progresses,
}
use udp_arq_lab.SelectiveRepeat.Loop.{handle_incoming}

module _ {T A : Type 0} ⦃f : Float T⦄ ⦃e : Eq A⦄ (msg : A → ℕ → List ℕ) where
  module _ (accepts : ℕ → Bool) (all : (k : ℕ) → accepts k ≡ true) where
    -- The packet of message `n` of the peer is among the datagrams.
    abbrev pub Brings : A → ℕ → List (Datagram T A) → Type 0
    Brings a n [] = ⊥
    Brings a n (d ∷ ds) = ((d.from ≡ a) × (data_packet n (msg a n) ≡ ok d.raw)) ⊎ Brings a n ds

    Held-after :
        (a : A) (n : ℕ) (g : SelectiveRepeat T A) (ds : List (Datagram T A))
        → g.died ≡ none
        → IsOrderly msg g.receiver
        → All (λ d. Arrives msg d.raw d.from) ds
        → n < last_number
        → n < get_or g.receiver.expected a 0 + g.config.window_size
        → Brings a n ds
        → Held (hear accepts g ds).receiver a n
    Held-after a n g [] alive o comes lt inside b = absurd b
    Held-after a n g (d ∷ ds) alive o comes lt inside b =
        let one = Progresses-one msg accepts all g d alive o comes.0 in
        let h = handle_incoming accepts g d.raw d.from d.got_at in
        let rest = hear-Progresses msg accepts all h ds one.alive one.progress.orderly comes.1 in
        rw (hear_next accepts g d ds one.alive) (elim b [
          | inl (from, built) ↦ rest.progress.keeps a n (
              subst (λ p. Held h.receiver p n) from
                ((Progresses-data msg accepts all g d n o lt (rw from built)).1 (rw from inside)))
          | inr later ↦
              Held-after a n h ds one.alive one.progress.orderly comes.1 lt
                (rw one.configured (omega (arith, inside, (one.progress.grown a).expected_eq)))
                later
        ])

    -- A receiver that knows `k` more packets than it expected has delivered them.
    pub all_delivered :
        (a : A) (n k : ℕ) (g : SelectiveRepeat T A)
        → IsOrderly msg g.receiver
        → ((m : ℕ) → n ≤ m → m < n + k → Held g.receiver a m)
        → n ≤ get_or g.receiver.expected a 0
        → n + k ≤ get_or g.receiver.expected a 0
    unfolding has
    all_delivered a n k g o held le =
        ground (arith, held (get_or g.receiver.expected a 0) le, o.next_missing a)

    -- While the channel takes every ACK, the thread lives, the buffers are orderly and no message
    -- has the number 2^32 - 1: on datagrams that are each damaged so that `verify` rejects it, or an
    -- ACK packet, or the packet of one of its sender's messages, if each of the next `k` messages of
    -- a peer arrives at least once, `k` at most the window size, then the receiver's expected number
    -- goes up by some `m` that is at least `k`, and the queue of payloads from the peer grows by
    -- exactly its next `m` messages, in order, in whatever order, with whatever repetitions and among
    -- whatever else they arrive.
    pub hear_completes :
        (g : SelectiveRepeat T A) (ds : List (Datagram T A)) (a : A) (k : ℕ)
        → g.died ≡ none
        → IsOrderly msg g.receiver
        → All (λ d. Arrives msg d.raw d.from) ds
        → k ≤ g.config.window_size
        → get_or g.receiver.expected a 0 + k ≤ last_number
        → ((n : ℕ)
            → get_or g.receiver.expected a 0 ≤ n
            → n < get_or g.receiver.expected a 0 + k
            → Brings a n ds)
        → (m : ℕ) × (k ≤ m)
          × (get_or (hear accepts g ds).receiver.expected a 0 ≡ get_or g.receiver.expected a 0 + m)
          × (payloads_of a (hear accepts g ds).receiver.incoming
              ≡ payloads_of a g.receiver.incoming
                ++ messages (msg a) (get_or g.receiver.expected a 0) m)
    hear_completes g ds a k alive o comes small lt brings =
        let heard = hear-Progresses msg accepts all g ds alive o comes in
        let grown = heard.progress.grown a in
        let passed =
          all_delivered a (get_or g.receiver.expected a 0) k (hear accepts g ds)
            heard.progress.orderly
            (λ m low high.
              Held-after a m g ds alive o comes (omega (arith, high, lt))
                (omega (arith, high, small)) (brings m low high))
            (omega (arith, grown.expected_eq)) in
        (grown.k, omega (arith, passed, grown.expected_eq), grown.expected_eq, grown.incoming_eq)
