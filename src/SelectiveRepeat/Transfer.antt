-- ===== src/SelectiveRepeat/Transfer.antt =====
-- Two transports: one sends to the other over a channel that loses, repeats, reorders and damages.
pub mod Reaches
pub mod Joined
pub mod Delivery
use mathlib.Core.Logic.{◌⊎◌}
use udp_arq_lab.Prelude.{ℕ, ◌≡◌, Bool, true, false, Option, none, some, List, [], ◌∷◌, All}
use udp_arq_lab.Prelude.Dict.{Eq, get_or, has}
use udp_arq_lab.Prelude.Float.{Float}
use udp_arq_lab.Prelude.Result.{ok}
use udp_arq_lab.Checksum.{verify}
use udp_arq_lab.Sliding.{Config, Item, Turn, at}
use udp_arq_lab.GoBackN.Receiver.Arrivals.{Datagram}
use udp_arq_lab.SelectiveRepeat.State.{Sender, SelectiveRepeat}
use udp_arq_lab.SelectiveRepeat.Receiver.Arrivals.{Arrives}
use udp_arq_lab.SelectiveRepeat.Calls.{sendto}
use udp_arq_lab.SelectiveRepeat.Loop.{handle_incoming, turn, start}
use udp_arq_lab.SelectiveRepeat.Kept.{IsMessage}

pub record Pair (T A : Type 0) : Type 0 where
  pub near : SelectiveRepeat T A
  pub far : SelectiveRepeat T A

-- The near application sends, the near thread runs one round, or the far thread takes a datagram.
pub data Move (T A : Type 0) : Type 0 where
  sends : List ℕ → A → Move T A
  turns : Turn T A → Move T A
  hears : Datagram T A → Move T A

module _ {T A : Type 0} ⦃f : Float T⦄ ⦃e : Eq A⦄ (accepts : ℕ → Bool) where
  unfoldable pub move : Pair T A → Move T A → Pair T A
  move p (sends payload addr) = record p { near = (sendto p.near payload addr).0 }
  move p (turns clock) = record p { near = turn accepts p.near clock }
  move p (hears d) = record p { far = handle_incoming accepts p.far d.raw d.from d.got_at }

  unfoldable pub play : Pair T A → List (Move T A) → Pair T A
  play p [] = p
  play p (m ∷ moves) = play (move p m) moves

module _ {T A : Type 0} where
  abbrev pub opened : Config T → Config T → Pair T A
  opened c d = record { near = start c; far = start d }

module _ {A : Type 0} ⦃e : Eq A⦄ where
  -- The bytes were sent to the address before.
  abbrev pub OnWire : A → List ℕ → List (List ℕ × A) → Type 0
  OnWire addr raw [] = ⊥
  OnWire addr raw (x ∷ wire) = ((x.0 ≡ raw) × (e.beq x.1 addr ≡ true)) ⊎ OnWire addr raw wire

  -- A channel hands over bytes that were sent, or damaged ones.
  abbrev pub IsRelayed : A → List ℕ → List (List ℕ × A) → Type 0
  IsRelayed addr raw wire = (verify raw ≡ false) ⊎ OnWire addr raw wire

  abbrev pub IsReplied : A → A → Option (List ℕ × A) → List (List ℕ × A) → Type 0
  IsReplied a b none wire = Unit
  IsReplied a b (some (raw, from)) wire = e.beq from b ≡ true → IsRelayed a raw wire

module _ {T A : Type 0} ⦃f : Float T⦄ ⦃e : Eq A⦄ (msg : A → ℕ → List ℕ) (limit : ℕ) (a b : A) where
  -- The near transport sits at `a` and the far one at `b`. Message `n` to `b` is the payload of the
  -- `n`-th call that returns normally, made while no failure is recorded.
  abbrev pub IsAllowed : Pair T A → Move T A → Type 0
  IsAllowed p (sends payload addr) =
      (sendto p.near payload addr).1 ≡ ok tt
      → addr ≡ b
      → (has p.near.sender.peer_errors b ≡ false)
        × IsMessage (msg a) limit (get_or p.near.sender.next_seq b 0) payload
  IsAllowed p (turns clock) = IsReplied a b clock.arrival p.far.link.wire
  IsAllowed p (hears d) =
      (e.beq d.from a ≡ true → IsRelayed b d.raw p.near.link.wire)
      × (e.beq d.from a ≡ false → Arrives msg d.raw d.from)

  module _ (accepts : ℕ → Bool) where
    abbrev pub AllAllowed : Pair T A → List (Move T A) → Type 0
    AllAllowed p [] = Unit
    AllAllowed p (m ∷ moves) = IsAllowed p m × AllAllowed (move accepts p m) moves

module _ {T A : Type 0} ⦃e : Eq A⦄ (b : A) where
  -- Nothing to the peer is queued, pending or out, and no failure is recorded.
  pub record IsSettled (s : Sender T A) : Type 0 where
    pub queue : All (λ i. e.beq i.addr b ≡ false) s.outbound
    pub pending : at s.pending b ≡ []
    pub outstanding : at s.outstanding b ≡ []
    pub healthy : has s.peer_errors b ≡ false
