-- ===== src/Channel/Integrity.antt =====
-- What the channel delivers is what was sent, or is recognisably damaged.
use udp_arq_lab.Prelude.{
  ℕ, ◌≡◌, ◌⊎◌, inl, inr, Bool, true, false, List, [], ◌∷◌, length, All, All-append, Bool-cases, not,
  ◌&&◌, ◌==◌, leb,
}
use udp_arq_lab.Prelude.Float.{Float, zero_f}
use udp_arq_lab.Heapq.{Entry, heappush, before}
use udp_arq_lab.Packet.{IsByte}
use udp_arq_lab.Checksum.{verify}
use udp_arq_lab.Channel.Detection.{verify-corrupt}
use udp_arq_lab.Channel.{
  Channel, max_datagram, Config, Draws, impaired, enqueue, transmit, draw_five, sendto, send_top,
  round_on, deliver_round, close, Event, sends, rounds, closes, or_keep, after_round, step, run,
}

-- A property of every item on a heap.
module _ {T A : Type 0} (P : A → Type 0) where
  abbrev pub AllItems : List (Entry T A) → Type 0
  AllItems [] = Unit
  AllItems (x ∷ xs) = P x.item × AllItems xs

module _ {T A : Type 0} ⦃f : Float T⦄ (P : A → Type 0) where
  AllItems-heappush :
      (xs : List (Entry T A)) (x : Entry T A)
      → P x.item
      → AllItems P xs
      → AllItems P (heappush xs x)
  unfolding heappush
  AllItems-heappush [] x p a = (p, tt)
  AllItems-heappush (y ∷ ys) x p a = elim (Bool-cases (before x y)) [
    | inl b ↦ rw b (p, (a.0, a.1))
    | inr b ↦ rw b (a.0, AllItems-heappush ys x p a.1)
  ]

-- `Sent packet addr` says what the callers of `sendto` send. `Genuine` is a datagram that was sent
-- so, or one that `verify` rejects.
module _ {A : Type 0} (Sent : List ℕ → A → Type 0) where
  abbrev pub Genuine : List ℕ × A → Type 0
  Genuine (packet, addr) = Sent packet addr ⊎ (verify packet ≡ false)

  -- The calls send bytes that verify and that `Sent` describes.
  abbrev pub Sends : {T : Type 0} → Event T A → Type 0
  Sends (sends now packet addr) = All IsByte packet × (verify packet ≡ true) × Sent packet addr
  Sends (rounds now accepted) = Unit
  Sends closes = Unit

  pub record IsGenuine {T S : Type 0} (ch : Channel T A S) : Type 0 where
    pub queued : AllItems Genuine ch.heap
    pub delivered : All Genuine ch.wire

module _ {T A : Type 0} ⦃f : Float T⦄ (Sent : List ℕ → A → Type 0) where
  impaired-Genuine :
      (c : Config T) (d : Draws T) (packet : List ℕ) (addr : A)
      → All IsByte packet
      → verify packet ≡ true
      → Sent packet addr
      → Genuine Sent (impaired c d packet, addr)
  unfolding impaired
  impaired-Genuine c d packet addr b v s =
      elim (Bool-cases (f.lt d.corruption_draw c.corruption && not (length packet == 0))) [
        | inl hit ↦ rw hit (inr (verify-corrupt d.corruption_draw packet b v))
        | inr miss ↦ rw miss (inl s)
      ]

module _ {T A S : Type 0} ⦃f : Float T⦄ (Sent : List ℕ → A → Type 0) where
  enqueue-IsGenuine :
      (ch : Channel T A S) (at : T) (packet : List ℕ) (addr : A)
      → Genuine Sent (packet, addr)
      → IsGenuine Sent ch
      → IsGenuine Sent (enqueue ch at packet addr)
  unfolding enqueue
  enqueue-IsGenuine ch at packet addr p g = record {
    queued = AllItems-heappush (Genuine Sent) ch.heap _ p g.queued;
    delivered = g.delivered;
  }

  transmit-IsGenuine :
      (ch : Channel T A S) (d : Draws T) (now : T) (packet : List ℕ) (addr : A)
      → Genuine Sent (impaired ch.config d packet, addr)
      → IsGenuine Sent ch
      → IsGenuine Sent (transmit ch d now packet addr)
  unfolding transmit
  transmit-IsGenuine ch d now packet addr p g = elim (Bool-cases (f.lt d.loss_draw ch.loss)) [
    | inl lost ↦ rw lost (record { queued = g.queued; delivered = g.delivered })
    | inr kept ↦ elim (Bool-cases (f.lt d.duplication_draw ch.duplication)) [
      | inl twice ↦
          rw (kept, twice)
            (enqueue-IsGenuine (enqueue ch _ _ addr) _ _ addr p (enqueue-IsGenuine ch _ _ addr p g))
      | inr once ↦ rw (kept, once) (enqueue-IsGenuine ch _ _ addr p g)
    ]
  ]

  top-IsGenuine :
      (ch : Channel T A S) (x : Entry T (List ℕ × A)) (rest : List (Entry T (List ℕ × A)))
      (b : Bool)
      → AllItems (Genuine Sent) (x ∷ rest)
      → IsGenuine Sent ch
      → IsGenuine Sent (send_top ch x rest b)
  unfolding send_top
  top-IsGenuine ch x rest true a g = record {
    queued = a.1;
    delivered = All-append (Genuine Sent) ch.wire (x.item ∷ []) g.delivered (a.0, tt);
  }
  top-IsGenuine ch x rest false a g = record { queued = a.1; delivered = g.delivered }

  round-IsGenuine :
      (ch : Channel T A S) (h : List (Entry T (List ℕ × A))) (now : T) (b : Bool)
      → AllItems (Genuine Sent) h
      → IsGenuine Sent ch
      → IsGenuine Sent (after_round ch (round_on ch h now b))
  unfolding round_on send_top
  round-IsGenuine ch [] now b a g = elim (Bool-cases ch.closed) [
    | inl shut ↦ rw shut (record { queued = g.queued; delivered = g.delivered })
    | inr open_ch ↦ rw open_ch (record { queued = g.queued; delivered = g.delivered })
  ]
  round-IsGenuine ch (x ∷ rest) now b a g = elim (Bool-cases (f.lt zero_f (f.sub x.at now))) [
    | inl early ↦ rw early g
    | inr late ↦ rw late (top-IsGenuine ch x rest b a g)
  ]

module _ {T A S : Type 0} ⦃f : Float T⦄ (random : S → T × S) (Sent : List ℕ → A → Type 0) where
  sendto-IsGenuine :
      (ch : Channel T A S) (now : T) (packet : List ℕ) (addr : A)
      → All IsByte packet × (verify packet ≡ true) × Sent packet addr
      → IsGenuine Sent ch
      → IsGenuine Sent (or_keep ch (sendto random ch now packet addr))
  unfolding sendto
  sendto-IsGenuine ch now packet addr (b, v, s) g =
      elim (Bool-cases (leb (length packet) max_datagram)) [
        | inr big ↦ rw big g
        | inl fits ↦ elim (Bool-cases (not ch.closed)) [
          | inr shut ↦ rw (fits, shut) g
          | inl open_ch ↦
              rw (fits, open_ch)
                (transmit-IsGenuine Sent _ _ now packet addr
                  (impaired-Genuine Sent ch.config (draw_five random ch.rng).0 packet addr b v s)
                  (record { queued = g.queued; delivered = g.delivered }))
        ]
      ]

  step-IsGenuine :
      (ch : Channel T A S) (e : Event T A)
      → Sends Sent e
      → IsGenuine Sent ch
      → IsGenuine Sent (step random ch e)
  unfolding step close deliver_round
  step-IsGenuine ch (sends now packet addr) h g = sendto-IsGenuine ch now packet addr h g
  step-IsGenuine ch (rounds now b) h g = round-IsGenuine Sent ch ch.heap now b g.queued g
  step-IsGenuine ch closes h g = record { queued = g.queued; delivered = g.delivered }

  -- If every call of `sendto` sends bytes that verify and that `Sent` describes, and each datagram
  -- that is queued or on the wire at the start is one that `Sent` describes or that `verify`
  -- rejects, then whatever is lost, delayed, duplicated, reordered and corrupted, each datagram
  -- queued or on the wire at the end is one that `Sent` describes, or `verify` rejects it.
  pub run-IsGenuine :
      (es : List (Event T A)) (ch : Channel T A S)
      → All (Sends Sent) es
      → IsGenuine Sent ch
      → IsGenuine Sent (run random ch es)
  unfolding run
  run-IsGenuine [] ch h g = g
  run-IsGenuine (e ∷ es) ch h g =
      run-IsGenuine es (step random ch e) h.1 (step-IsGenuine ch e h.0 g)
