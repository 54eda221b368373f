-- ===== src/Channel/Counters.antt =====
-- The counters `sent`, `dropped` and `delivered`, and the draws.
use udp_arq_lab.Prelude.{
  ℕ, suc, ◌+◌, ◌*◌, ◌≤◌, ◌≡◌, refl, ap, Bool, List, [], ◌∷◌, length, length-append, arith,
}
use udp_arq_lab.Prelude.Float.{Float}
use udp_arq_lab.Prelude.Result.{ok}
use udp_arq_lab.Heapq.{Entry, heappush}
use udp_arq_lab.Channel.{
  Channel, Draws, impaired, deliver_at, enqueue, transmit, draw_five, sendto, send_top, round_on,
  deliver_round, close, Event, sends, rounds, closes, or_keep, after_round, step, run,
}

module _ {T A : Type 0} ⦃f : Float T⦄ where
  length-heappush :
      (xs : List (Entry T A)) (x : Entry T A) → length (heappush xs x) ≡ suc (length xs)
  unfolding heappush
  length-heappush [] x = refl
  length-heappush (y ∷ ys) x = ground (arith, length-heappush ys x)

module _ {T A S : Type 0} ⦃f : Float T⦄ where
  -- Each accepted call is dropped, or else one or two packets are queued, and `tiebreak` counts
  -- these; a packet leaves the queue for the socket, and is counted, or for good.
  pub record Counted (ch : Channel T A S) : Type 0 where
    pub at_least : ch.sent ≤ ch.dropped + ch.tiebreak
    pub at_most : 2 * ch.dropped + ch.tiebreak ≤ 2 * ch.sent
    pub on_way : ch.delivered + length ch.heap ≤ ch.tiebreak
    pub on_wire : length ch.wire ≡ ch.delivered

  record OneMore (ch c : Channel T A S) : Type 0 where
    sent : c.sent ≡ ch.sent
    dropped : c.dropped ≡ ch.dropped
    delivered : c.delivered ≡ ch.delivered
    tiebreak : c.tiebreak ≡ ch.tiebreak + 1
    wire : c.wire ≡ ch.wire
    heap : length c.heap ≡ suc (length ch.heap)

  enqueue_lem :
      (ch : Channel T A S) (at : T) (packet : List ℕ) (addr : A)
      → OneMore ch (enqueue ch at packet addr)
  unfolding enqueue
  enqueue_lem ch at packet addr = record {
    sent = refl;
    dropped = refl;
    delivered = refl;
    tiebreak = refl;
    wire = refl;
    heap = length-heappush ch.heap _;
  }

  -- A packet that is sent grows the heap by one entry or two, unless it is dropped.
  transmit-Counted :
      (ch : Channel T A S) (d : Draws T) (now : T) (packet : List ℕ) (addr : A)
      → ch.sent ≤ ch.dropped + ch.tiebreak + 1
      → 2 * ch.dropped + ch.tiebreak + 2 ≤ 2 * ch.sent
      → ch.delivered + length ch.heap ≤ ch.tiebreak
      → length ch.wire ≡ ch.delivered
      → Counted (transmit ch d now packet addr)
  unfolding transmit
  transmit-Counted ch d now packet addr c w q o = ground (
    arith,
    enqueue_lem ch (deliver_at ch.config d now) (impaired ch.config d packet) addr,
    enqueue_lem (enqueue ch (deliver_at ch.config d now) (impaired ch.config d packet) addr)
        (deliver_at ch.config d now) (impaired ch.config d packet) addr,
  )

  send_top-Counted :
      (ch : Channel T A S) (x : Entry T (List ℕ × A)) (rest : List (Entry T (List ℕ × A)))
      (b : Bool)
      → ch.heap ≡ x ∷ rest
      → Counted ch
      → Counted (send_top ch x rest b)
  unfolding send_top
  send_top-Counted ch x rest b e c = ground (
    arith,
    ap (λ (h : List (Entry T (List ℕ × A))). length h) e,
    length-append ch.wire (x.item ∷ []),
  )

  round-Counted :
      (ch : Channel T A S) (h : List (Entry T (List ℕ × A))) (now : T) (b : Bool)
      → ch.heap ≡ h
      → Counted ch
      → Counted (after_round ch (round_on ch h now b))
  unfolding round_on
  round-Counted ch [] now b e c = ground arith
  round-Counted ch (x ∷ rest) now b e c = ground (arith, send_top-Counted ch x rest b e c)

module _ {T A S : Type 0} ⦃f : Float T⦄ (random : S → T × S) where
  sendto-Counted :
      (ch : Channel T A S) (now : T) (packet : List ℕ) (addr : A)
      → Counted ch
      → Counted (or_keep ch (sendto random ch now packet addr))
  unfolding sendto
  sendto-Counted ch now packet addr c = ground (
    arith,
    transmit-Counted (record ch { rng = (draw_five random ch.rng).1; sent = ch.sent + 1 })
        (draw_five random ch.rng).0 now packet addr,
  )

  step-Counted : (ch : Channel T A S) (e : Event T A) → Counted ch → Counted (step random ch e)
  unfolding step close deliver_round
  step-Counted ch (sends now packet addr) c = sendto-Counted ch now packet addr c
  step-Counted ch (rounds now b) c = round-Counted ch ch.heap now b refl c
  step-Counted ch closes c = ground arith

  -- If it is so before, then after any calls and rounds: each call of `sendto` that is accepted is
  -- counted as dropped or queues one packet or two (so `sent` is at most `dropped` and the packets
  -- queued so far, and these and twice `dropped` at most twice `sent`), the datagrams handed to the
  -- socket and those still queued are at most the packets queued so far, and `delivered` is the
  -- number of datagrams that the socket was handed.
  pub run-Counted :
      (es : List (Event T A)) (ch : Channel T A S) → Counted ch → Counted (run random ch es)
  unfolding run
  run-Counted [] ch c = c
  run-Counted (e ∷ es) ch c = run-Counted es (step random ch e) (step-Counted ch e c)

  -- Where `sendto` accepts a packet, whether it is then dropped or not, the generator is left as
  -- five calls of `random` leave it.
  pub sendto_draws :
      (ch c : Channel T A S) (now : T) (packet : List ℕ) (addr : A)
      → sendto random ch now packet addr ≡ ok c
      → c.rng ≡ (random (random (random (random (random ch.rng).1).1).1).1).1
  unfolding sendto transmit enqueue draw_five
  sendto_draws ch c now packet addr e = ground arith
