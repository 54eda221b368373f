-- ===== src/Channel.antt =====
-- udp_arq/channel.py: the channel emulator. The socket is a list of the datagrams that it was
-- handed; the random generator and the clock are parameters, and so is whether the socket raises
-- OSError on a datagram. What `threading` schedules is the order of the calls.
pub mod Corrupt
pub mod Detection
pub mod Counters
pub mod Integrity
pub mod Drain
pub mod Receive
use udp_arq_lab.Prelude.{
  ℕ, ◌+◌, ◌*◌, Bool, true, false, not, ◌&&◌, List, [], ◌∷◌, ◌++◌, length, ltb, leb, ◌==◌,
  if◌then◌else◌,
}
use udp_arq_lab.Prelude.Float.{Float, max_f, le_f, zero_f}
use udp_arq_lab.Prelude.Result.{Result, ok, err, ◌>>=◌, ◌>>◌, require}
use udp_arq_lab.Heapq.{Entry, heappush}
use udp_arq_lab.Channel.Corrupt.{corrupt}

-- MAX_DATAGRAM
abbrev pub max_datagram : ℕ
max_datagram = 65507

pub data ChannelError : Type 0 where
  bad_loss bad_delay bad_jitter bad_duplication bad_reorder bad_corruption : ChannelError
  too_large is_closed : ChannelError

pub record Config (T : Type 0) : Type 0 where
  pub loss : T
  pub delay : T
  pub jitter : T
  pub duplication : T
  pub reorder : T
  pub corruption : T

-- `wire` holds what the socket was handed, oldest first.
pub record Channel (T A S : Type 0) : Type 0 where
  pub config : Config T
  pub open config use *
  pub rng : S
  pub heap : List (Entry T (List ℕ × A))
  pub tiebreak : ℕ
  pub closed : Bool
  pub sent : ℕ
  pub dropped : ℕ
  pub delivered : ℕ
  pub wire : List (List ℕ × A)

-- The five draws of one packet.
pub record Draws (T : Type 0) : Type 0 where
  pub loss_draw : T
  pub jitter_draw : T
  pub duplication_draw : T
  pub reorder_draw : T
  pub corruption_draw : T

module _ {T A S : Type 0} ⦃f : Float T⦄ where
  -- __init__, `rng` being `random.Random(seed)`
  unfoldable pub new : Config T → S → Result ChannelError (Channel T A S)
  new c rng = do
    require (le_f zero_f c.loss && le_f c.loss (f.ratio 1 1)) bad_loss
    require (not (f.lt c.delay zero_f)) bad_delay
    require (not (f.lt c.jitter zero_f)) bad_jitter
    require (le_f zero_f c.duplication && le_f c.duplication (f.ratio 1 1)) bad_duplication
    require (le_f zero_f c.reorder && le_f c.reorder (f.ratio 1 1)) bad_reorder
    require (le_f zero_f c.corruption && le_f c.corruption (f.ratio 1 1)) bad_corruption
    ok (record {
      config = c;
      rng = rng;
      heap = [];
      tiebreak = 0;
      closed = false;
      sent = 0;
      dropped = 0;
      delivered = 0;
      wire = [];
    })

module _ {T : Type 0} ⦃f : Float T⦄ where
  -- `corruption_draw < self.corruption and data`
  unfoldable pub impaired : Config T → Draws T → List ℕ → List ℕ
  impaired c d packet =
      if f.lt d.corruption_draw c.corruption && not (length packet == 0)
      then corrupt d.corruption_draw packet
      else packet

  -- `max(now, now + delay + offset + reorder_hold)`; the offset is -jitter + 2 * jitter * draw.
  unfoldable pub deliver_at : Config T → Draws T → T → T
  deliver_at c d now =
      let offset =
        f.add (f.sub zero_f c.jitter) (f.mul (f.mul (f.ratio 2 1) c.jitter) d.jitter_draw) in
      let reorder_hold = f.mul d.reorder_draw c.reorder in
      max_f now (f.add (f.add (f.add now c.delay) offset) reorder_hold)

module _ {T A S : Type 0} ⦃f : Float T⦄ where
  -- One `heapq.heappush` with the next tiebreak.
  unfoldable pub enqueue : Channel T A S → T → List ℕ → A → Channel T A S
  enqueue ch at packet addr = record ch {
    heap = heappush ch.heap (record { at = at; tiebreak = ch.tiebreak; item = (packet, addr) });
    tiebreak = ch.tiebreak + 1;
  }

  -- `sendto` behind the draws: loss, corruption, delivery time, duplication.
  unfoldable pub transmit : Channel T A S → Draws T → T → List ℕ → A → Channel T A S
  transmit ch d now packet addr =
      if f.lt d.loss_draw ch.loss
      then record ch { dropped = ch.dropped + 1 }
      else (let out = impaired ch.config d packet in
          let at = deliver_at ch.config d now in
          if f.lt d.duplication_draw ch.duplication
          then enqueue (enqueue ch at out addr) at out addr
          else enqueue ch at out addr)

-- `random` is `self._rng.random()`.
module _ {T S : Type 0} (random : S → T × S) where
  -- Loss, jitter, duplication, reorder, corruption, in this order.
  unfoldable pub draw_five : S → Draws T × S
  draw_five s0 =
      let (a, s1) = random s0 in
      let (b, s2) = random s1 in
      let (c, s3) = random s2 in
      let (d, s4) = random s3 in
      let (g, s5) = random s4 in
      (
        record {
          loss_draw = a;
          jitter_draw = b;
          duplication_draw = c;
          reorder_draw = d;
          corruption_draw = g;
        },
        s5,
      )

module _ {T A S : Type 0} ⦃f : Float T⦄ (random : S → T × S) where
  unfoldable pub sendto : Channel T A S → T → List ℕ → A → Result ChannelError (Channel T A S)
  sendto ch now packet addr = do
    require (leb (length packet) max_datagram) too_large
    require (not ch.closed) is_closed
    let (d, rng) = draw_five random ch.rng
    ok (transmit (record ch { rng = rng; sent = ch.sent + 1 }) d now packet addr)

-- One round of `_deliver_loop`. `accepted` is whether the socket takes the datagram.
pub data Round (T A S : Type 0) : Type 0 where
  returned : Round T A S
  waited : Channel T A S → Round T A S
  went_on : Channel T A S → Round T A S

module _ {T A S : Type 0} ⦃f : Float T⦄ where
  unfoldable pub send_top :
      Channel T A S → Entry T (List ℕ × A) → List (Entry T (List ℕ × A)) → Bool → Channel T A S
  send_top ch x rest accepted =
      if accepted
      then record ch { heap = rest; delivered = ch.delivered + 1; wire = ch.wire ++ x.item ∷ [] }
      else record ch { heap = rest }

  unfoldable pub round_on : Channel T A S → List (Entry T (List ℕ × A)) → T → Bool → Round T A S
  round_on ch [] now accepted = if ch.closed then returned else waited ch
  round_on ch (x ∷ rest) now accepted =
      if f.lt zero_f (f.sub x.at now) then waited ch else went_on (send_top ch x rest accepted)

  unfoldable pub deliver_round : Channel T A S → T → Bool → Round T A S
  deliver_round ch now accepted = round_on ch ch.heap now accepted

  -- `close` sets the flag; the worker goes on until the heap is empty.
  unfoldable pub close : Channel T A S → Channel T A S
  close ch = record ch { closed = true }

  -- Rounds of the worker at the given times, until it returns; `true` if it does.
  unfoldable pub worker : Channel T A S → List (T × Bool) → Channel T A S × Bool
  worker ch [] = (ch, false)
  worker ch ((now, accepted) ∷ more) = elim (deliver_round ch now accepted) [
    | returned ↦ (ch, true)
    | waited c ↦ worker c more
    | went_on c ↦ worker c more
  ]

-- What happens to a channel: calls of `sendto` and `close`, and rounds of the worker.
pub data Event (T A : Type 0) : Type 0 where
  sends : T → List ℕ → A → Event T A
  rounds : T → Bool → Event T A
  closes : Event T A

module _ {T A S : Type 0} where
  -- A call that raises leaves the channel as it was.
  abbrev pub or_keep : Channel T A S → Result ChannelError (Channel T A S) → Channel T A S
  or_keep ch (ok c) = c
  or_keep ch (err e) = ch

  abbrev pub after_round : Channel T A S → Round T A S → Channel T A S
  after_round ch returned = ch
  after_round ch (waited c) = c
  after_round ch (went_on c) = c

module _ {T A S : Type 0} ⦃f : Float T⦄ (random : S → T × S) where
  unfoldable pub step : Channel T A S → Event T A → Channel T A S
  step ch (sends now packet addr) = or_keep ch (sendto random ch now packet addr)
  step ch (rounds now accepted) = after_round ch (deliver_round ch now accepted)
  step ch closes = close ch

  unfoldable pub run : Channel T A S → List (Event T A) → Channel T A S
  run ch [] = ch
  run ch (e ∷ es) = run (step ch e) es
