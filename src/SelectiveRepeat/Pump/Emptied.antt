-- ===== src/SelectiveRepeat/Pump/Emptied.antt =====
-- Where the base is beyond the pending packets, the pump sends all of them.
use mathlib.Core.Logic.{◌⊎◌, inl, inr}
use udp_arq_lab.Prelude.{
  ℕ, zero, suc, ◌+◌, ◌≤◌, ◌<◌, ◌≡◌, refl, ap, ◌∙◌, Bool, true, none, some, List, [], ◌∷◌, arith,
  length, ltb, Bool-cases, Option-cases, List-cases,
}
use udp_arq_lab.Prelude.Dict.{
  nat_eq_inst, Dict, Eq, get, get_or, has, put, remove, get-put, get-remove, beq_refl,
}
use udp_arq_lab.Prelude.Float.{Float}
use udp_arq_lab.Prelude.Result.{ok}
use udp_arq_lab.Wire.{data_packet}
use udp_arq_lab.Sliding.{Config, Link, Item, at, min_key}
use udp_arq_lab.Sliding.Peers.{at-put, at-adjust}
use udp_arq_lab.Sliding.Peers.{sent, sent_lem}
use udp_arq_lab.SelectiveRepeat.State.{Sender}
use udp_arq_lab.SelectiveRepeat.Ack.Individual.{remove_nil}
use udp_arq_lab.SelectiveRepeat.Receiver.Window.{length-remove}
use udp_arq_lab.SelectiveRepeat.Pump.{
  Pumped, enter_window, after_send, pump_one, take_item, next_item, pump_peer,
}

-- `min` of a dict is one of its keys.
has-min_key : {V : Type 0} (k : ℕ) (v : V) (d : Dict ℕ V) → has ((k, v) ∷ d) (min_key k d) ≡ true
unfolding has get min_key
has-min_key k v [] = ground arith
has-min_key k v ((j, w) ∷ d) = elim (Bool-cases (ltb j k)) [
  | inl t ↦ rw t (ground (arith, has-min_key j w d))
  | inr t ↦ rw t (ground (arith, has-min_key k v d))
]

get_of_has : {V : Type 0} (d : Dict ℕ V) (k : ℕ) → has d k ≡ true → (v : V) × (get d k ≡ some v)
unfolding has
get_of_has d k h = elim (Option-cases (get d k)) [
  | inl n ↦ absurd (ground arith)
  | inr (v, g) ↦ (v, g)
]

nothing_there : (V : Type 0) (n : ℕ) → has {V = V} [] n ≡ true → ⊥
unfolding has get
nothing_there V n h = absurd (ground arith)

module _ {T A : Type 0} ⦃f : Float T⦄ ⦃e : Eq A⦄ where
  -- Every pending packet to the peer can be built, and its number lies below the limit.
  abbrev pub IsReady : ℕ → Sender T A → A → Type 0
  IsReady limit s addr =
      (n : ℕ) (item : Item A)
      → get (at s.pending addr) n ≡ some item
      → (n < limit) × (packet : List ℕ) × (data_packet n item.bytes ≡ ok packet)

  module _ (accepts : ℕ → Bool) (c : Config T) (now : T) (addr : A) where
    take_item_lem :
        (s : Sender T A) (seq : ℕ) (item : Item A)
        → seq < get_or s.base addr 0 + c.window_size
        → get (at s.pending addr) seq ≡ some item
        → take_item accepts c now s addr seq ≡ some (seq, item)
    unfolding take_item
    take_item_lem s seq item lt there = ground arith

    -- The pump takes some pending packet, while there is one.
    takes_some :
        (s : Sender T A)
        → IsReady (get_or s.base addr 0 + c.window_size) s addr
        → ((at s.pending addr ≡ []) × (next_item accepts c now s addr ≡ none))
          ⊎ ((seq : ℕ) × (item : Item A) × (get (at s.pending addr) seq ≡ some item)
              × (next_item accepts c now s addr ≡ some (seq, item)))
    unfolding next_item
    takes_some s ready = elim (List-cases (at s.pending addr)) [
      | inl n ↦ inl (n, rw (next_item, n) refl)
      | inr ((k, i), d, h) ↦
          let (item, there) = get_of_has ((k, i) ∷ d) (min_key k d) (has-min_key k i d) in
          let there' = ap (λ p. get p (min_key k d)) h ∙ there in
          let inside = (ready (min_key k d) item there').0 in
          inr (
            min_key k d,
            item,
            there',
            rw (next_item, h) (take_item_lem s (min_key k d) item inside there'),
          )
    ]

    -- The sender behind one packet that the channel takes.
    abbrev entered : Sender T A → ℕ → Item A → List ℕ → Sender T A
    entered s seq item packet = enter_window c s addr seq item packet now

    pump_one-entered :
        (s : Sender T A) (link : Link A) (seq : ℕ) (item : Item A) (packet : List ℕ)
        → ((n : ℕ) → accepts n ≡ true)
        → data_packet seq item.bytes ≡ ok packet
        → pump_one accepts c now s link addr seq item
          ≡ record { sender = entered s seq item packet; link = sent link packet addr; died = none }
    unfolding pump_one after_send
    pump_one-entered s link seq item packet all b =
        rw (pump_one, b, after_send, sent_lem accepts link packet addr (all link.sends)) refl

    pump_on : ℕ → Pumped T A → Pumped T A
    pump_on fuel p = elim p.died [
      | some x ↦ p
      | none ↦ pump_peer accepts c now fuel p.sender p.link addr
    ]

    pump_next :
        (fuel : ℕ) (s : Sender T A) (link : Link A) (seq : ℕ) (item : Item A) (packet : List ℕ)
        → ((n : ℕ) → accepts n ≡ true)
        → next_item accepts c now s addr ≡ some (seq, item)
        → data_packet seq item.bytes ≡ ok packet
        → pump_peer accepts c now (suc fuel) s link addr
          ≡ pump_peer accepts c now fuel (entered s seq item packet) (sent link packet addr) addr
    unfolding pump_peer pump_on
    pump_next fuel s link seq item packet all next b =
        rw (pump_peer, next) (ap (pump_on fuel) (pump_one-entered s link seq item packet all b))

    pending_left :
        (s : Sender T A) (seq : ℕ) (item : Item A) (packet : List ℕ)
        → at (entered s seq item packet).pending addr ≡ remove (at s.pending addr) seq
    unfolding enter_window
    pending_left s seq item packet =
        at-adjust s.pending addr (λ d. remove d seq) addr (remove_nil seq) ∙ rw (beq_refl addr) refl

    out_now :
        (s : Sender T A) (seq : ℕ) (item : Item A) (packet : List ℕ)
        → at (entered s seq item packet).outstanding addr ≡ put (at s.outstanding addr) seq packet
    unfolding enter_window
    out_now s seq item packet =
        at-put s.outstanding addr (put (at s.outstanding addr) seq packet) addr
        ∙ rw (beq_refl addr) refl

    base_kept :
        (s : Sender T A) (seq : ℕ) (item : Item A) (packet : List ℕ)
        → (entered s seq item packet).base ≡ s.base
    unfolding enter_window
    base_kept s seq item packet = refl

    -- Packet `n` is pending or out.
    abbrev pub IsGiven : Sender T A → ℕ → Type 0
    IsGiven s n = (has (at s.pending addr) n ≡ true) ⊎ (has (at s.outstanding addr) n ≡ true)

    entered-IsGiven :
        (s : Sender T A) (seq : ℕ) (item : Item A) (packet : List ℕ) (n : ℕ)
        → IsGiven s n
        → IsGiven (entered s seq item packet) n
    unfolding has
    entered-IsGiven s seq item packet n h =
        rw (pending_left s seq item packet, out_now s seq item packet)
          (ground (
            arith,
            get-remove (at s.pending addr) seq n,
            get-put (at s.outstanding addr) seq packet n,
          ))

    entered-IsReady :
        (limit : ℕ) (s : Sender T A) (seq : ℕ) (item : Item A) (packet : List ℕ)
        → IsReady limit s addr
        → IsReady limit (entered s seq item packet) addr
    entered-IsReady limit s seq item packet ready n i h = ready n i (
        ground (
          arith,
          get-remove (at s.pending addr) seq n,
          ap (λ d. get d n) (pending_left s seq item packet),
        ))

    -- With as much fuel as there are pending packets, all of them go out.
    pub pump_peer_empties :
        (fuel : ℕ) (s : Sender T A) (link : Link A)
        → ((n : ℕ) → accepts n ≡ true)
        → length (at s.pending addr) ≤ fuel
        → IsReady (get_or s.base addr 0 + c.window_size) s addr
        → (n : ℕ) → IsGiven s n
        → has (at (pump_peer accepts c now fuel s link addr).sender.outstanding addr) n ≡ true
    unfolding pump_peer enter_window
    pump_peer_empties zero s link all le ready n h = elim (List-cases (at s.pending addr)) [
      | inl none_left ↦ elim h [
        | inl p ↦ absurd (nothing_there (Item A) n (rw none_left at p))
        | inr out ↦ out
      ]
      | inr (x, xs, more) ↦ absurd (omega (arith, le, ap length more))
    ]
    pump_peer_empties (suc fuel) s link all le ready n h = elim (takes_some s ready) [
      | inl (none_left, stops) ↦ elim h [
        | inl p ↦ absurd (nothing_there (Item A) n (rw none_left at p))
        | inr out ↦ rw (pump_peer, stops) out
      ]
      | inr (seq, item, there, next) ↦
          let (inside, packet, b) = ready seq item there in
          rw (pump_next fuel s link seq item packet all next b) (
            pump_peer_empties fuel (entered s seq item packet) (sent link packet addr) all
              (omega (
                arith,
                le,
                ap length (pending_left s seq item packet),
                length-remove (at s.pending addr) seq item there,
              ))
              (entered-IsReady (get_or s.base addr 0 + c.window_size) s seq item packet ready) n
              (entered-IsGiven s seq item packet n h))
    ]
