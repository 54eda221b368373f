-- ===== src/GoBackN/Calls/Silent.antt =====
-- A packet that the channel refuses, and the `flush` behind it.
use udp_arq_lab.Prelude.{
  ℕ, ◌+◌, ◌<◌, ◌≡◌, refl, ap, ◌∙◌, Bool, false, none, some, List, [], ◌∷◌, arith,
}
use udp_arq_lab.Prelude.Dict.{nat_eq_inst, Eq, get, get_or, put, remove, beq_refl}
use udp_arq_lab.Prelude.Float.{Float}
use udp_arq_lab.Prelude.Result.{ok}
use udp_arq_lab.Wire.{data_packet}
use udp_arq_lab.Sliding.{
  Config, Link, Item, at, put_at, min_key, channel_send, values, errors_of, item_errors,
}
use udp_arq_lab.Sliding.Peers.{at-put, at-adjust}
use udp_arq_lab.GoBackN.State.{Sender}
use udp_arq_lab.GoBackN.Pump.{
  Pumped, enter_window, forget, after_send, pump_one, take_item, next_item, pump_peer,
}
use udp_arq_lab.GoBackN.Calls.{items_of, seen, seen_errors, flush}

remove_nil : {V : Type 0} (k : ℕ) → remove {V = V} [] k ≡ []
unfolding remove
remove_nil k = refl

remove_only : {V : Type 0} (k : ℕ) (v : V) → remove ((k, v) ∷ []) k ≡ []
unfolding remove
remove_only k v = ground arith

get_only : {V : Type 0} (k : ℕ) (v : V) → get ((k, v) ∷ []) k ≡ some v
unfolding get
get_only k v = ground arith

module _ {T A : Type 0} ⦃f : Float T⦄ ⦃e : Eq A⦄ (accepts : ℕ → Bool) (c : Config T) (now : T)
    (s : Sender T A) (link : Link A) (addr : A) (seq : ℕ) (item : Item A)
    (only : at s.pending addr ≡ (seq, item) ∷ []) (unsent : at s.sent_items addr ≡ []) where
  -- The sender behind the refused packet.
  abbrev refused : List ℕ → Sender T A
  refused packet = forget (enter_window c s addr seq item packet now) addr seq

  pending_gone : (packet : List ℕ) → at (refused packet).pending addr ≡ []
  unfolding forget enter_window
  pending_gone packet =
      at-adjust s.pending addr (λ d. remove d seq) addr (remove_nil seq)
      ∙ rw (beq_refl addr) (ap (λ d. remove d seq) only ∙ remove_only seq item)

  item_gone : (packet : List ℕ) → at (refused packet).sent_items addr ≡ []
  unfolding forget enter_window put
  item_gone packet =
      at-adjust (put_at s.sent_items addr seq item) addr (λ d. remove d seq) addr (remove_nil seq)
      ∙ rw (beq_refl addr) (
          ap (λ d. remove d seq)
            (at-put s.sent_items addr (put (at s.sent_items addr) seq item) addr
              ∙ rw (beq_refl addr) (ap (λ d. put d seq item) unsent))
          ∙ remove_only seq item)

  no_error_yet : (packet : List ℕ) → (refused packet).peer_errors ≡ s.peer_errors
  unfolding forget enter_window
  no_error_yet packet = refl

  seen_none :
      (sorted_set : List A → List A) (packet : List ℕ)
      → seen sorted_set (refused packet) (some addr) ≡ []
  unfolding seen items_of values
  seen_none sorted_set packet = rw (pending_gone packet, item_gone packet) refl

  errors_none :
      (sorted_set : List A → List A) (packet : List ℕ)
      → get s.peer_errors addr ≡ none
      → seen_errors sorted_set (refused packet) (some addr) ≡ []
  unfolding seen_errors seen items_of errors_of values item_errors
  errors_none sorted_set packet healthy =
      rw
        (
          seen_errors,
          errors_of,
          no_error_yet packet,
          healthy,
          pending_gone packet,
          item_gone packet,
        )
        refl

  module _ (room : seq < get_or s.base addr 0 + c.window_size) (packet : List ℕ)
      (built : data_packet seq item.bytes ≡ ok packet) (raises : accepts link.sends ≡ false) where
    fits : take_item accepts c now s addr seq ≡ some (seq, item)
    unfolding take_item
    fits = ground (arith, ap (λ d. get d seq) only, get_only seq item)

    takes_it : next_item accepts c now s addr ≡ some (seq, item)
    unfolding next_item min_key
    takes_it = rw (next_item, only) fits

    -- The state of the loop behind the refused packet.
    abbrev refusal : Pumped T A
    refusal = record {
      sender = refused packet;
      link = record link { sends = link.sends + 1 };
      died = none;
    }

    pump_one-refusal : pump_one accepts c now s link addr seq item ≡ refusal
    unfolding pump_one after_send channel_send
    pump_one-refusal = rw (pump_one, built, channel_send, raises) (ap one_more (omega arith))
      where
        one_more : ℕ → Pumped T A
        one_more n = record {
          sender = refused packet;
          link = record link { sends = n };
          died = none;
        }

    pump_on : Pumped T A → Pumped T A
    pump_on p = elim p.died [ some x ↦ p | none ↦ pump_peer accepts c now 0 p.sender p.link addr ]

    pumped_lem : pump_peer accepts c now 1 s link addr ≡ refusal
    unfolding pump_peer pump_on
    pumped_lem = rw (pump_peer, takes_it) (ap pump_on pump_one-refusal)

    -- One packet to a peer waits, nothing else is out to it, and no failure is recorded. If the
    -- channel raises on this packet, then nothing is added to the wire, and a `flush` for the peer
    -- that looks behind the pump returns normally, though the packet was never sent.
    pub failed_send-flush :
        (sorted_set : List A → List A) (looked deadline : T) (looks : List (Sender T A × T))
        → get s.peer_errors addr ≡ none
        → ((pump_peer accepts c now 1 s link addr).link.wire ≡ link.wire)
          × (flush sorted_set
                (((pump_peer accepts c now 1 s link addr).sender, looked) ∷ looks)
                (some addr)
                deadline
              ≡ some (ok tt))
    unfolding flush
    failed_send-flush sorted_set looked deadline looks healthy = (
      ap (λ p. p.link.wire) pumped_lem,
      ap (λ p. flush sorted_set ((p.sender, looked) ∷ looks) (some addr) deadline) pumped_lem
          ∙ rw (flush, errors_none sorted_set packet healthy, seen_none sorted_set packet) refl,
    )
