-- ===== src/SelectiveRepeat/Kept/Pumping.antt =====
-- The pump and the ACK handler keep what a sender keeps for a peer.
use mathlib.Core.Logic.{inl, inr}
use udp_arq_lab.Prelude.{
  ℕ, zero, suc, ◌+◌, ◌≡◌, refl, sym, ap, ◌∙◌, Bool, true, Option, none, some, List, [], ◌∷◌, arith,
  length, Bool-cases, Option-cases, List-cases,
}
use udp_arq_lab.Prelude.Dict.{nat_eq_inst, Eq, get, get_or, remove}
use udp_arq_lab.Prelude.Float.{Float}
use udp_arq_lab.Prelude.Result.{Result, ok, err, Result-cases}
use udp_arq_lab.Packet.{PacketError}
use udp_arq_lab.Wire.{data_packet}
use udp_arq_lab.Sliding.{Config, Link, Item, at, pop_at, min_key}
use udp_arq_lab.Sliding.Peers.{at-put_other, at-put_at, at-adjust_here, at-adjust_other}
use udp_arq_lab.Sliding.Peers.{sent_lem}
use udp_arq_lab.SelectiveRepeat.State.{Sender}
use udp_arq_lab.SelectiveRepeat.Ack.{handle_ack}
use udp_arq_lab.SelectiveRepeat.Ack.Individual.{Acked, handle_ack-AckEffect, remove_nil}
use udp_arq_lab.SelectiveRepeat.Pump.{
  enter_window, after_send, pump_one, take_item, next_item, pump_peer, pump_all,
}
use udp_arq_lab.SelectiveRepeat.Kept.{
  IsMessage, Packs, IsKept-pump, IsKept-ack, IsWired, sent-IsWired,
}
use udp_arq_lab.SelectiveRepeat.Kept.Sending.{Keeps, Keeps-same}

ok_err :
    {packet : List ℕ} {x : PacketError}
    → ◌≡◌ {A = Result PacketError (List ℕ)} (ok packet) (err x)
    → ⊥
ok_err h = cc

no_item : {B : Type 0} {b : B} → ◌≡◌ {A = Option B} none (some b) → ⊥
no_item h = cc

message_builds :
    (msg : ℕ → List ℕ) (limit : ℕ) (seq : ℕ) (bytes : List ℕ) (x : PacketError)
    → data_packet seq bytes ≡ err x
    → IsMessage msg limit seq bytes
    → ⊥
message_builds msg limit seq bytes x failed (same, lt, packet, built) =
    ok_err (sym built ∙ ap (data_packet seq) (sym same) ∙ failed)

Packs-of_message :
    (msg : ℕ → List ℕ) (limit : ℕ) (seq : ℕ) (bytes packet : List ℕ)
    → data_packet seq bytes ≡ ok packet
    → IsMessage msg limit seq bytes
    → Packs msg limit seq packet
Packs-of_message msg limit seq bytes packet built (same, lt, packet', other) =
    (lt, ap (data_packet seq) (sym same) ∙ built)

module _ {T A : Type 0} ⦃f : Float T⦄ ⦃e : Eq A⦄ (b : A) (msg : ℕ → List ℕ) (limit : ℕ)
    (D : ℕ → Type 0) where
  -- The sender with its queue, and what it put on the wire.
  abbrev pub Holds : List (Item A) → Sender T A → Link A → Type 0
  Holds q s l = Keeps b msg limit D q s × IsWired b msg limit l.wire × (s.outbound ≡ q)

  module _ (accepts : ℕ → Bool) (all : (n : ℕ) → accepts n ≡ true) (c : Config T) (now : T) where
    take_item_there :
        (s : Sender T A) (addr : A) (k seq : ℕ) (item : Item A)
        → take_item accepts c now s addr k ≡ some (seq, item)
        → get (at s.pending addr) seq ≡ some item
    unfolding take_item
    take_item_there s addr k seq item h = ground arith

    next_item_there :
        (s : Sender T A) (addr : A) (seq : ℕ) (item : Item A)
        → next_item accepts c now s addr ≡ some (seq, item)
        → get (at s.pending addr) seq ≡ some item
    unfolding next_item
    next_item_there s addr seq item h = elim (List-cases (at s.pending addr)) [
      | inl n ↦ absurd (no_item (rw (next_item, n) at h))
      | inr ((k, i), d, p) ↦ take_item_there s addr (min_key k d) seq item (rw (next_item, p) at h)
    ]

    enter_window-Keeps :
        (q : List (Item A)) (s : Sender T A) (addr : A) (seq : ℕ) (item : Item A) (packet : List ℕ)
        → (e.beq addr b ≡ true → Packs msg limit seq packet)
        → Keeps b msg limit D q s
        → Keeps b msg limit D q (enter_window c s addr seq item packet now)
    unfolding enter_window
    enter_window-Keeps q s addr seq item packet good k = elim (Bool-cases (e.beq addr b)) [
      | inl t ↦
          rw
            (
              at-adjust_here s.pending addr (λ d. remove d seq) b (remove_nil seq) t,
              at-put_at s.outstanding addr seq packet b t,
            )
            (IsKept-pump b msg limit D q (at s.pending b) (at s.outstanding b) _ _ seq packet
              (good t) k)
      | inr t ↦
          Keeps-same b msg limit D q s (enter_window c s addr seq item packet now)
            (at-adjust_other s.pending addr (λ d. remove d seq) b (remove_nil seq) t)
            (at-put_other s.outstanding addr _ b t) refl refl k
    ]

    enter_window-outbound :
        (s : Sender T A) (addr : A) (seq : ℕ) (item : Item A) (packet : List ℕ)
        → (enter_window c s addr seq item packet now).outbound ≡ s.outbound
    unfolding enter_window
    enter_window-outbound s addr seq item packet = refl

    message_there :
        (q : List (Item A)) (s : Sender T A) (addr : A) (seq : ℕ) (item : Item A)
        → get (at s.pending addr) seq ≡ some item
        → e.beq addr b ≡ true
        → Keeps b msg limit D q s
        → IsMessage msg limit seq item.bytes
    message_there q s addr seq item there t k =
        k.waiting seq item
          (ap (λ a. get (at s.pending a) seq) (sym ((e.beq_iff addr b).0 t)) ∙ there)

    -- The item that the pump takes can be built, if it is the peer's.
    pump_one-Holds :
        (q : List (Item A)) (s : Sender T A) (l : Link A) (addr : A) (seq : ℕ) (item : Item A)
        → get (at s.pending addr) seq ≡ some item
        → Holds q s l
        → Holds q
            (pump_one accepts c now s l addr seq item).sender
            (pump_one accepts c now s l addr seq item).link
    unfolding pump_one after_send
    pump_one-Holds q s l addr seq item there (k, w, r) =
        elim (Result-cases (data_packet seq item.bytes)) [
          | inl (packet, built) ↦
              let good = λ (t : e.beq addr b ≡ true).
                Packs-of_message msg limit seq item.bytes packet built
                  (message_there q s addr seq item there t k) in
              rw (pump_one, built, after_send, sent_lem accepts l packet addr (all l.sends))
                (
                  enter_window-Keeps q s addr seq item packet good k,
                  sent-IsWired b msg limit l packet addr (λ t. inl (seq, good t)) w,
                  enter_window-outbound s addr seq item packet ∙ r,
                )
          | inr (x, failed) ↦ elim (Bool-cases (e.beq addr b)) [
            | inl t ↦ absurd (
                message_builds msg limit seq item.bytes x failed
                  (message_there q s addr seq item there t k))
            | inr t ↦
                rw (pump_one, failed)
                  (
                    Keeps-same b msg limit D q s (record s { pending = pop_at s.pending addr seq })
                        (at-adjust_other s.pending addr (λ d. remove d seq) b (remove_nil seq) t)
                        refl refl refl k,
                    w,
                    r,
                  )
          ]
        ]

    pump_peer-Holds :
        (q : List (Item A)) (fuel : ℕ) (s : Sender T A) (l : Link A) (addr : A)
        → Holds q s l
        → Holds q
            (pump_peer accepts c now fuel s l addr).sender
            (pump_peer accepts c now fuel s l addr).link
    unfolding pump_peer
    pump_peer-Holds q zero s l addr h = h
    pump_peer-Holds q (suc fuel) s l addr h = elim (Option-cases (next_item accepts c now s addr)) [
      | inl n ↦ rw (pump_peer, n) h
      | inr ((seq, item), i) ↦
          let ih = pump_one-Holds q s l addr seq item (next_item_there s addr seq item i) h in
          elim (Option-cases (pump_one accepts c now s l addr seq item).died) [
            | inl d ↦
                rw (pump_peer, i, d)
                  (pump_peer-Holds q fuel (pump_one accepts c now s l addr seq item).sender
                    (pump_one accepts c now s l addr seq item).link addr ih)
            | inr (x, d) ↦ rw (pump_peer, i, d) ih
          ]
    ]

    pub pump_all-Holds :
        (q : List (Item A)) (addrs : List A) (s : Sender T A) (l : Link A)
        → Holds q s l
        → Holds q (pump_all accepts c now addrs s l).sender (pump_all accepts c now addrs s l).link
    unfolding pump_all
    pump_all-Holds q [] s l h = h
    pump_all-Holds q (addr ∷ more) s l h =
        let p = pump_peer accepts c now (length (at s.pending addr)) s l addr in
        let ih = pump_peer-Holds q (length (at s.pending addr)) s l addr h in
        elim (Option-cases p.died) [
          | inl d ↦ rw (pump_all, d) (pump_all-Holds q more p.sender p.link ih)
          | inr (x, d) ↦ rw (pump_all, d) ih
        ]

  removed-Keeps :
      (q : List (Item A)) (s s' : Sender T A) (addr : A) (base next seq : ℕ)
      → (e.beq addr b ≡ true → D seq)
      → Acked s addr base next seq s'
      → Keeps b msg limit D q s
      → Keeps b msg limit D q s'
  removed-Keeps q s s' addr base next seq knows a k =
      rw (a.pending_eq, a.next_seq_eq, a.errors_eq)
        (IsKept-ack b msg limit D q (at s.pending b) (at s.outstanding b) _ _ (e.beq addr b) seq
          (at s'.outstanding b) knows (a.window_eq b) k)

  -- An ACK from the peer names a packet that it has received; one from another does not matter.
  pub handle_ack-Holds :
      (q : List (Item A)) (l : Link A) (c : Config T) (s : Sender T A) (addr : A) (ack : ℕ)
      (now : T)
      → (e.beq addr b ≡ true → (n : ℕ) → ack ≡ n + 1 → D n)
      → Holds q s l
      → Holds q (handle_ack c s addr ack now) l
  unfolding handle_ack
  handle_ack-Holds q l c s addr ack now knows (k, w, r) = elim (Option-cases (get s.base addr)) [
    | inl n ↦ rw (handle_ack, n) (k, w, r)
    | inr (base, h) ↦ elim (handle_ack-AckEffect c s addr base ack now h) [
      | inl (seq, same, le, out, a) ↦ (
        removed-Keeps q s (handle_ack c s addr ack now) addr base (get_or s.next_seq addr base) seq
            (λ t. knows t seq same) a k,
        w,
        a.outbound_eq ∙ r,
      )
      | inr (stray, eq) ↦ rw eq (k, w, r)
    ]
  ]
