-- ===== src/SelectiveRepeat/Overrun.antt =====
-- The ACK of the only packet that is out lets the pump send everything that is pending.
use mathlib.Core.Path.{subst}
use mathlib.Core.Logic.{inl, inr}
use udp_arq_lab.Prelude.{
  ℕ, ◌+◌, ◌≤◌, ◌<◌, ◌≡◌, refl, sym, ap, ◌∙◌, Bool, true, false, none, some, List, [], ◌∷◌, arith,
  length, ◌==◌, if◌then◌else◌,
}
use udp_arq_lab.Prelude.Dict.{nat_eq_inst, Dict, Eq, get, get_or, has, beq_refl}
use udp_arq_lab.Prelude.Float.{Float}
use udp_arq_lab.Packet.{max_payload}
use udp_arq_lab.Wire.Sound.{data_packet-Carries}
use udp_arq_lab.Sliding.{Config, Link, Item, at}
use udp_arq_lab.SelectiveRepeat.State.{Sender}
use udp_arq_lab.SelectiveRepeat.Ack.{handle_ack}
use udp_arq_lab.SelectiveRepeat.Ack.Individual.{IsFirstOut, Acked, handle_ack-AckEffect}
use udp_arq_lab.SelectiveRepeat.Pump.{pump_peer}
use udp_arq_lab.SelectiveRepeat.Pump.Emptied.{IsReady, pump_peer_empties}

same_number : (k n : ℕ) → k + 1 ≡ n + 1 → k ≡ n
same_number k n h = omega (arith, h)

only_out : (k : ℕ) (p : List ℕ) → has ((k, p) ∷ []) k ≡ true
unfolding has get
only_out k p = ground arith

gone :
    (k : ℕ) (p : List ℕ) (d : Dict ℕ (List ℕ)) (n : ℕ)
    → get d n ≡ (if k == n then none else get ((k, p) ∷ []) n)
    → has d n ≡ false
unfolding has get
gone k p d n h = ground arith

contradictory : true ≡ false → ⊥
contradictory h = cc

next_of_first :
    {d : Dict ℕ (List ℕ)} {next_seq base b : ℕ}
    → IsFirstOut d next_seq base b
    → base ≤ next_seq
    → has d b ≡ false
    → b ≡ next_seq
next_of_first {d} {next_seq} {base} {b} first le nothing = ground arith

module _ {T A : Type 0} ⦃f : Float T⦄ ⦃e : Eq A⦄ where
  -- The pending packets to the peer were assigned, and their payloads fit into a packet.
  abbrev pub IsAssigned : ℕ → Sender T A → A → Type 0
  IsAssigned next_seq s addr =
      (n : ℕ) (item : Item A)
      → get (at s.pending addr) n ≡ some item
      → (n < next_seq) × (length item.bytes ≤ max_payload)

  IsReady-of_assigned :
      (next_seq limit : ℕ) (s s' : Sender T A) (addr : A)
      → s'.pending ≡ s.pending
      → next_seq ≤ limit
      → next_seq ≤ 0x1_0000_0000
      → IsAssigned next_seq s addr
      → IsReady limit s' addr
  IsReady-of_assigned next_seq limit s s' addr same le fits assigned n item h =
      let (lt, short) = assigned n item (ap (λ d. get (at d addr) n) (sym same) ∙ h) in
      let (buf, built, carries) =
        data_packet-Carries n item.bytes (omega (arith, lt, fits)) short in
      (omega (arith, lt, le), buf, built)

  -- With the only packet that was out acknowledged, the base is the next number to assign.
  base_behind_last :
      (s s' : Sender T A) (addr : A) (base next_seq k : ℕ) (packet : List ℕ)
      → at s.outstanding addr ≡ (k, packet) ∷ []
      → base ≤ next_seq
      → Acked s addr base next_seq k s'
      → get s'.base addr ≡ some next_seq
  base_behind_last s s' addr base next_seq k packet only le a =
      let nothing = gone k packet (at s'.outstanding addr) a.b (
        a.window_eq addr a.b
        ∙ rw (beq_refl addr) (ap (λ d. if k == a.b then none else get d a.b) only)) in
      a.base_eq addr ∙ rw (beq_refl addr) (ap (λ m. some m) (next_of_first a.first_out le nothing))

  ack_only :
      (c : Config T) (s : Sender T A) (addr : A) (base k : ℕ) (packet : List ℕ) (now : T)
      → get s.base addr ≡ some base
      → at s.outstanding addr ≡ (k, packet) ∷ []
      → k < get_or s.next_seq addr base
      → Acked s addr base (get_or s.next_seq addr base) k (handle_ack c s addr (k + 1) now)
  ack_only c s addr base k packet now h only lt =
      elim (handle_ack-AckEffect c s addr base (k + 1) now h) [
        | inl (seq, same, le, out, a) ↦
            subst
              (λ m.
                Acked s addr base (get_or s.next_seq addr base) m (handle_ack c s addr (k + 1) now))
              (sym (same_number k seq same)) a
        | inr (inl beyond, eq) ↦ absurd (omega (arith, beyond, lt))
        | inr (inr stray, eq) ↦
            absurd (contradictory (sym (ap (λ d. has d k) only ∙ only_out k packet) ∙ stray k refl))
      ]

  -- Where a single packet is out to a peer, and every pending packet to it was assigned a number
  -- and fits into a packet: the ACK of that one packet moves the base to the next number to
  -- assign, beyond what is pending, and if the channel takes every packet, the next round of the
  -- pump has all pending packets out at once, whatever the window size.
  pub ack_overruns :
      (accepts : ℕ → Bool) (c : Config T) (s : Sender T A) (link : Link A) (addr : A) (base k : ℕ)
      (packet : List ℕ) (acked_at now : T)
      → ((n : ℕ) → accepts n ≡ true)
      → get s.base addr ≡ some base
      → at s.outstanding addr ≡ (k, packet) ∷ []
      → k < get_or s.next_seq addr base
      → base ≤ get_or s.next_seq addr base
      → get_or s.next_seq addr base ≤ 0x1_0000_0000
      → IsAssigned (get_or s.next_seq addr base) s addr
      → (get (handle_ack c s addr (k + 1) acked_at).base addr ≡ some (get_or s.next_seq addr base))
        × ((n : ℕ)
            → has (at s.pending addr) n ≡ true
            → has
                (at
                  (pump_peer accepts c now
                    (length (at s.pending addr))
                    (handle_ack c s addr (k + 1) acked_at)
                    link
                    addr).sender.outstanding
                  addr)
                n
              ≡ true)
  unfolding get_or
  ack_overruns accepts c s link addr base k packet acked_at now all h only lt le fits assigned =
      let a = ack_only c s addr base k packet acked_at h only lt in
      let s' = handle_ack c s addr (k + 1) acked_at in
      let next = get_or s.next_seq addr base in
      let moved = base_behind_last s s' addr base next k packet only le a in
      (
        moved,
        λ n waiting.
            pump_peer_empties accepts c now addr (length (at s.pending addr)) s' link all
              (rw a.pending_eq (omega arith))
              (IsReady-of_assigned next (get_or s'.base addr 0 + c.window_size) s s' addr
                a.pending_eq (ground (arith, moved)) fits assigned)
              n (inl (ap (λ d. has (at d addr) n) a.pending_eq ∙ waiting)),
      )
