-- ===== src/GoBackN/Window/Sending.antt =====
-- The pump keeps the window.
use mathlib.Core.Path.{subst}
use udp_arq_lab.Prelude.{
  ℕ, zero, suc, ◌+◌, ◌<◌, ◌≡◌, refl, sym, ap, ◌∙◌, inl, inr, Bool, true, false, Option, none, some,
  List, [], ◌∷◌, arith, length, Bool-cases, Option-cases, List-cases,
}
use udp_arq_lab.Prelude.Dict.{nat_eq_inst, Eq, get_or, has, put}
use udp_arq_lab.Prelude.Float.{Float}
use udp_arq_lab.Prelude.Result.{Result-cases}
use udp_arq_lab.Wire.{data_packet}
use udp_arq_lab.GoBackN.State.{Sender}
use udp_arq_lab.Sliding.Peers.{at-put}
use udp_arq_lab.GoBackN.Pump.{
  enter_window, forget, after_send, pump_one, take_item, next_item, pump_peer, pump_all,
}
use udp_arq_lab.GoBackN.Window.{IsOut, IsWindowed, Shrinks-IsWindowed, forget-Shrinks, put-has}
use udp_arq_lab.Sliding.{Config, Link, Item, at, min_key}

no_item : {B : Type 0} {b : B} → ◌≡◌ {A = Option B} none (some b) → ⊥
no_item h = cc

module _ {T A : Type 0} ⦃f : Float T⦄ ⦃e : Eq A⦄ where
  take_item-lt :
      (accepts : ℕ → Bool) (c : Config T) (now : T) (s : Sender T A) (addr : A) (k seq : ℕ)
      (item : Item A)
      → take_item accepts c now s addr k ≡ some (seq, item)
      → seq < get_or s.base addr 0 + c.window_size
  unfolding take_item
  take_item-lt accepts c now s addr k seq item h = ground arith

  -- The pump takes only a number that the window has room for.
  next_item-lt :
      (accepts : ℕ → Bool) (c : Config T) (now : T) (s : Sender T A) (addr : A) (seq : ℕ)
      (item : Item A)
      → next_item accepts c now s addr ≡ some (seq, item)
      → seq < get_or s.base addr 0 + c.window_size
  unfolding next_item
  next_item-lt accepts c now s addr seq item h = elim (List-cases (at s.pending addr)) [
    | inl n ↦ absurd (no_item (rw (next_item, n) at h))
    | inr ((k, i), d, p) ↦
        take_item-lt accepts c now s addr (min_key k d) seq item (rw (next_item, p) at h)
  ]

  entered_lem :
      (s : Sender T A) (addr : A) (seq : ℕ) (packet : List ℕ) (n w : ℕ)
      → seq < get_or s.base addr 0 + w
      → ((n : ℕ) → IsOut s addr n → n < get_or s.base addr 0 + w)
      → has (put (at s.outstanding addr) seq packet) n ≡ true
      → n < get_or s.base addr 0 + w
  entered_lem s addr seq packet n w lt h o = elim (put-has (at s.outstanding addr) seq packet n o) [
    | inl x ↦ omega (arith, lt, x)
    | inr x ↦ h n x
  ]

  enter_window-IsWindowed :
      (c : Config T) (s : Sender T A) (addr : A) (seq : ℕ) (item : Item A) (packet : List ℕ)
      (now : T) (w : ℕ)
      → seq < get_or s.base addr 0 + w
      → IsWindowed w s
      → IsWindowed w (enter_window c s addr seq item packet now)
  unfolding enter_window
  enter_window-IsWindowed c s addr seq item packet now w lt h a n o =
      elim (Bool-cases (e.beq addr a)) [
        | inl t ↦
            subst (λ b. n < get_or s.base b 0 + w) ((e.beq_iff addr a).0 t)
              (entered_lem s addr seq packet n w lt (h addr) (
                ap (λ d. has d n)
                  (sym (
                    at-put s.outstanding addr (put (at s.outstanding addr) seq packet) a
                    ∙ rw t refl))
                ∙ o))
        | inr t ↦ h a n (
            ap (λ d. has d n)
              (sym
                (at-put s.outstanding addr (put (at s.outstanding addr) seq packet) a ∙ rw t refl))
            ∙ o)
      ]

  after_send-IsWindowed :
      (accepts : ℕ → Bool) (c : Config T) (now : T) (s : Sender T A) (addr : A) (seq w : ℕ)
      (sent : Link A × Bool)
      → IsWindowed w s
      → IsWindowed w (after_send accepts c now s addr seq sent).sender
  unfolding after_send
  after_send-IsWindowed accepts c now s addr seq w (link, true) h = h
  after_send-IsWindowed accepts c now s addr seq w (link, false) h =
      Shrinks-IsWindowed w s (forget s addr seq) (forget-Shrinks s addr seq) h

  pump_one-IsWindowed :
      (accepts : ℕ → Bool) (c : Config T) (now : T) (s : Sender T A) (link : Link A) (addr : A)
      (seq : ℕ) (item : Item A)
      → seq < get_or s.base addr 0 + c.window_size
      → IsWindowed c.window_size s
      → IsWindowed c.window_size (pump_one accepts c now s link addr seq item).sender
  unfolding pump_one
  pump_one-IsWindowed accepts c now s link addr seq item lt h =
      elim (Result-cases (data_packet seq item.bytes)) [
        | inl (packet, b) ↦
            rw (pump_one, b)
              (after_send-IsWindowed accepts c now _ addr seq c.window_size _
                (enter_window-IsWindowed c s addr seq item packet now c.window_size lt h))
        | inr (x, b) ↦ rw (pump_one, b) h
      ]

  pump_peer-IsWindowed :
      (accepts : ℕ → Bool) (c : Config T) (now : T) (fuel : ℕ) (s : Sender T A) (link : Link A)
      (addr : A)
      → IsWindowed c.window_size s
      → IsWindowed c.window_size (pump_peer accepts c now fuel s link addr).sender
  unfolding pump_peer
  pump_peer-IsWindowed accepts c now zero s link addr h = h
  pump_peer-IsWindowed accepts c now (suc fuel) s link addr h =
      elim (Option-cases (next_item accepts c now s addr)) [
        | inl n ↦ rw (pump_peer, n) h
        | inr ((seq, item), i) ↦
            let ih =
              pump_one-IsWindowed accepts c now s link addr seq item
                (next_item-lt accepts c now s addr seq item i) h in
            elim (Option-cases (pump_one accepts c now s link addr seq item).died) [
              | inl d ↦ rw (pump_peer, i, d) (pump_peer-IsWindowed accepts c now fuel _ _ addr ih)
              | inr (x, d) ↦ rw (pump_peer, i, d) ih
            ]
      ]

  pub pump_all-IsWindowed :
      (accepts : ℕ → Bool) (c : Config T) (now : T) (addrs : List A) (s : Sender T A)
      (link : Link A)
      → IsWindowed c.window_size s
      → IsWindowed c.window_size (pump_all accepts c now addrs s link).sender
  unfolding pump_all
  pump_all-IsWindowed accepts c now [] s link h = h
  pump_all-IsWindowed accepts c now (addr ∷ more) s link h =
      let ih = pump_peer-IsWindowed accepts c now (length (at s.pending addr)) s link addr h in
      elim (Option-cases (pump_peer accepts c now (length (at s.pending addr)) s link addr).died) [
        | inl d ↦ rw (pump_all, d) (pump_all-IsWindowed accepts c now more _ _ ih)
        | inr (x, d) ↦ rw (pump_all, d) ih
      ]
