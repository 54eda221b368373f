-- ===== src/Sliding/Peers.antt =====
-- The dicts by peer behind the changes that the transport makes in place, and the channel's side
-- behind a packet.
use udp_arq_lab.Prelude.{
  ℕ, suc, Bool, ◌∷◌, ◌++◌, ◌≡◌, refl, sym, ap, ◌∙◌, true, false, inl, inr, Bool-cases, Option-cases,
  none, some, List, [], if◌then◌else◌,
}
use udp_arq_lab.Prelude.Dict.{
  get_or-put, get_or-set_default, nat_eq_inst, Dict, Eq, get, get_or, put, set_default,
}
use udp_arq_lab.Sliding.{Link, channel_send, at, adjust, put_at}

module _ {A V : Type 0} ⦃e : Eq A⦄ where
  pub at-put :
      (d : Dict A (List V)) (k : A) (v : List V) (j : A)
      → at (put d k v) j ≡ (if e.beq k j then v else at d j)
  at-put d k v j = get_or-put d k v j []

  at_of_none : (d : Dict A (List V)) (k : A) → get d k ≡ none → at d k ≡ []
  unfolding get_or
  at_of_none d k n = rw (get_or, n) refl

  at_of_some : (d : Dict A (List V)) (k : A) (v : List V) → get d k ≡ some v → at d k ≡ v
  unfolding get_or
  at_of_some d k v h = rw (get_or, h) refl

  -- A change that leaves the empty dict alone is made, whether the peer is known or not.
  pub at-adjust :
      (d : Dict A (List V)) (k : A) (g : List V → List V) (j : A)
      → g [] ≡ []
      → at (adjust d k g) j ≡ (if e.beq k j then g (at d k) else at d j)
  unfolding adjust
  at-adjust d k g j nil = elim (Option-cases (get d k)) [
    | inl n ↦
        rw (adjust, n)
          (elim (Bool-cases (e.beq k j)) [
            | inl t ↦
                rw (t, at_of_none d k n, nil)
                  (ap (at d) (sym ((e.beq_iff k j).0 t)) ∙ at_of_none d k n)
            | inr t ↦ rw t refl
          ])
    | inr (v, h) ↦ rw (adjust, h, at_of_some d k v h) (get_or-put d k (g v) j [])
  ]

  pub at-set_default : (d : Dict A (List V)) (k : A) (j : A) → at (set_default d k []) j ≡ at d j
  at-set_default d k j = elim (Bool-cases (e.beq k j)) [
    | inl t ↦ get_or-set_default d k [] j [] ∙ rw t (ap (at d) ((e.beq_iff k j).0 t))
    | inr t ↦ get_or-set_default d k [] j [] ∙ rw t refl
  ]

  pub at-put_here :
      (d : Dict A (List V)) (k : A) (v : List V) (j : A) → e.beq k j ≡ true → at (put d k v) j ≡ v
  at-put_here d k v j t = at-put d k v j ∙ rw t refl

  pub at-put_other :
      (d : Dict A (List V)) (k : A) (v : List V) (j : A)
      → e.beq k j ≡ false
      → at (put d k v) j ≡ at d j
  at-put_other d k v j t = at-put d k v j ∙ rw t refl

  pub at-adjust_here :
      (d : Dict A (List V)) (k : A) (g : List V → List V) (j : A)
      → g [] ≡ []
      → e.beq k j ≡ true
      → at (adjust d k g) j ≡ g (at d j)
  at-adjust_here d k g j nil t =
      at-adjust d k g j nil ∙ rw t (ap (λ a. g (at d a)) ((e.beq_iff k j).0 t))

  pub at-adjust_other :
      (d : Dict A (List V)) (k : A) (g : List V → List V) (j : A)
      → g [] ≡ []
      → e.beq k j ≡ false
      → at (adjust d k g) j ≡ at d j
  at-adjust_other d k g j nil t = at-adjust d k g j nil ∙ rw t refl

module _ {A V : Type 0} ⦃e : Eq A⦄ where
  pub at-put_at :
      (d : Dict A (Dict ℕ V)) (k : A) (n : ℕ) (v : V) (j : A)
      → e.beq k j ≡ true
      → at (put_at d k n v) j ≡ put (at d j) n v
  at-put_at d k n v j t =
      at-put_here d k (put (at d k) n v) j t ∙ ap (λ a. put (at d a) n v) ((e.beq_iff k j).0 t)

module _ {A : Type 0} where
  -- The channel's side behind a `sendto` that returns.
  abbrev pub sent : Link A → List ℕ → A → Link A
  sent link packet addr = record { sends = suc link.sends; wire = link.wire ++ (packet, addr) ∷ [] }

  pub sent_lem :
      (accepts : ℕ → Bool) (link : Link A) (packet : List ℕ) (addr : A)
      → accepts link.sends ≡ true
      → channel_send accepts link packet addr ≡ (sent link packet addr, true)
  unfolding channel_send
  sent_lem accepts link packet addr h = rw h
