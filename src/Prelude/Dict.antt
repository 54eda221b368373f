-- ===== src/Prelude/Dict.antt =====
-- Python's `dict`: an association list in insertion order. A write to a key that is there keeps
-- its place, a new key goes last.
use Prim.Native.Nat.{ℕ}
use mathlib.Core.Path.{◌≡◌, refl}
use mathlib.Core.Logic.{◌↔◌}
use mathlib.Core.Bool.{Bool, true, false, ◌&&◌}
use mathlib.Core.Option.{Option, none, some}
use mathlib.Core.List.{List, [], ◌∷◌}
use native.Mathlib.Omega.{arith}
use udp_arq_lab.Prelude.Tests.{◌==◌ as nat_eq, ==_iff, if◌then◌else◌}

-- Equality of keys, as `==` decides it.
pub record Eq (A : Type 0) : Type 0 where
  pub beq : A → A → Bool
  pub beq_iff : (a b : A) → (beq a b ≡ true) ↔ (a ≡ b)

pub nat_beq_iff : (a b : ℕ) → (nat_eq a b ≡ true) ↔ (a ≡ b)
nat_beq_iff a b = ==_iff a b

instance abbrev pub nat_eq_inst : Eq ℕ
nat_eq_inst = record { beq = nat_eq; beq_iff = nat_beq_iff }

-- A pair as a key: `(a, b) == (c, d)`.
unfoldable pub pair_beq : {A B : Type 0} ⦃e : Eq A⦄ ⦃d : Eq B⦄ → A × B → A × B → Bool
pair_beq ⦃e⦄ ⦃d⦄ (a, b) (a', b') = e.beq a a' && d.beq b b'

pub pair_beq_iff :
    {A B : Type 0} ⦃e : Eq A⦄ ⦃d : Eq B⦄ (p q : A × B) → (pair_beq p q ≡ true) ↔ (p ≡ q)
unfolding pair_beq
pair_beq_iff ⦃e⦄ ⦃d⦄ (a, b) (a', b') = ground (arith, e.beq_iff a a', d.beq_iff b b')

instance abbrev pub pair_eq_inst : {A B : Type 0} ⦃e : Eq A⦄ ⦃d : Eq B⦄ → Eq (A × B)
pair_eq_inst = record { beq = pair_beq; beq_iff = pair_beq_iff }

abbrev pub Dict : Type 0 → Type 0 → Type 0
Dict K V = List (K × V)

module _ {K V : Type 0} ⦃e : Eq K⦄ where
  -- d.get(k)
  unfoldable pub get : Dict K V → K → Option V
  get [] k = none
  get ((j, v) ∷ d) k = if e.beq j k then some v else get d k

  -- d.get(k, default)
  unfoldable pub get_or : Dict K V → K → V → V
  unfolding get
  get_or d k v = elim (get d k) [ none ↦ v | some w ↦ w ]

  -- k in d
  unfoldable pub has : Dict K V → K → Bool
  unfolding get
  has d k = elim (get d k) [ none ↦ false | some w ↦ true ]

  -- d[k] = v
  unfoldable pub put : Dict K V → K → V → Dict K V
  put [] k v = (k, v) ∷ []
  put ((j, w) ∷ d) k v = if e.beq j k then (j, v) ∷ d else (j, w) ∷ put d k v

  -- d.pop(k, None), del d[k]
  unfoldable pub remove : Dict K V → K → Dict K V
  remove [] k = []
  remove ((j, w) ∷ d) k = let rest = remove d k in if e.beq j k then rest else (j, w) ∷ rest

  -- d.setdefault(k, v)
  unfoldable pub set_default : Dict K V → K → V → Dict K V
  unfolding get put
  set_default d k v = elim (get d k) [ none ↦ put d k v | some w ↦ d ]

pub beq_refl : {K : Type 0} ⦃e : Eq K⦄ (k : K) → e.beq k k ≡ true
beq_refl ⦃e⦄ k = (e.beq_iff k k).1 refl

module _ {K V : Type 0} ⦃e : Eq K⦄ where
  pub get-put :
      (d : Dict K V) (k : K) (v : V) (j : K)
      → get (put d k v) j ≡ (if e.beq k j then some v else get d j)
  unfolding get put
  get-put [] k v j = refl
  get-put ((i, w) ∷ d) k v j =
      ground (arith, get-put d k v j, e.beq_iff i k, e.beq_iff i j, e.beq_iff k j)

  pub get-remove :
      (d : Dict K V) (k j : K) → get (remove d k) j ≡ (if e.beq k j then none else get d j)
  unfolding get remove
  get-remove [] k j = ground arith
  get-remove ((i, w) ∷ d) k j =
      ground (arith, get-remove d k j, e.beq_iff i k, e.beq_iff i j, e.beq_iff k j)

  pub get-set_default :
      (d : Dict K V) (k : K) (v : V) (j : K)
      → get (set_default d k v) j ≡ (if e.beq k j then some (get_or d k v) else get d j)
  unfolding set_default get_or
  get-set_default d k v j = ground (arith, get-put d k v j, e.beq_iff k j)

module _ {A V : Type 0} ⦃e : Eq A⦄ where
  pub get_or-put :
      (d : Dict A V) (k : A) (v : V) (j : A) (w : V)
      → get_or (put d k v) j w ≡ (if e.beq k j then v else get_or d j w)
  unfolding get_or
  get_or-put d k v j w = ground (arith, get-put d k v j)

  pub get_or-set_default :
      (d : Dict A V) (k : A) (v : V) (j : A) (w : V)
      → get_or (set_default d k v) j w ≡ (if e.beq k j then get_or d k v else get_or d j w)
  unfolding get_or
  get_or-set_default d k v j w = ground (arith, get-set_default d k v j)

module _ {K V : Type 0} ⦃e : Eq K⦄ where
  pub has-remove :
      (d : Dict K V) (k j : K) → has (remove d k) j ≡ (if e.beq k j then false else has d j)
  unfolding has
  has-remove d k j = ground (arith, get-remove d k j)

  pub has-set_default :
      (d : Dict K V) (k : K) (v : V) (j : K)
      → has (set_default d k v) j ≡ (if e.beq k j then true else has d j)
  unfolding has
  has-set_default d k v j = ground (arith, get-set_default d k v j)
