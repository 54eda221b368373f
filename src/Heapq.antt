-- ===== src/Heapq.antt =====
-- Python's `heapq` as timer_heap.py and channel.py use it: a queue of tuples that begin with a
-- time and a counter. No two counters are equal, so tuples are compared no further, and the least
-- tuple is unique: the list is kept in the order in which `heappop` returns it.
use udp_arq_lab.Prelude.{ℕ, ltb, Bool, true, false, List, [], ◌∷◌, if◌then◌else◌, arith, ◌≡◌}
use udp_arq_lab.Prelude.Float.{Float, FloatOrder, le_f_trans}

pub record Entry (T A : Type 0) : Type 0 where
  pub at : T
  pub tiebreak : ℕ
  pub item : A

module _ {T A : Type 0} ⦃f : Float T⦄ where
  -- `(x.at, x.tiebreak) < (y.at, y.tiebreak)` on tuples
  unfoldable pub before : Entry T A → Entry T A → Bool
  before x y =
      if f.lt x.at y.at then true else if f.lt y.at x.at then false else ltb x.tiebreak y.tiebreak

  unfoldable pub heappush : List (Entry T A) → Entry T A → List (Entry T A)
  heappush [] x = x ∷ []
  heappush (y ∷ ys) x = let rest = heappush ys x in if before x y then x ∷ y ∷ ys else y ∷ rest

  -- `t` is at most the time of every entry.
  abbrev pub AtLeast : T → List (Entry T A) → Type 0
  AtLeast t [] = Unit
  AtLeast t (x ∷ xs) = (f.lt x.at t ≡ false) × AtLeast t xs

  -- The entries stand in the order of their times.
  abbrev pub IsSorted : List (Entry T A) → Type 0
  IsSorted [] = Unit
  IsSorted (x ∷ xs) = AtLeast x.at xs × IsSorted xs

module _ {T A : Type 0} ⦃f : Float T⦄ (o : FloatOrder T) where
  pub AtLeast-le :
      (s t : T) (xs : List (Entry T A)) → f.lt t s ≡ false → AtLeast t xs → AtLeast s xs
  AtLeast-le s t [] h a = tt
  AtLeast-le s t (x ∷ xs) h a = (le_f_trans o s t x.at h a.0, AtLeast-le s t xs h a.1)

  pub AtLeast-heappush :
      (t : T) (xs : List (Entry T A)) (x : Entry T A)
      → f.lt x.at t ≡ false
      → AtLeast t xs
      → AtLeast t (heappush xs x)
  unfolding heappush
  AtLeast-heappush t [] x h a = (h, tt)
  AtLeast-heappush t (y ∷ ys) x h a = ground (arith, AtLeast-heappush t ys x h a.1)

  before-le : (x y : Entry T A) → before x y ≡ true → f.lt y.at x.at ≡ false
  unfolding before
  before-le x y e = ground (arith, o.lt_asymm x.at y.at)

  not_before-le : (x y : Entry T A) → before x y ≡ false → f.lt x.at y.at ≡ false
  unfolding before
  not_before-le x y e = ground arith

  pub heappush-IsSorted :
      (xs : List (Entry T A)) (x : Entry T A) → IsSorted xs → IsSorted (heappush xs x)
  unfolding heappush
  heappush-IsSorted [] x s = (tt, tt)
  heappush-IsSorted (y ∷ ys) x s = ground (
    arith,
    before-le x y,
    not_before-le x y,
    AtLeast-le x.at y.at ys,
    AtLeast-heappush y.at ys x,
    heappush-IsSorted ys x s.1,
  )
