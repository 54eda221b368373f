-- ===== src/TimerHeap/Spec.antt =====
-- The heap with its stale entries behaves as a plain map from keys to deadlines.
pub mod PopDue
pub mod Nearest
use mathlib.Core.Bool.{false≢true}
use mathlib.Core.Path.{subst}
use udp_arq_lab.Prelude.{
  ◌≡◌, refl, ◌⊎◌, inl, inr, Bool, true, false, Option, none, some, List, [], ◌∷◌, ◌++◌, arith,
  if◌then◌else◌, ◌||◌, Bool-cases, Option-cases, sym, ◌∙◌,
}
use udp_arq_lab.Prelude.Dict.{Dict, Eq, get, put, remove, get-put, get-remove}
use udp_arq_lab.Prelude.Float.{Float, FloatOrder, le_f, eq_f, lt_irrefl, le_f_trans}
use udp_arq_lab.Heapq.{Entry, heappush, AtLeast, IsSorted, heappush-IsSorted, before}
use udp_arq_lab.TimerHeap.{
  TimerHeap, Popped, schedule, cancel, is_current, drop_stale, top, nearest, pop_loop, pop_due,
}

module _ {T K : Type 0} where
  -- The heap holds an entry of `k` at `d`.
  abbrev pub Listed : K → T → List (Entry T K) → Type 0
  Listed k d [] = ⊥
  Listed k d (x ∷ xs) = ((x.item ≡ k) × (x.at ≡ d)) ⊎ Listed k d xs

-- A deadline is due: `deadline <= now`.
abbrev pub is_due : {T : Type 0} ⦃f : Float T⦄ → T → Option T → Bool
is_due now none = false
is_due now (some t) = le_f t now

-- `k in keys`
abbrev pub contains : {K : Type 0} ⦃e : Eq K⦄ → List K → K → Bool
contains [] k = false
contains ⦃e⦄ (x ∷ xs) k = e.beq x k || contains xs k

pub or_false : (b : Bool) → b ≡ (b || false)
or_false true = refl
or_false false = refl

pub contains-append :
    {K : Type 0} ⦃e : Eq K⦄ (xs ys : List K) (k : K)
    → contains (xs ++ ys) k ≡ (contains xs k || contains ys k)
contains-append [] ys k = refl
contains-append ⦃e⦄ (x ∷ xs) ys k = ground (arith, contains-append xs ys k)

module _ {T K : Type 0} ⦃f : Float T⦄ ⦃e : Eq K⦄ where
  -- Each key's deadline has its entry in the heap.
  abbrev pub Covers : List (Entry T K) → Dict K T → Type 0
  Covers xs d = (k : K) (t : T) → get d k ≡ some t → Listed k t xs

  pub record IsWellFormed (t : TimerHeap T K) : Type 0 where
    pub sorted : IsSorted t.heap
    pub covered : Covers t.heap t.key_to_deadline

  Listed-heappush :
      (xs : List (Entry T K)) (x : Entry T K) (k : K) (t : T)
      → ((x.item ≡ k) × (x.at ≡ t)) ⊎ Listed k t xs
      → Listed k t (heappush xs x)
  unfolding heappush
  Listed-heappush [] x k t h = h
  Listed-heappush (y ∷ ys) x k t h = elim (Bool-cases (before x y)) [
    | inl b ↦ rw b h
    | inr b ↦ rw b (elim h [
      | inl p ↦ inr (Listed-heappush ys x k t (inl p))
      | inr (inl q) ↦ inl q
      | inr (inr r) ↦ inr (Listed-heappush ys x k t (inr r))
    ])
  ]

module _ {T K : Type 0} ⦃f : Float T⦄ ⦃e : Eq K⦄ (o : FloatOrder T) where
  same_deadline :
      (d : Dict K T) (k : K) (t : T) (j : K) (s : T)
      → e.beq k j ≡ true
      → get (put d k t) j ≡ some s
      → t ≡ s
  same_deadline d k t j s b p = ground (arith, get-put d k t j)

  other_deadline :
      (d : Dict K T) (k : K) (t : T) (j : K) (s : T)
      → e.beq k j ≡ false
      → get (put d k t) j ≡ some s
      → get d j ≡ some s
  other_deadline d k t j s b p = ground (arith, get-put d k t j)

  kept_deadline : (d : Dict K T) (k j : K) (s : T) → get (remove d k) j ≡ some s → get d j ≡ some s
  kept_deadline d k j s p = ground (arith, get-remove d k j)

  pub schedule-IsWellFormed :
      (h : TimerHeap T K) (k : K) (t : T) → IsWellFormed h → IsWellFormed (schedule h k t)
  unfolding schedule
  schedule-IsWellFormed h k t w = record {
    sorted = heappush-IsSorted o h.heap _ w.sorted;
    covered = λ j s p. Listed-heappush h.heap _ j s (elim (Bool-cases (e.beq k j)) [
      | inl b ↦ inl ((e.beq_iff k j).0 b, same_deadline h.key_to_deadline k t j s b p)
      | inr b ↦ inr (w.covered j s (other_deadline h.key_to_deadline k t j s b p))
    ]);
  }

  pub cancel-IsWellFormed : (h : TimerHeap T K) (k : K) → IsWellFormed h → IsWellFormed (cancel h k)
  unfolding cancel
  cancel-IsWellFormed h k w = record {
    sorted = w.sorted;
    covered = λ j s p. w.covered j s (kept_deadline h.key_to_deadline k j s p);
  }

  current_of_entry :
      (x : Entry T K) (d : Dict K T) → get d x.item ≡ some x.at → is_current d x ≡ true
  unfolding is_current
  current_of_entry x d p = ground (arith, lt_irrefl o x.at)

  -- An entry that is not current can be dropped.
  pub Covers-stale :
      (x : Entry T K) (xs : List (Entry T K)) (d : Dict K T)
      → is_current d x ≡ false
      → Covers (x ∷ xs) d
      → Covers xs d
  Covers-stale x xs d b c k t p = elim (c k t p) [
    | inl (same, at) ↦ absurd (false≢true (sym b ∙ current_of_entry x d (rw (same, at) p)))
    | inr r ↦ r
  ]

  -- So can the entry of a key that is removed.
  pub Covers-remove :
      (x : Entry T K) (xs : List (Entry T K)) (d : Dict K T)
      → Covers (x ∷ xs) d
      → Covers xs (remove d x.item)
  Covers-remove x xs d c k t p = elim (c k t (kept_deadline d x.item k t p)) [
    | inl (same, at) ↦ ground (arith, get-remove d x.item k, e.beq_iff x.item k)
    | inr r ↦ r
  ]

  pub Listed-AtLeast :
      (xs : List (Entry T K)) (k : K) (t s : T) → Listed k t xs → AtLeast s xs → f.lt t s ≡ false
  Listed-AtLeast [] k t s l a = elim l [ ]
  Listed-AtLeast (x ∷ xs) k t s (inl (same, at)) a = rw at at a.0
  Listed-AtLeast (x ∷ xs) k t s (inr l) a = Listed-AtLeast xs k t s l a.1

  -- Where the top entry is not due, nothing is.
  pub none_due :
      (x : Entry T K) (xs : List (Entry T K)) (d : Dict K T) (now : T)
      → IsSorted (x ∷ xs)
      → Covers (x ∷ xs) d
      → f.lt now x.at ≡ true
      → (k : K) → is_due now (get d k) ≡ false
  none_due x xs d now s c late k = elim (Option-cases (get d k)) [
    | inl p ↦ rw p
    | inr (t, p) ↦ rw p (
        ground (
          arith,
          o.lt-le_trans now x.at t late
              (Listed-AtLeast (x ∷ xs) k t x.at (c k t p) (lt_irrefl o x.at, s.0)),
        ))
  ]

  -- A current entry that is due shows that its key is due.
  pub current_due :
      (x : Entry T K) (d : Dict K T) (now : T)
      → is_current d x ≡ true
      → f.lt now x.at ≡ false
      → is_due now (get d x.item) ≡ true
  unfolding is_current
  current_due x d now b h = elim (Option-cases (get d x.item)) [
    | inl p ↦ ground arith
    | inr (t, p) ↦ rw p (ground (arith, le_f_trans o t x.at now))
  ]

  pub current_deadline :
      (x : Entry T K) (d : Dict K T)
      → is_current d x ≡ true
      → (k : K) × (s : T) × (get d k ≡ some s) × (eq_f s x.at ≡ true)
  unfolding is_current
  current_deadline x d b = elim (Option-cases (get d x.item)) [
    | inl p ↦ ground arith
    | inr (t, p) ↦ (x.item, t, p, ground arith)
  ]
