-- ===== src/TimerHeap/Spec/Nearest.antt =====
-- `nearest` on a plain map from keys to deadlines.
use udp_arq_lab.Prelude.{
  ◌≡◌, inl, inr, true, false, Option, none, some, List, [], ◌∷◌, Bool-cases, Option-cases,
}
use udp_arq_lab.Prelude.Dict.{Dict, Eq, get}
use udp_arq_lab.Prelude.Float.{Float, FloatOrder, eq_f, lt_irrefl}
use udp_arq_lab.Heapq.{Entry, IsSorted}
use udp_arq_lab.TimerHeap.{TimerHeap, is_current, drop_stale, top, nearest}
use udp_arq_lab.TimerHeap.Spec.{
  IsWellFormed, Covers, Covers-stale, Listed-AtLeast, current_deadline,
}

module _ {T K : Type 0} ⦃f : Float T⦄ ⦃e : Eq K⦄ (o : FloatOrder T) where
  drop_stale-IsSorted :
      (d : Dict K T) (xs : List (Entry T K)) → IsSorted xs → IsSorted (drop_stale d xs)
  unfolding drop_stale
  drop_stale-IsSorted d [] s = tt
  drop_stale-IsSorted d (x ∷ xs) s = elim (Bool-cases (is_current d x)) [
    | inl b ↦ rw b s
    | inr b ↦ rw b (drop_stale-IsSorted d xs s.1)
  ]

  drop_stale-Covers :
      (d : Dict K T) (xs : List (Entry T K)) → Covers xs d → Covers (drop_stale d xs) d
  unfolding drop_stale
  drop_stale-Covers d [] c = c
  drop_stale-Covers d (x ∷ xs) c = elim (Bool-cases (is_current d x)) [
    | inl b ↦ rw b c
    | inr b ↦ rw b (drop_stale-Covers d xs (Covers-stale o x xs d b c))
  ]

  pub nearest-IsWellFormed : (h : TimerHeap T K) → IsWellFormed h → IsWellFormed (nearest h).0
  unfolding nearest
  nearest-IsWellFormed h w = record {
    sorted = drop_stale-IsSorted h.key_to_deadline h.heap w.sorted;
    covered = drop_stale-Covers h.key_to_deadline h.heap w.covered;
  }

  -- The least deadline of a dict, or None where it is empty.
  abbrev pub IsNearest : Dict K T → Option T → Type 0
  IsNearest d none = (k : K) → get d k ≡ none
  IsNearest d (some t) =
      ((k : K) × (s : T) × (get d k ≡ some s) × (eq_f s t ≡ true))
      × ((k : K) (s : T) → get d k ≡ some s → f.lt s t ≡ false)

  IsNearest-top :
      (d : Dict K T) (xs : List (Entry T K))
      → IsSorted xs
      → Covers xs d
      → IsNearest d (top (drop_stale d xs))
  unfolding drop_stale
  IsNearest-top d [] s c =
      λ k. elim (Option-cases (get d k)) [ inl p ↦ p | inr (t, p) ↦ absurd (c k t p) ]
  IsNearest-top d (x ∷ xs) s c = elim (Bool-cases (is_current d x)) [
    | inr b ↦ rw b (IsNearest-top d xs s.1 (Covers-stale o x xs d b c))
    | inl b ↦ rw b (
      current_deadline o x d b,
      λ k t p. Listed-AtLeast o (x ∷ xs) k t x.at (c k t p) (lt_irrefl o x.at, s.0),
    )
  ]

  -- On a well-formed heap, `nearest` returns None only if no key is scheduled; else it returns a
  -- scheduled key's deadline, up to `==`, and no scheduled key has a lesser one.
  pub nearest-IsNearest :
      (h : TimerHeap T K) → IsWellFormed h → IsNearest h.key_to_deadline (nearest h).1
  unfolding nearest
  nearest-IsNearest h w = IsNearest-top h.key_to_deadline h.heap w.sorted w.covered
