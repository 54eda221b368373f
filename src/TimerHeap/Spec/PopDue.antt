-- ===== src/TimerHeap/Spec/PopDue.antt =====
-- `pop_due` on a plain map from keys to deadlines.
use mathlib.Core.Path.{subst}
use udp_arq_lab.Prelude.{
  ◌≡◌, inl, inr, true, false, none, List, [], ◌∷◌, ◌++◌, arith, if◌then◌else◌, ◌||◌, Bool-cases,
  Option-cases, ◌∙◌,
}
use udp_arq_lab.Prelude.Dict.{Dict, Eq, get, remove, get-remove}
use udp_arq_lab.Prelude.Float.{Float, FloatOrder}
use udp_arq_lab.Heapq.{Entry, IsSorted}
use udp_arq_lab.TimerHeap.{TimerHeap, Popped, is_current, pop_loop, pop_due}
use udp_arq_lab.TimerHeap.Spec.{
  IsWellFormed, is_due, contains, or_false, contains-append, Covers, Covers-stale, Covers-remove,
  none_due, current_due,
}

module _ {T K : Type 0} ⦃f : Float T⦄ ⦃e : Eq K⦄ (o : FloatOrder T) where
  -- What one call of the loop does, for every key.
  pub record PopsRest (now : T) (d : Dict K T) (due : List K) (p : Popped T K) : Type 0 where
    pub view : (k : K) → get p.dict_left k ≡ (if is_due now (get d k) then none else get d k)
    pub keys : (k : K) → contains p.due_keys k ≡ (contains due k || is_due now (get d k))
    pub sorted : IsSorted p.heap_left
    pub covered : Covers p.heap_left p.dict_left

  nothing_due : (now : T) (d : Dict K T) → Covers [] d → (k : K) → is_due now (get d k) ≡ false
  nothing_due now d c k = elim (Option-cases (get d k)) [
    | inl p ↦ rw p
    | inr (t, p) ↦ absurd (c k t p)
  ]

  stop_lem :
      (now : T) (d : Dict K T) (xs : List (Entry T K)) (due : List K)
      → ((k : K) → is_due now (get d k) ≡ false)
      → IsSorted xs
      → Covers xs d
      → PopsRest now d due (record { heap_left = xs; dict_left = d; due_keys = due })
  stop_lem now d xs due none_is s c = record {
    view = λ k. rw (none_is k);
    keys = λ k. rw (none_is k) (or_false (contains due k));
    sorted = s;
    covered = c;
  }

  take_lem :
      (now : T) (d : Dict K T) (x : Entry T K) (due : List K) (p : Popped T K)
      → is_due now (get d x.item) ≡ true
      → PopsRest now (remove d x.item) (due ++ x.item ∷ []) p
      → PopsRest now d due p
  take_lem now d x due p top_due ih = record {
    view = λ k. ih.view k ∙ view_step k;
    keys = λ k. ih.keys k ∙ keys_step k;
    sorted = ih.sorted;
    covered = ih.covered;
  }
    where
      due_k : (k : K) → e.beq x.item k ≡ true → is_due now (get d k) ≡ true
      due_k k b = subst (λ j. is_due now (get d j) ≡ true) ((e.beq_iff x.item k).0 b) top_due

      view_step :
          (k : K)
          → (if is_due now (get (remove d x.item) k) then none else get (remove d x.item) k)
            ≡ (if is_due now (get d k) then none else get d k)
      view_step k =
          rw (get-remove d x.item k)
            (elim (Bool-cases (e.beq x.item k)) [ inl b ↦ rw (b, due_k k b) | inr b ↦ rw b ])

      keys_step :
          (k : K)
          → (contains (due ++ x.item ∷ []) k || is_due now (get (remove d x.item) k))
            ≡ (contains due k || is_due now (get d k))
      keys_step k =
          rw (get-remove d x.item k, contains-append)
            (elim (Bool-cases (e.beq x.item k)) [
              | inl b ↦ rw (b, due_k k b) (ground arith)
              | inr b ↦ rw b (ground arith)
            ])

  pub pop_loop_lem :
      (now : T) (d : Dict K T) (xs : List (Entry T K)) (due : List K)
      → IsSorted xs
      → Covers xs d
      → PopsRest now d due (pop_loop now d xs due)
  unfolding pop_loop
  pop_loop_lem now d [] due s c = stop_lem now d [] due (nothing_due now d c) s c
  pop_loop_lem now d (x ∷ xs) due s c = elim (Bool-cases (is_current d x)) [
    | inr b ↦ rw b (pop_loop_lem now d xs due s.1 (Covers-stale o x xs d b c))
    | inl b ↦ elim (Bool-cases (f.lt now x.at)) [
      | inl late ↦ rw (b, late) (stop_lem now d (x ∷ xs) due (none_due o x xs d now s c late) s c)
      | inr h ↦
          rw (b, h)
            (take_lem now d x due _ (current_due o x d now b h) (
              pop_loop_lem now (remove d x.item) xs (due ++ x.item ∷ []) s.1
                (Covers-remove o x xs d c)))
    ]
  ]

  -- `pop_due` returns exactly the keys whose deadline has passed, takes exactly these out of the
  -- map, and keeps the heap well formed.
  pub record PopsDue (h : TimerHeap T K) (now : T) (h' : TimerHeap T K) (keys : List K)
      : Type 0 where
    pub returned : (k : K) → contains keys k ≡ is_due now (get h.key_to_deadline k)
    pub left :
        (k : K)
        → get h'.key_to_deadline k
          ≡ (if is_due now (get h.key_to_deadline k) then none else get h.key_to_deadline k)
    pub well_formed : IsWellFormed h'

  -- On a well-formed heap, `pop_due` returns exactly the keys whose current deadline is at most
  -- `now`, these keys are no longer scheduled and the others keep their deadlines, and the heap
  -- stays well-formed.
  pub pop_due-PopsDue :
      (h : TimerHeap T K) (now : T)
      → IsWellFormed h
      → PopsDue h now (pop_due h now).0 (pop_due h now).1
  unfolding pop_due
  pop_due-PopsDue h now w =
      let p = pop_loop_lem now h.key_to_deadline h.heap [] w.sorted w.covered in
      record {
        returned = p.keys;
        left = p.view;
        well_formed = record { sorted = p.sorted; covered = p.covered };
      }
