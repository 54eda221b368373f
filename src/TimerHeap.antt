-- ===== src/TimerHeap.antt =====
-- udp_arq/timer_heap.py: timeouts by key, with lazy deletion from the heap.
pub mod Spec
use udp_arq_lab.Prelude.{
  ℕ, ◌+◌, Bool, true, false, Option, none, some, List, [], ◌∷◌, ◌++◌, if◌then◌else◌, length,
}
use udp_arq_lab.Prelude.Dict.{Dict, Eq, get, put, remove}
use udp_arq_lab.Prelude.Float.{Float, le_f, eq_f}
use udp_arq_lab.Heapq.{Entry, heappush}

-- `counter` is the next value of `itertools.count()`.
pub record TimerHeap (T K : Type 0) : Type 0 where
  pub heap : List (Entry T K)
  pub key_to_deadline : Dict K T
  pub counter : ℕ

abbrev pub empty : {T K : Type 0} → TimerHeap T K
empty = record { heap = []; key_to_deadline = []; counter = 0 }

-- The variables of the loop of `pop_due`.
pub record Popped (T K : Type 0) : Type 0 where
  pub heap_left : List (Entry T K)
  pub dict_left : Dict K T
  pub due_keys : List K

module _ {T K : Type 0} ⦃f : Float T⦄ ⦃e : Eq K⦄ where
  unfoldable pub schedule : TimerHeap T K → K → T → TimerHeap T K
  schedule t key deadline = record t {
    key_to_deadline = put t.key_to_deadline key deadline;
    heap = heappush t.heap (record { at = deadline; tiebreak = t.counter; item = key });
    counter = t.counter + 1;
  }

  unfoldable pub cancel : TimerHeap T K → K → TimerHeap T K
  cancel t key = record t { key_to_deadline = remove t.key_to_deadline key }

  -- `key in self._key_to_deadline and self._key_to_deadline[key] == deadline`
  unfoldable pub is_current : Dict K T → Entry T K → Bool
  is_current d x = elim (get d x.item) [ none ↦ false | some deadline ↦ eq_f deadline x.at ]

  -- The loop of `nearest`: stale entries are popped until a current one is at the top.
  unfoldable pub drop_stale : Dict K T → List (Entry T K) → List (Entry T K)
  drop_stale d [] = []
  drop_stale d (x ∷ xs) = let rest = drop_stale d xs in if is_current d x then x ∷ xs else rest

  abbrev pub top : List (Entry T K) → Option T
  top [] = none
  top (x ∷ xs) = some x.at

  unfoldable pub nearest : TimerHeap T K → TimerHeap T K × Option T
  nearest t = let heap = drop_stale t.key_to_deadline t.heap in (record t { heap = heap }, top heap)

  -- The loop of `pop_due`; the keys are appended in the order of the rounds.
  unfoldable pub pop_loop : T → Dict K T → List (Entry T K) → List K → Popped T K
  pop_loop now d [] due = record { heap_left = []; dict_left = d; due_keys = due }
  pop_loop now d (x ∷ xs) due =
      let skip = pop_loop now d xs due in
      let take = pop_loop now (remove d x.item) xs (due ++ x.item ∷ []) in
      if is_current d x
      then (if le_f x.at now
          then take
          else record { heap_left = x ∷ xs; dict_left = d; due_keys = due })
      else skip

  unfoldable pub pop_due : TimerHeap T K → T → TimerHeap T K × List K
  pop_due t now =
      let p = pop_loop now t.key_to_deadline t.heap [] in
      (record t { heap = p.heap_left; key_to_deadline = p.dict_left }, p.due_keys)

  unfoldable pub len : TimerHeap T K → ℕ
  len t = length t.key_to_deadline
