-- ===== src/SelectiveRepeat/Receiver/Window.antt =====
-- The buffer of one peer: what the delivery loop takes out, and what it leaves.
use mathlib.Core.Logic.{◌⊎◌, inl, inr}
use udp_arq_lab.Prelude.{
  ℕ, zero, suc, ◌+◌, ◌≤◌, ◌<◌, ◌≡◌, refl, sym, ap, ◌∙◌, true, ◌&&◌, none, some, List, [], ◌∷◌, ◌++◌,
  append_assoc, append-nil, arith, length, ltb, leb, if◌then◌else◌, Option-cases,
}
use udp_arq_lab.Prelude.Dict.{nat_eq_inst, Dict, get, has, remove, get-remove}
use udp_arq_lab.GoBackN.Receiver.Prefix.{messages}
use udp_arq_lab.SelectiveRepeat.Receiver.{Delivery, take_ready}

-- Each payload is the message of its number.
abbrev pub IsGenuine : (ℕ → List ℕ) → Dict ℕ (List ℕ) → Type 0
IsGenuine msg buffer = (n : ℕ) (p : List ℕ) → get buffer n ≡ some p → p ≡ msg n

-- Packet `n` was received: delivered before, or waiting in the buffer.
abbrev pub IsHeld : Dict ℕ (List ℕ) → ℕ → ℕ → Type 0
IsHeld buffer expected n = (n < expected) ⊎ (has buffer n ≡ true)

-- From `buffer`, `expected` and `queue`, the loop takes `k` messages.
pub record Took (msg : ℕ → List ℕ) (buffer : Dict ℕ (List ℕ)) (expected : ℕ) (queue : List (List ℕ))
    (d : Delivery) : Type 0 where
  pub k : ℕ
  pub expected_eq : d.expected ≡ expected + k
  pub queue_eq : d.queue ≡ queue ++ messages msg expected k
  pub left :
      (n : ℕ)
      → get d.buffer n ≡ (if leb expected n && ltb n (expected + k) then none else get buffer n)
  pub present : (n : ℕ) → expected ≤ n → n < expected + k → has buffer n ≡ true

Took-nothing :
    (msg : ℕ → List ℕ) (buffer : Dict ℕ (List ℕ)) (expected : ℕ) (queue : List (List ℕ))
    → Took msg buffer expected queue
        (record { expected = expected; buffer = buffer; queue = queue })
Took-nothing msg buffer expected queue = record {
  k = 0;
  expected_eq = omega arith;
  queue_eq = sym (append-nil queue);
  left = λ n. ground arith;
  present = λ n h l. absurd (omega (arith, h, l));
}

IsGenuine-remove :
    (msg : ℕ → List ℕ) (buffer : Dict ℕ (List ℕ)) (k : ℕ)
    → IsGenuine msg buffer
    → IsGenuine msg (remove buffer k)
IsGenuine-remove msg buffer k g n p h = ground (arith, get-remove buffer k n, g n p)

Took-one :
    (msg : ℕ → List ℕ) (buffer : Dict ℕ (List ℕ)) (expected : ℕ) (queue : List (List ℕ))
    (p : List ℕ) (d : Delivery)
    → get buffer expected ≡ some p
    → p ≡ msg expected
    → Took msg (remove buffer expected) (expected + 1) (queue ++ p ∷ []) d
    → Took msg buffer expected queue d
unfolding has
Took-one msg buffer expected queue p d h same ih = record {
  k = suc ih.k;
  expected_eq = omega (arith, ih.expected_eq);
  queue_eq =
      ih.queue_eq
      ∙ append_assoc queue (p ∷ []) _
      ∙ ap (λ q. queue ++ q ∷ messages msg (expected + 1) ih.k) same;
  left = λ n. ground (arith, ih.left n, get-remove buffer expected n);
  present = λ n low high. ground (arith, ih.present n, get-remove buffer expected n);
}

pub take_ready-Took :
    (msg : ℕ → List ℕ) (fuel : ℕ) (buffer : Dict ℕ (List ℕ)) (expected : ℕ) (queue : List (List ℕ))
    → IsGenuine msg buffer
    → Took msg buffer expected queue (take_ready fuel buffer expected queue)
unfolding take_ready
take_ready-Took msg zero buffer expected queue g = Took-nothing msg buffer expected queue
take_ready-Took msg (suc fuel) buffer expected queue g = elim (Option-cases (get buffer expected)) [
  | inl n ↦ rw (take_ready, n) (Took-nothing msg buffer expected queue)
  | inr (p, h) ↦
      rw (take_ready, h)
        (Took-one msg buffer expected queue p _ h (g expected p h) (
          take_ready-Took msg fuel (remove buffer expected) (expected + 1) (queue ++ p ∷ [])
            (IsGenuine-remove msg buffer expected g)))
]

length-remove_le : {V : Type 0} (d : Dict ℕ V) (k : ℕ) → length (remove d k) ≤ length d
unfolding remove
length-remove_le [] k = omega arith
length-remove_le ((j, v) ∷ d) k = ground (arith, length-remove_le d k)

pub length-remove :
    {V : Type 0} (d : Dict ℕ V) (k : ℕ) (v : V)
    → get d k ≡ some v
    → length (remove d k) + 1 ≤ length d
unfolding remove get
length-remove [] k v h = absurd (ground arith)
length-remove ((j, w) ∷ d) k v h = ground (arith, length-remove d k v, length-remove_le d k)

-- The fuel is enough: the loop ends because the next packet is not there.
pub take_ready_stops :
    (fuel : ℕ) (buffer : Dict ℕ (List ℕ)) (expected : ℕ) (queue : List (List ℕ))
    → length buffer ≤ fuel
    → get
        (take_ready fuel buffer expected queue).buffer
        (take_ready fuel buffer expected queue).expected
      ≡ none
unfolding take_ready get
take_ready_stops zero [] expected queue h = refl
take_ready_stops zero (x ∷ buffer) expected queue h = absurd (omega (arith, h))
take_ready_stops (suc fuel) buffer expected queue h = elim (Option-cases (get buffer expected)) [
  | inl n ↦ rw (take_ready, n) n
  | inr (p, there) ↦
      rw (take_ready, there)
        (take_ready_stops fuel (remove buffer expected) (expected + 1) (queue ++ p ∷ [])
          (omega (arith, h, length-remove buffer expected p there)))
]
