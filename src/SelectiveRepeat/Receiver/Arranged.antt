-- ===== src/SelectiveRepeat/Receiver/Arranged.antt =====
-- The buffer of one peer behind one packet.
use mathlib.Core.Logic.{◌⊎◌, inl, inr}
use udp_arq_lab.Prelude.{
  ℕ, ◌+◌, ◌≤◌, ◌<◌, ◌≡◌, true, ◌&&◌, none, List, [], arith, length, ltb, leb, ◌==◌, ◌-◌, Bool-cases,
}
use udp_arq_lab.Prelude.Dict.{nat_eq_inst, Dict, get, has, get-put}
use udp_arq_lab.GoBackN.Receiver.Prefix.{messages}
use udp_arq_lab.SelectiveRepeat.Receiver.{Delivery, ack_number, buffered, arrange}
use udp_arq_lab.SelectiveRepeat.Receiver.Window.{
  IsGenuine, IsHeld, Took, take_ready-Took, take_ready_stops,
}

-- Numbers that are expected or buffered do not pass `limit`.
pub record IsBelow (limit : ℕ) (buffer : Dict ℕ (List ℕ)) (expected : ℕ) : Type 0 where
  pub expected_le : expected ≤ limit
  pub buffer_lt : (n : ℕ) → has buffer n ≡ true → n < limit

-- Behind packet `seq`, `k` messages are delivered in order, and the next one is not there. What
-- was held is held, the packet too unless it lies beyond the window, and so is each packet that
-- the ACK names.
pub record Arranged (msg : ℕ → List ℕ) (w : ℕ) (buffer : Dict ℕ (List ℕ)) (expected seq : ℕ)
    (d : Delivery) : Type 0 where
  pub k : ℕ
  pub expected_eq : d.expected ≡ expected + k
  pub queue_eq : d.queue ≡ messages msg expected k
  pub genuine : IsGenuine msg d.buffer
  pub next_missing : get d.buffer d.expected ≡ none
  pub keeps : (n : ℕ) → IsHeld buffer expected n → IsHeld d.buffer d.expected n
  pub takes : seq < expected + w → IsHeld d.buffer d.expected seq
  pub acked : (m : ℕ) → ack_number w expected seq ≡ m + 1 → IsHeld d.buffer d.expected m
  pub below :
      (limit : ℕ) → seq < limit → IsBelow limit buffer expected → IsBelow limit d.buffer d.expected

module _ (msg : ℕ → List ℕ) (held : Dict ℕ (List ℕ)) (expected : ℕ) {queue : List (List ℕ)}
    {d : Delivery} (t : Took msg held expected queue d) where
  took-IsGenuine : IsGenuine msg held → IsGenuine msg d.buffer
  took-IsGenuine g n p h = ground (arith, t.left n, g n p)

  took-IsHeld : (n : ℕ) → IsHeld held expected n → IsHeld d.buffer d.expected n
  unfolding has
  took-IsHeld n (inl lt) = inl (omega (arith, lt, t.expected_eq))
  took-IsHeld n (inr there) = elim (Bool-cases (leb expected n && ltb n (expected + t.k))) [
    | inl b ↦ inl (ground (arith, t.expected_eq))
    | inr b ↦ inr (ground (arith, t.left n))
  ]

  took-IsBelow : (limit : ℕ) → IsBelow limit held expected → IsBelow limit d.buffer d.expected
  unfolding has
  took-IsBelow limit b = record {
    expected_le = elim (Bool-cases (t.k == 0)) [
      | inl z ↦ ground (arith, t.expected_eq, b.expected_le)
      | inr z ↦
          ground
            (arith, t.expected_eq, t.present (expected + t.k - 1), b.buffer_lt (expected + t.k - 1))
    ];
    buffer_lt = λ n h. ground (arith, t.left n, b.buffer_lt n);
  }

module _ (w : ℕ) (buffer : Dict ℕ (List ℕ)) (expected seq : ℕ) (payload : List ℕ) where
  abbrev held : Dict ℕ (List ℕ)
  held = buffered w buffer expected seq payload

  buffered-IsGenuine :
      (msg : ℕ → List ℕ) → payload ≡ msg seq → IsGenuine msg buffer → IsGenuine msg held
  unfolding buffered
  buffered-IsGenuine msg same g n p h = ground (arith, get-put buffer seq payload n, g n p, same)

  buffered-IsHeld : (n : ℕ) → IsHeld buffer expected n → IsHeld held expected n
  unfolding buffered has
  buffered-IsHeld n (inl lt) = inl lt
  buffered-IsHeld n (inr there) = inr (ground (arith, get-put buffer seq payload n))

  buffered_takes : seq < expected + w → IsHeld held expected seq
  unfolding buffered has
  buffered_takes lt = elim (Bool-cases (ltb seq expected)) [
    | inl b ↦ inl (ground arith)
    | inr b ↦ inr (ground (arith, get-put buffer seq payload seq))
  ]

  buffered-IsBelow :
      (limit : ℕ) → seq < limit → IsBelow limit buffer expected → IsBelow limit held expected
  unfolding buffered has
  buffered-IsBelow limit lt b = record {
    expected_le = b.expected_le;
    buffer_lt = λ n h. ground (arith, get-put buffer seq payload n, b.buffer_lt n);
  }

  acked_held :
      (m : ℕ)
      → ack_number w expected seq ≡ m + 1
      → (m < expected) ⊎ ((m ≡ seq) × (seq < expected + w))
  unfolding ack_number
  acked_held m h = elim (Bool-cases (ltb m expected)) [
    | inl b ↦ inl (ground arith)
    | inr b ↦ inr (ground arith, ground arith)
  ]

module _ (msg : ℕ → List ℕ) (w : ℕ) (buffer : Dict ℕ (List ℕ)) (expected seq : ℕ)
    (payload : List ℕ) where
  -- One packet of a peer's message.
  pub arrange-Arranged :
      payload ≡ msg seq
      → IsGenuine msg buffer
      → Arranged msg w buffer expected seq (arrange w buffer expected seq payload)
  unfolding arrange
  arrange-Arranged same g =
      let all = held w buffer expected seq payload in
      let genuine = buffered-IsGenuine w buffer expected seq payload msg same g in
      let t = take_ready-Took msg (length all) all expected [] genuine in
      let keeps = took-IsHeld msg all expected t in
      let takes =
        λ (lt : seq < expected + w). keeps seq (buffered_takes w buffer expected seq payload lt) in
      record {
        k = t.k;
        expected_eq = t.expected_eq;
        queue_eq = t.queue_eq;
        genuine = took-IsGenuine msg all expected t genuine;
        next_missing = take_ready_stops (length all) all expected [] (omega arith);
        keeps = λ n h. keeps n (buffered-IsHeld w buffer expected seq payload n h);
        takes = takes;
        acked = λ m h. elim (acked_held w buffer expected seq payload m h) [
          | inl lt ↦ keeps m (inl lt)
          | inr (same, lt) ↦ rw same (takes lt)
        ];
        below = λ limit lt b.
            took-IsBelow msg all expected t limit
              (buffered-IsBelow w buffer expected seq payload limit lt b);
      }
