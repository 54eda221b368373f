-- ===== src/Channel/Drain.antt =====
-- `close` waits for the worker, and the worker delivers what is still queued.
use udp_arq_lab.Prelude.{
  ℕ, suc, ◌+◌, ◌<◌, ◌≤◌, ◌≡◌, refl, sym, ◌∙◌, Bool, true, false, List, [], ◌∷◌, ◌++◌, length, All,
  arith, if◌then◌else◌, Bool-cases, inl, inr, append-nil, append_assoc,
}
use udp_arq_lab.Prelude.Float.{Float, zero_f}
use udp_arq_lab.Heapq.{Entry}
use udp_arq_lab.Channel.{
  Channel, returned, waited, went_on, send_top, round_on, deliver_round, worker, close,
}

abbrev pub items : {T A : Type 0} → List (Entry T A) → List A
items [] = []
items (x ∷ xs) = x.item ∷ items xs

-- How many rounds come with a refusal of the socket.
abbrev pub refusals : {T : Type 0} → List (T × Bool) → ℕ
refusals [] = 0
refusals ((now, accepted) ∷ more) = if accepted then refusals more else suc (refusals more)

-- `handed` is what is left of a queue, in its order, without some that are lost.
pub data Parts {A : Type 0} : List A → List A → ℕ → Type 0 where
  nothing : Parts [] [] 0
  handed : {x : A} {xs ys : List A} {n : ℕ} → Parts xs ys n → Parts (x ∷ xs) (x ∷ ys) n
  lost : {x : A} {xs ys : List A} {n : ℕ} → Parts xs ys n → Parts (x ∷ xs) ys (suc n)

module _ {T A : Type 0} ⦃f : Float T⦄ where
  -- At `now` the entry's time has come: `deliver_at - now` is not positive.
  abbrev pub IsReady : T → Entry T A → Type 0
  IsReady now x = f.lt zero_f (f.sub x.at now) ≡ false

  abbrev pub AllReady : List (T × Bool) → List (Entry T A) → Type 0
  AllReady rounds xs = All (λ round. All (IsReady round.0) xs) rounds

  AllReady-tail :
      (rounds : List (T × Bool)) (x : Entry T A) (xs : List (Entry T A))
      → AllReady rounds (x ∷ xs)
      → AllReady rounds xs
  AllReady-tail [] x xs r = tt
  AllReady-tail (round ∷ rounds) x xs r = (r.0.1, AllReady-tail rounds x xs r.1)

module _ {T A S : Type 0} ⦃f : Float T⦄ where
  -- `c` is `ch` after its queue was handed to the socket, in the queue's order, which refused
  -- `missing` of them.
  pub record Drained (ch : Channel T A S) (h : List (Entry T (List ℕ × A))) (limit : ℕ)
      (c : Channel T A S) : Type 0 where
    pub out : List (List ℕ × A)
    pub missing : ℕ
    pub parts : Parts (items h) out missing
    pub few : missing ≤ limit
    pub heap : c.heap ≡ []
    pub wire : c.wire ≡ ch.wire ++ out
    pub delivered : c.delivered ≡ ch.delivered + length out

  round_closed :
      (ch : Channel T A S) (now : T) (b : Bool)
      → ch.heap ≡ []
      → ch.closed ≡ true
      → deliver_round ch now b ≡ returned
  unfolding deliver_round round_on
  round_closed ch now b e c = ground arith

  round_ready :
      (ch : Channel T A S) (now : T) (b : Bool) (x : Entry T (List ℕ × A))
      (rest : List (Entry T (List ℕ × A)))
      → ch.heap ≡ x ∷ rest
      → IsReady now x
      → deliver_round ch now b ≡ went_on (send_top ch x rest b)
  unfolding deliver_round round_on
  round_ready ch now b x rest e r = ground arith

  round_early :
      (ch : Channel T A S) (now : T) (b : Bool) (x : Entry T (List ℕ × A))
      (rest : List (Entry T (List ℕ × A)))
      → ch.heap ≡ x ∷ rest
      → f.lt zero_f (f.sub x.at now) ≡ true
      → deliver_round ch now b ≡ waited ch
  unfolding deliver_round round_on
  round_early ch now b x rest e r = ground arith

  Drained-empty : (ch : Channel T A S) (limit : ℕ) → ch.heap ≡ [] → Drained ch [] limit ch
  Drained-empty ch limit e = record {
    out = [];
    missing = 0;
    parts = nothing;
    few = omega arith;
    heap = e;
    wire = sym (append-nil ch.wire);
    delivered = omega arith;
  }

  Drained-more :
      (ch : Channel T A S) (h : List (Entry T (List ℕ × A))) (limit limit' : ℕ) (c : Channel T A S)
      → limit ≤ limit'
      → Drained ch h limit c
      → Drained ch h limit' c
  Drained-more ch h limit limit' c le d = record {
    out = d.out;
    missing = d.missing;
    parts = d.parts;
    few = omega (arith, d.few, le);
    heap = d.heap;
    wire = d.wire;
    delivered = d.delivered;
  }

  Drained-send_top :
      (ch : Channel T A S) (b : Bool) (x : Entry T (List ℕ × A))
      (rest : List (Entry T (List ℕ × A))) (limit : ℕ) (c : Channel T A S)
      → Drained (send_top ch x rest b) rest limit c
      → Drained ch (x ∷ rest) (if b then limit else suc limit) c
  unfolding send_top
  Drained-send_top ch true x rest limit c d = record {
    out = x.item ∷ d.out;
    missing = d.missing;
    parts = handed d.parts;
    few = d.few;
    heap = d.heap;
    wire = d.wire ∙ append_assoc ch.wire (x.item ∷ []) d.out;
    delivered = omega (arith, d.delivered);
  }
  Drained-send_top ch false x rest limit c d = record {
    out = d.out;
    missing = suc d.missing;
    parts = lost d.parts;
    few = omega (arith, d.few);
    heap = d.heap;
    wire = d.wire;
    delivered = d.delivered;
  }

  -- The worker returns, and `Drained` holds then.
  abbrev Finishes : Channel T A S → List (Entry T (List ℕ × A)) → List (T × Bool) → Type 0
  Finishes ch h rounds =
      ((worker ch rounds).1 ≡ true) × Drained ch h (refusals rounds) (worker ch rounds).0

  Finishes-empty :
      (ch : Channel T A S) (now : T) (b : Bool) (more : List (T × Bool))
      → ch.heap ≡ []
      → ch.closed ≡ true
      → Finishes ch [] ((now, b) ∷ more)
  unfolding worker
  Finishes-empty ch now b more e c =
      rw (worker, round_closed ch now b e c) (refl, Drained-empty ch _ e)

  Finishes-ready :
      (ch : Channel T A S) (now : T) (b : Bool) (more : List (T × Bool)) (x : Entry T (List ℕ × A))
      (rest : List (Entry T (List ℕ × A)))
      → ch.heap ≡ x ∷ rest
      → IsReady now x
      → Finishes (send_top ch x rest b) rest more
      → Finishes ch (x ∷ rest) ((now, b) ∷ more)
  unfolding worker
  Finishes-ready ch now b more x rest e r (done, d) =
      rw (worker, round_ready ch now b x rest e r)
        (done, Drained-send_top ch b x rest (refusals more) _ d)

  Finishes-early :
      (ch : Channel T A S) (now : T) (b : Bool) (more : List (T × Bool)) (x : Entry T (List ℕ × A))
      (rest : List (Entry T (List ℕ × A)))
      → ch.heap ≡ x ∷ rest
      → f.lt zero_f (f.sub x.at now) ≡ true
      → Finishes ch (x ∷ rest) more
      → Finishes ch (x ∷ rest) ((now, b) ∷ more)
  unfolding worker
  Finishes-early ch now b more x rest e r (done, d) =
      rw (worker, round_early ch now b x rest e r)
        (done, Drained-more ch (x ∷ rest) (refusals more) _ _ (ground arith) d)

  top_lem :
      (ch : Channel T A S) (x : Entry T (List ℕ × A)) (rest : List (Entry T (List ℕ × A)))
      (b : Bool)
      → ch.closed ≡ true
      → ((send_top ch x rest b).heap ≡ rest) × ((send_top ch x rest b).closed ≡ true)
  unfolding send_top
  top_lem ch x rest b c = ground arith

  late_lem :
      (h : List (Entry T (List ℕ × A))) (ch : Channel T A S) (rounds : List (T × Bool))
      → ch.heap ≡ h
      → ch.closed ≡ true
      → length h < length rounds
      → AllReady rounds h
      → Finishes ch h rounds
  late_lem h ch [] e c l r = absurd (omega (arith, l))
  late_lem [] ch ((now, b) ∷ more) e c l r = Finishes-empty ch now b more e c
  late_lem (x ∷ rest) ch ((now, b) ∷ more) e c l r =
      let (heap, closed) = top_lem ch x rest b c in
      Finishes-ready ch now b more x rest e r.0.0 (
        late_lem rest (send_top ch x rest b) more heap closed (omega (arith, l))
          (AllReady-tail more x rest r.1))

  worker_lem :
      (early late : List (T × Bool)) (h : List (Entry T (List ℕ × A))) (ch : Channel T A S)
      → ch.heap ≡ h
      → ch.closed ≡ true
      → length h < length late
      → AllReady late h
      → Finishes ch h (early ++ late)
  worker_lem [] late h ch e c l r = late_lem h ch late e c l r
  worker_lem ((now, b) ∷ early) late [] ch e c l r = Finishes-empty ch now b (early ++ late) e c
  worker_lem ((now, b) ∷ early) late (x ∷ rest) ch e c l r =
      elim (Bool-cases (f.lt zero_f (f.sub x.at now))) [
        | inl t ↦
            Finishes-early ch now b (early ++ late) x rest e t
              (worker_lem early late (x ∷ rest) ch e c l r)
        | inr t ↦
            let (heap, closed) = top_lem ch x rest b c in
            Finishes-ready ch now b (early ++ late) x rest e t (
              worker_lem early late rest (send_top ch x rest b) heap closed (omega (arith, l))
                (AllReady-tail late x rest r))
      ]

  -- After `close`, whatever rounds come first, at whatever times: if behind them at each of more
  -- rounds than there are queued datagrams the time of every queued datagram has come, the worker
  -- returns with an empty queue. The queued datagrams were then handed to the socket, in the queue's
  -- order, and counted, but for those that it refused: at most as many as rounds come with a
  -- refusal.
  pub close_drains :
      (ch : Channel T A S) (early late : List (T × Bool))
      → length ch.heap < length late
      → AllReady late ch.heap
      → ((worker (close ch) (early ++ late)).1 ≡ true)
        × Drained ch ch.heap (refusals (early ++ late)) (worker (close ch) (early ++ late)).0
  close_drains ch early late l r =
      let (done, d) =
        worker_lem early late ch.heap (close ch) (unfold close in refl) (unfold close in refl) l
          r in
      (
        done,
        unfold close in
            record {
              out = d.out;
              missing = d.missing;
              parts = d.parts;
              few = d.few;
              heap = d.heap;
              wire = d.wire;
              delivered = d.delivered;
            },
      )
