-- ===== src/GoBackN/Calls/Flush.antt =====
-- What a `flush` for one peer waits for, and what it does not see.
use udp_arq_lab.Prelude.{
  ℕ, ◌≡◌, refl, ◌⊎◌, inl, inr, Option, none, some, List, [], ◌∷◌, ◌++◌, Bool-cases, Option-cases,
  List-cases,
}
use udp_arq_lab.Prelude.Dict.{nat_eq_inst, Dict, Eq, get, get-remove, beq_refl}
use udp_arq_lab.Prelude.Float.{Float, le_f, zero_f}
use udp_arq_lab.Prelude.Result.{Result, ok, err}
use udp_arq_lab.GoBackN.State.{Sender}
use udp_arq_lab.GoBackN.Calls.{enqueue, items_of, seen, seen_errors, flush}
use udp_arq_lab.Sliding.{
  Failure, at, CallError, failed, not_flushed, values, errors_of, item_errors,
}

pub append_empty : {B : Type 0} (xs ys : List B) → xs ++ ys ≡ [] → (xs ≡ []) × (ys ≡ [])
append_empty [] ys h = (refl, h)
append_empty (x ∷ xs) ys h = cc

values_empty : {V : Type 0} (d : Dict ℕ V) → values d ≡ [] → d ≡ []
unfolding values
values_empty [] h = refl
values_empty ((k, v) ∷ d) h = cc

pub cons_nil : {B : Type 0} {x : B} {xs : List B} → x ∷ xs ≡ [] → ⊥
cons_nil h = cc

-- A result that is not a normal return.
not_returned :
    (x : CallError)
    → ◌≡◌ {A = Option (Result CallError (Unit {0}))} (some (err x)) (some (ok tt))
    → ⊥
not_returned x h = cc

module _ {A : Type 0} ⦃e : Eq A⦄ where
  no_error_of : (d : Dict A Failure) (a : A) → errors_of d (a ∷ []) ≡ [] → get d a ≡ none
  unfolding errors_of
  no_error_of d a h = elim (Option-cases (get d a)) [
    | inl n ↦ n
    | inr (x, g) ↦ absurd (cons_nil (rw (errors_of, g) at h))
  ]

module _ {T A : Type 0} ⦃f : Float T⦄ ⦃e : Eq A⦄ (sorted_set : List A → List A) where
  -- Nothing to the peer is pending or sent without an ACK, and no failure is recorded.
  pub record IsQuiet (s : Sender T A) (a : A) : Type 0 where
    pub pending : at s.pending a ≡ []
    pub sent : at s.sent_items a ≡ []
    pub no_error : get s.peer_errors a ≡ none

  -- One of the looks finds the peer quiet.
  abbrev pub QuietLook : List (Sender T A × T) → A → Type 0
  QuietLook [] a = ⊥
  QuietLook ((s, now) ∷ looks) a = IsQuiet s a ⊎ QuietLook looks a

  IsQuiet-of_empty :
      (s : Sender T A) (a : A)
      → seen_errors sorted_set s (some a) ≡ []
      → seen sorted_set s (some a) ≡ []
      → IsQuiet s a
  unfolding seen_errors seen items_of errors_of
  IsQuiet-of_empty s a h k =
      let (kp, ks) =
        append_empty (values (at s.pending a)) (values (at s.sent_items a))
          (append_empty _ [] k).0 in
      record {
        pending = values_empty (at s.pending a) kp;
        sent = values_empty (at s.sent_items a) ks;
        no_error =
            no_error_of s.peer_errors a (append_empty (errors_of s.peer_errors (a ∷ [])) _ h).0;
      }

  -- If `flush` for a peer returns normally, then at one of its looks nothing to the peer was
  -- pending or sent and unacknowledged, and no failure was recorded.
  pub flush_lem :
      (looks : List (Sender T A × T)) (a : A) (deadline : T)
      → flush sorted_set looks (some a) deadline ≡ some (ok tt)
      → QuietLook looks a
  unfolding flush
  flush_lem [] a deadline h = cc
  flush_lem ((s, now) ∷ looks) a deadline h =
      elim (List-cases (seen_errors sorted_set s (some a))) [
        | inr (x, xs, p) ↦ absurd (not_returned (failed x) (rw (flush, p) at h))
        | inl p ↦ elim (List-cases (seen sorted_set s (some a))) [
          | inl q ↦ inl (IsQuiet-of_empty s a p q)
          | inr (i, is, q) ↦ elim (Bool-cases (le_f (f.sub deadline now) zero_f)) [
            | inl t ↦ absurd (not_returned not_flushed (rw (flush, p, q, t) at h))
            | inr t ↦ inr (flush_lem looks a deadline (rw (flush, p, q, t) at h))
          ]
        ]
      ]

  seen_nothing :
      (s : Sender T A) (payload : List ℕ) (a : A)
      → at s.pending a ≡ []
      → at s.sent_items a ≡ []
      → seen sorted_set (enqueue s payload a) (some a) ≡ []
  unfolding seen items_of enqueue values
  seen_nothing s payload a p q = rw (p, q) refl

  errors_nothing :
      (s : Sender T A) (payload : List ℕ) (a : A)
      → at s.pending a ≡ []
      → at s.sent_items a ≡ []
      → seen_errors sorted_set (enqueue s payload a) (some a) ≡ []
  unfolding seen_errors seen errors_of items_of item_errors enqueue values
  errors_nothing s payload a p q =
      rw (seen_errors, errors_of, get-remove s.peer_errors a a, beq_refl a, p, q) refl

  -- A `flush` for a peer right behind a `sendto` to it returns at once, if nothing earlier is
  -- pending or unacknowledged: the datagram in the outbound queue is not looked at.
  pub flush_misses_queued :
      (s : Sender T A) (payload : List ℕ) (a : A) (now deadline : T) (looks : List (Sender T A × T))
      → at s.pending a ≡ []
      → at s.sent_items a ≡ []
      → flush sorted_set ((enqueue s payload a, now) ∷ looks) (some a) deadline ≡ some (ok tt)
  unfolding flush
  flush_misses_queued s payload a now deadline looks p q =
      rw (flush, errors_nothing s payload a p q, seen_nothing s payload a p q) refl
