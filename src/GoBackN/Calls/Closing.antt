-- ===== src/GoBackN/Calls/Closing.antt =====
-- `close` and the calls that wait or come after it.
use mathlib.Core.Logic.{◌≢◌}
use udp_arq_lab.Prelude.{
  ℕ, ◌≡◌, refl, sym, ap, ◌∙◌, ◌⊎◌, inl, inr, false, some, List, [], ◌∷◌, ◌++◌, Bool-cases,
  Option-cases, List-cases,
}
use udp_arq_lab.Prelude.Dict.{nat_eq_inst, Dict, Eq, get, get_or}
use udp_arq_lab.Prelude.Float.{Float}
use udp_arq_lab.Prelude.Result.{err}
use udp_arq_lab.GoBackN.State.{Sender, GoBackN}
use udp_arq_lab.GoBackN.Calls.{items_of, seen, seen_errors, flush, close}
use udp_arq_lab.GoBackN.Calls.Flush.{append_empty, cons_nil}
use udp_arq_lab.Sliding.{
  Item, Failure, at, failed, values, errors_of, item_errors, fail_items, fail_all,
}

module _ {A : Type 0} where
  failed_items : (d : Dict ℕ (Item A)) → item_errors (values (fail_items d)) ≡ [] → d ≡ []
  unfolding item_errors values fail_items
  failed_items [] h = refl
  failed_items ((k, i) ∷ d) h = absurd (cons_nil h)

  item_errors-append :
      (xs ys : List (Item A)) → item_errors (xs ++ ys) ≡ item_errors xs ++ item_errors ys
  unfolding item_errors
  item_errors-append [] ys = refl
  item_errors-append (x ∷ xs) ys = elim (Option-cases x.error) [
    | inl n ↦ rw (item_errors, n) (item_errors-append xs ys)
    | inr (y, h) ↦ rw (item_errors, h) (ap (λ es. y ∷ es) (item_errors-append xs ys))
  ]

module _ {A : Type 0} ⦃e : Eq A⦄ where
  at-fail_all : (d : Dict A (Dict ℕ (Item A))) (a : A) → at (fail_all d) a ≡ fail_items (at d a)
  unfolding fail_all fail_items get_or get
  at-fail_all [] a = refl
  at-fail_all ((b, x) ∷ d) a = elim (Bool-cases (e.beq b a)) [
    | inl t ↦ rw (get_or, get, t) refl
    | inr t ↦ rw (get_or, get, t) (at-fail_all d a)
  ]

module _ {T A : Type 0} ⦃f : Float T⦄ ⦃e : Eq A⦄ (sorted_set : List A → List A) where
  errors_split :
      (s : Sender T A) (a : A)
      → seen_errors sorted_set s (some a) ≡ []
      → (item_errors (values (at s.pending a)) ≡ [])
        × (item_errors (values (at s.sent_items a)) ≡ [])
  unfolding seen_errors seen items_of
  errors_split s a h =
      let all = (append_empty (errors_of s.peer_errors (a ∷ [])) _ h).1 in
      let both =
        (append_empty _ _ (
          sym (item_errors-append (values (at s.pending a) ++ values (at s.sent_items a)) [])
          ∙ all)).0 in
      append_empty _ _
        (sym (item_errors-append (values (at s.pending a)) (values (at s.sent_items a))) ∙ both)

  closed_items :
      (g : GoBackN T A)
      → g.stopped ≡ false
      → ((close g).sender.pending ≡ fail_all g.sender.pending)
        × ((close g).sender.sent_items ≡ fail_all g.sender.sent_items)
  unfolding close
  closed_items g on = (rw (close, on) refl, rw (close, on) refl)

  no_errors_left :
      (g : GoBackN T A) (a : A)
      → g.stopped ≡ false
      → seen_errors sorted_set (close g).sender (some a) ≡ []
      → (at g.sender.pending a ≡ []) × (at g.sender.sent_items a ≡ [])
  no_errors_left g a on h =
      let (pending, sent) = closed_items g on in
      let (p, s) = errors_split (close g).sender a h in
      (
        failed_items (at g.sender.pending a) (
            ap (λ d. item_errors (values d))
              (sym (ap (λ d. at d a) pending ∙ at-fail_all g.sender.pending a))
            ∙ p),
        failed_items (at g.sender.sent_items a) (
            ap (λ d. item_errors (values d))
              (sym (ap (λ d. at d a) sent ∙ at-fail_all g.sender.sent_items a))
            ∙ s),
      )

  -- If anything to the peer is pending or unacknowledged when the transport is closed, a `flush`
  -- for that peer that looks at the closed transport raises.
  pub close-flush :
      (g : GoBackN T A) (a : A) (now deadline : T) (looks : List (Sender T A × T))
      → g.stopped ≡ false
      → (at g.sender.pending a ≢ []) ⊎ (at g.sender.sent_items a ≢ [])
      → (x : Failure) × (flush sorted_set (((close g).sender, now) ∷ looks) (some a) deadline
          ≡ some (err (failed x)))
  unfolding flush
  close-flush g a now deadline looks on busy =
      elim (List-cases (seen_errors sorted_set (close g).sender (some a))) [
        | inl h ↦ absurd (elim busy [
          | inl p ↦ p (no_errors_left g a on h).0
          | inr s ↦ s (no_errors_left g a on h).1
        ])
        | inr (x, xs, h) ↦ (x, rw (flush, h) refl)
      ]
