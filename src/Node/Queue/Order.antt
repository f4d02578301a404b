-- ===== src/Node/Queue/Order.antt =====
-- node/src/bounded-async-queue.ts: the values over any calls.
use mathlib.Core.List.{append_assoc}
use agent_relay.Prelude.{
  ℕ, ◌≡◌, refl, sym, ap, ◌∙◌, true, false, none, some, List, [], ◌∷◌, ◌++◌, arith, if◌then◌else◌,
  Result, ok, err, ◌⊎◌, inl, inr, Result-cases, Bool-cases,
}
use agent_relay.Node.Queue.{
  QueuedValue, Error, Answer, Queue, Answers, push, close, next, answer_all,
}
use agent_relay.Node.Queue.Calls.{Call}
use agent_relay.Node.Queue.Bounds.{IsValid, push-IsValid, close-IsValid, next-IsValid}

abbrev pub held {ℓ} : {T : Type ℓ} → List (QueuedValue T) → List T
held [] = []
held (x ∷ xs) = x.value ∷ held xs

held-append {ℓ} : {T : Type ℓ} (xs ys : List (QueuedValue T)) → held (xs ++ ys) ≡ held xs ++ held ys
held-append [] ys = refl
held-append (x ∷ xs) ys = ap (λ rest. x.value ∷ rest) (held-append xs ys)

append_nil {ℓ} : {T : Type ℓ} (xs : List T) → xs ++ [] ≡ xs
append_nil [] = refl
append_nil (x ∷ xs) = ap (λ rest. x ∷ rest) (append_nil xs)

-- The values that readers were given, in the order of the answers.
abbrev pub delivered {ℓ κ} : {T : Type ℓ} {F : Type κ} → Answers T F → List T
delivered [] = []
delivered ((reader, Answer.value x) ∷ rest) = x ∷ delivered rest
delivered ((reader, Answer.ended) ∷ rest) = delivered rest
delivered ((reader, Answer.failed e) ∷ rest) = delivered rest

delivered-ended {ℓ κ} :
    (T : Type ℓ) (F : Type κ) (readers : List ℕ)
    → delivered {T = T} {F = F} (answer_all Answer.ended readers) ≡ []
delivered-ended T F [] = refl
delivered-ended T F (r ∷ rs) = delivered-ended T F rs

delivered-failed {ℓ κ} :
    (T : Type ℓ) {F : Type κ} (e : F) (readers : List ℕ)
    → delivered {T = T} (answer_all (Answer.failed e) readers) ≡ []
delivered-failed T e [] = refl
delivered-failed T e (r ∷ rs) = delivered-failed T e rs

module _ {ℓ κ} {T : Type ℓ} {F : Type κ} where
  abbrev pub or_stay : Queue T F → Result Error (Queue T F × Answers T F) → Queue T F × Answers T F
  or_stay q (ok r) = r
  or_stay q (err e) = (q, [])

  -- A call; one that throws leaves the queue.
  unfoldable pub perform : Queue T F → Call T F → Queue T F × Answers T F
  perform q (Call.push x weight) = or_stay q (push q x weight)
  perform q (Call.close error) = close q error
  perform q (Call.next reader) = next q reader

  -- The value that a call hands to the queue, unless it is refused or the queue is closed.
  unfoldable pub taken : Queue T F → Call T F → List T
  taken q (Call.push x weight) = elim (push q x weight) [
    | ok r ↦ if q.closed then [] else x ∷ []
    | err e ↦ []
  ]
  taken q call = []

  unfoldable pub run : Queue T F → List (Call T F) → Queue T F × List T × List T
  run q [] = (q, [], [])
  run q (call ∷ calls) =
      let first = perform q call in
      let rest = run first.0 calls in (rest.0, taken q call ++ rest.1, delivered first.1 ++ rest.2)

  pub perform-IsValid : (q : Queue T F) (call : Call T F) → IsValid q → IsValid (perform q call).0
  unfolding perform
  perform-IsValid q (Call.push x weight) v = elim (Result-cases (push q x weight)) [
    | inl (e, refused) ↦ rw refused v
    | inr (r, pushed) ↦ rw pushed (push-IsValid q x weight r v pushed)
  ]
  perform-IsValid q (Call.close error) v = close-IsValid q error v
  perform-IsValid q (Call.next reader) v = next-IsValid q reader v

  push-order :
      (q : Queue T F) (x : T) (weight : ℕ)
      → IsValid q
      → held q.values ++ taken q (Call.push x weight)
        ≡ delivered (perform q (Call.push x weight)).1
          ++ held (perform q (Call.push x weight)).0.values
  unfolding taken perform push
  push-order q x weight v = ground (
    arith,
    held-append q.values (record { value = x; weight = weight } ∷ []),
    append_nil (held q.values),
  )

  next-order :
      (q : Queue T F) (reader : ℕ)
      → q.failure ≡ none
      → held q.values ≡ delivered (next q reader).1 ++ held (next q reader).0.values
  unfolding next
  next-order q reader h = ground arith

  -- Ending without an error keeps what is held; failing drops it, and delivers nothing.
  close-order :
      (q : Queue T F)
      → (delivered (close q none).1 ≡ []) × (held (close q none).0.values ≡ held q.values)
  unfolding close
  close-order q = ground (arith, delivered-ended T F q.waiters)

  close-fails :
      (q : Queue T F) (e : F)
      → q.closed ≡ false
      → (delivered (close q (some e)).1 ≡ []) × ((close q (some e)).0.failure ≡ some e)
  unfolding close
  close-fails q e h = ground (arith, delivered-failed T e q.waiters)

  -- A queue that has failed stays as it is, takes nothing and gives nothing.
  perform-failed :
      (q : Queue T F) (call : Call T F) (e : F)
      → q.failure ≡ some e
      → q.closed ≡ true
      → ((perform q call).0 ≡ q) × (delivered (perform q call).1 ≡ []) × (taken q call ≡ [])
  unfolding perform taken push close next
  perform-failed q (Call.push x weight) e f c = ground arith
  perform-failed q (Call.close error) e f c = ground arith
  perform-failed q (Call.next reader) e f c = ground arith

  run-failed :
      (q : Queue T F) (calls : List (Call T F)) (e : F)
      → q.failure ≡ some e
      → q.closed ≡ true
      → ((run q calls).0.failure ≡ some e) × ((run q calls).1 ≡ []) × ((run q calls).2 ≡ [])
  unfolding run
  run-failed q [] e f c = (f, refl, refl)
  run-failed q (call ∷ calls) e f c =
      let (same, silent, none_taken) = perform-failed q call e f c in
      rw (same, silent, none_taken) (run-failed q calls e f c)

  push-failure :
      (q : Queue T F) (x : T) (weight : ℕ) → (perform q (Call.push x weight)).0.failure ≡ q.failure
  unfolding perform push
  push-failure q x weight = ground arith

  next-failure : (q : Queue T F) (reader : ℕ) → (next q reader).0.failure ≡ q.failure
  unfolding next
  next-failure q reader = ground arith

  close-closed : (q : Queue T F) (e : F) → (close q (some e)).0.closed ≡ true
  unfolding close
  close-closed q e = ground arith

  close-again :
      (q : Queue T F) (e : F)
      → q.closed ≡ true
      → ((close q (some e)).0 ≡ q) × (delivered (close q (some e)).1 ≡ [])
  unfolding close
  close-again q e h = ground arith

  perform-order :
      (q : Queue T F) (call : Call T F)
      → IsValid q
      → q.failure ≡ none
      → ((perform q call).0.failure ≡ none)
          × (held q.values ++ taken q call
              ≡ delivered (perform q call).1 ++ held (perform q call).0.values)
        ⊎ ((e : F) × ((perform q call).0.failure ≡ some e)
            × ((perform q call).0.closed ≡ true)
            × (delivered (perform q call).1 ≡ [])
            × (taken q call ≡ []))
  unfolding perform taken close
  perform-order q (Call.push x weight) v f =
      inl (push-failure q x weight ∙ f, push-order q x weight v)
  perform-order q (Call.close none) v f =
      inl (ground arith, ground (arith, close-order q, append_nil (held q.values)))
  perform-order q (Call.close (some e)) v f = elim (Bool-cases q.closed) [
    | inl again ↦
        let (same, silent) = close-again q e again in
        inl (ap (λ p. p.failure) same ∙ f, rw (same, silent) (append_nil (held q.values)))
    | inr first ↦
        let (silent, failed) = close-fails q e first in
        inr (e, failed, close-closed q e, silent, refl)
  ]
  perform-order q (Call.next reader) v f =
      inl (next-failure q reader ∙ f, append_nil (held q.values) ∙ next-order q reader f)

  -- Values come out in the order in which they went in, none twice and none left out: what the queue
  -- held and took is what the readers were given, followed by what it still holds, or, once it has
  -- been closed with an error, by what it then dropped.
  pub run-order :
      (q : Queue T F) (calls : List (Call T F))
      → IsValid q
      → q.failure ≡ none
      → (rest : List T) × (held q.values ++ (run q calls).1 ≡ (run q calls).2 ++ rest)
        × ((run q calls).0.failure ≡ none → rest ≡ held (run q calls).0.values)
  unfolding run
  run-order q [] v f = (held q.values, append_nil (held q.values), λ g. refl)
  run-order q (call ∷ calls) v f = elim (perform-order q call v f) [
    | inl (open_still, order) ↦
        let (rest, later, left) =
          run-order (perform q call).0 calls (perform-IsValid q call v) open_still in
        (
          rest,
          sym (append_assoc (held q.values) (taken q call) (run (perform q call).0 calls).1)
              ∙ ap (λ xs. xs ++ (run (perform q call).0 calls).1) order
              ∙ append_assoc (delivered (perform q call).1) (held (perform q call).0.values)
                  (run (perform q call).0 calls).1
              ∙ ap (λ xs. delivered (perform q call).1 ++ xs) later
              ∙ sym (
                  append_assoc (delivered (perform q call).1) (run (perform q call).0 calls).2
                    rest),
          left,
        )
    | inr (e, failed, closed, silent, none_taken) ↦
        let (after, no_more, no_answer) = run-failed (perform q call).0 calls e failed closed in
        (
          held q.values,
          rw (silent, none_taken, no_more, no_answer) (append_nil (held q.values)),
          λ g. cc (g, after),
        )
  ]
