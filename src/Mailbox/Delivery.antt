-- ===== src/Mailbox/Delivery.antt =====
-- Reliable items are delivered once, and in order.
use mathlib.Core.List.{append_assoc, append-nil}
use hype_edge.Common.{
  ◌≡◌, refl, sym, ap, ◌∙◌, inl, inr, Bool, true, false, not, List, [], ◌∷◌, ◌++◌, arith,
  keep-append, Bool-cases,
}
use hype_edge.Mailbox.{Mailbox, put, put_lossy, try_recv, try_recv_forced, close}
use hype_edge.Mailbox.Eviction.{reliable, put_lossy_cases, put_lossy_closed}
use hype_edge.Mailbox.Steps.{Step, offer, force, receive, shut, Trace, step, run}

module _ {A : Type 0} (is_lossy : A → Bool) where
  -- The reliable items that came out and those that still wait are those taken in, in that order.
  abbrev pub IsAccounted : Trace A → Type 0
  IsAccounted t = reliable is_lossy t.received ++ reliable is_lossy t.box.items ≡ t.accepted

  pub reliable-push_lossy :
      (xs : List A) (a : A)
      → is_lossy a ≡ true
      → reliable is_lossy (xs ++ a ∷ []) ≡ reliable is_lossy xs
  reliable-push_lossy xs a h =
      keep-append (λ x. not (is_lossy x)) xs (a ∷ [])
      ∙ ground (arith, append-nil (reliable is_lossy xs))

  put_lossy-reliable :
      (m : Mailbox A) (a : A)
      → is_lossy a ≡ true
      → reliable is_lossy (put_lossy is_lossy m a).0.items ≡ reliable is_lossy m.items
  put_lossy-reliable m a h = elim (Bool-cases m.closed) [
    | inl gone ↦ rw (put_lossy_closed is_lossy m a gone)
    | inr open_box ↦ elim (put_lossy_cases is_lossy m a open_box) [
      | inl (room, e) ↦ rw e (reliable-push_lossy m.items a h)
      | inr (inl (xs, full, shorter, same, e)) ↦ rw e (reliable-push_lossy xs a h ∙ same)
      | inr (inr (full, _, e)) ↦ rw e
    ]
  ]

  reliable-push :
      (xs : List A) (a : A)
      → is_lossy a ≡ false
      → reliable is_lossy (xs ++ a ∷ []) ≡ reliable is_lossy xs ++ a ∷ []
  reliable-push xs a h = rw (keep-append (λ x. not (is_lossy x)) xs (a ∷ [])) (rw h)

  accept :
      (t : Trace A) (a : A)
      → is_lossy a ≡ false
      → IsAccounted t
      → reliable is_lossy t.received ++ reliable is_lossy (t.box.items ++ a ∷ [])
        ≡ t.accepted ++ a ∷ []
  accept t a h acc = rw (reliable-push t.box.items a h) (
      sym (append_assoc (reliable is_lossy t.received) (reliable is_lossy t.box.items) (a ∷ []))
      ∙ ap (λ (l : List A). l ++ a ∷ []) acc)

  hand_on :
      (rs xs : List A) (x : A)
      → reliable is_lossy (rs ++ x ∷ []) ++ reliable is_lossy xs
        ≡ reliable is_lossy rs ++ reliable is_lossy (x ∷ xs)
  hand_on rs xs x = rw (keep-append (λ y. not (is_lossy y)) rs (x ∷ [])) (
      append_assoc (reliable is_lossy rs) (reliable is_lossy (x ∷ [])) (reliable is_lossy xs)
      ∙ ap (λ (l : List A). reliable is_lossy rs ++ l) (joined x))
    where
      joined :
          (x : A) → reliable is_lossy (x ∷ []) ++ reliable is_lossy xs ≡ reliable is_lossy (x ∷ xs)
      joined x = ground arith

  receive-IsAccounted :
      (t : Trace A) (items : List A)
      → t.box.items ≡ items
      → IsAccounted t
      → IsAccounted (step is_lossy t receive)
  unfolding step try_recv
  receive-IsAccounted t [] e acc = ground (arith, append-nil t.received)
  receive-IsAccounted t (x ∷ xs) e acc = ground (arith, hand_on t.received xs x)

  step-IsAccounted : (t : Trace A) (s : Step A) → IsAccounted t → IsAccounted (step is_lossy t s)
  unfolding step put try_recv_forced close
  step-IsAccounted t (offer a) acc =
      ground (arith, accept t a, put_lossy-reliable t.box a, append-nil t.accepted)
  step-IsAccounted t (force a) acc =
      ground (arith, accept t a, put_lossy-reliable t.box a, append-nil t.accepted)
  step-IsAccounted t receive acc = receive-IsAccounted t t.box.items refl acc
  step-IsAccounted t shut acc = acc

  -- For every interleaving of asynchronous and synchronous publishers, consumers and closings,
  -- started where it holds: the reliable items received so far, followed by the reliable items
  -- still queued, are exactly the reliable items that the mailbox accepted, in the order of
  -- acceptance. So no reliable item is lost, repeated or overtaken by another, whatever lossy
  -- items are evicted.
  pub run-IsAccounted :
      (t : Trace A) (ss : List (Step A)) → IsAccounted t → IsAccounted (run is_lossy t ss)
  unfolding run
  run-IsAccounted t [] acc = acc
  run-IsAccounted t (s ∷ ss) acc = run-IsAccounted (step is_lossy t s) ss (step-IsAccounted t s acc)
