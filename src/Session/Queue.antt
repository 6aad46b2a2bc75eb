-- ===== src/Session/Queue.antt =====
-- The offline queue of internal/session/session.go: `Enqueue` and `DrainQueue`.
use broker.Prelude.{
  ℕ, zero, suc, ◌-◌, ◌≤◌, leb, List, [], ◌∷◌, ◌++◌, false, length, drop, length-append, length-drop,
  drop-drop, append_assoc, append-nil, ◌≡◌, refl, sym, ap, ◌∙◌, arith, Bool-cases, inl, inr,
}
use broker.Session.{Session, Queued, enqueue, drain_queue, make_room}

-- The last `n` messages.
abbrev pub newest : ℕ → List Queued → List Queued
newest n xs = drop (length xs - n) xs

abbrev pub enqueue_all : List Queued → Session → Session
enqueue_all [] s = s
enqueue_all (m ∷ ms) s = enqueue_all ms (enqueue m s).0

drop-append : (k : ℕ) (xs ys : List Queued) → k ≤ length xs → drop k (xs ++ ys) ≡ drop k xs ++ ys
drop-append zero xs ys h = refl
drop-append (suc k) [] ys h = absurd (omega arith)
drop-append (suc k) (x ∷ xs) ys h = drop-append k xs ys (omega arith)

drop_at : (k j : ℕ) (xs : List Queued) → k ≡ j → drop k xs ≡ drop j xs
drop_at k j xs e = ap (λ (n : ℕ). drop n xs) e

newest-append : (n : ℕ) (xs ys : List Queued) → newest n (newest n xs ++ ys) ≡ newest n (xs ++ ys)
newest-append n xs ys =
    ap (newest n) (sym (drop-append (length xs - n) xs ys (omega arith)))
    ∙ drop-drop _ (length xs - n) (xs ++ ys)
    ∙ drop_at _ _ (xs ++ ys)
        (omega (arith, length-append xs ys, length-drop (length xs - n) (xs ++ ys)))

make_room-newest :
    (n : ℕ) (m : Queued) (q : List Queued)
    → 1 ≤ n
    → length q ≤ n
    → make_room n q ++ (m ∷ []) ≡ newest n (q ++ (m ∷ []))
make_room-newest n m q room within = elim (Bool-cases (leb n (length q))) [
  | inl full ↦ rw full (
      sym (drop-append 1 q (m ∷ []) (ground arith))
      ∙ drop_at 1 (length (q ++ (m ∷ [])) - n) (q ++ (m ∷ []))
          (ground (arith, length-append q (m ∷ []))))
  | inr space ↦ rw space (
      drop_at 0 (length (q ++ (m ∷ [])) - n) (q ++ (m ∷ []))
        (ground (arith, length-append q (m ∷ []))))
]

newest-le : (n : ℕ) (xs : List Queued) → length (newest n xs) ≤ n
newest-le n xs = omega (arith, length-drop (length xs - n) xs)

newest_of-le : (n : ℕ) (xs : List Queued) → length xs ≤ n → newest n xs ≡ xs
newest_of-le n xs h = drop_at (length xs - n) 0 xs (omega arith)

enqueue-newest :
    (m : Queued) (s : Session)
    → s.clean_session ≡ false
    → 1 ≤ s.max_queue
    → length s.queue ≤ s.max_queue
    → (enqueue m s).0 ≡ record s { queue = newest s.max_queue (s.queue ++ (m ∷ [])) }
unfolding enqueue
enqueue-newest m s kept room within =
    rw (kept, ← make_room-newest s.max_queue m s.queue room within)

enqueue_all-newest :
    (ms : List Queued) (s : Session)
    → s.clean_session ≡ false
    → 1 ≤ s.max_queue
    → length s.queue ≤ s.max_queue
    → enqueue_all ms s ≡ record s { queue = newest s.max_queue (s.queue ++ ms) }
enqueue_all-newest [] s kept room within =
    ap (λ (q : List Queued). record s { queue = q })
      (sym (rw append-nil (newest_of-le s.max_queue s.queue within)))
enqueue_all-newest (m ∷ ms) s kept room within = rw (enqueue-newest m s kept room within) (
    enqueue_all-newest ms _ kept room (newest-le s.max_queue (s.queue ++ (m ∷ [])))
    ∙ ap (λ (q : List Queued). record s { queue = q })
        (newest-append s.max_queue (s.queue ++ (m ∷ [])) ms
          ∙ ap (newest s.max_queue) (append_assoc s.queue (m ∷ []) ms)))

-- For a persistent session whose bound is at least 1 and whose queue is within its bound: after
-- any sequence of calls of `Enqueue`, `DrainQueue` returns the newest messages in the order of
-- their arrival, as many as there are up to the bound, and leaves the queue empty.
pub drain_queue-enqueue_all :
    (ms : List Queued) (s : Session)
    → s.clean_session ≡ false
    → 1 ≤ s.max_queue
    → length s.queue ≤ s.max_queue
    → drain_queue (enqueue_all ms s) ≡ (record s { queue = [] }, newest s.max_queue (s.queue ++ ms))
unfolding drain_queue
drain_queue-enqueue_all ms s kept room within = rw (enqueue_all-newest ms s kept room within)
