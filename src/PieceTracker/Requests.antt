-- ===== src/PieceTracker/Requests.antt =====
-- Asking for blocks: `next_pending_request` and `next_requests`.
use native.Mathlib.Nat.{zero-add}
use learntorrent.Base.{
  subst, ltb→lt, ltb→lt, ℕ, zero, suc, ◌+◌, ◌-◌, ◌%◌, ◌^◌, ◌≤◌, ◌<◌, ◌≡◌, refl, sym, ap, ◌∙◌, true,
  none, some, List, [], ◌∷◌, ◌++◌, ltb, arith, length, length-append, take, ◌⊎◌, inl, inr,
  Bool-cases, Option, append_assoc, append-nil, drop-append,
}
use learntorrent.PieceTracker.{
  sub64, PendingBlockRequest, PieceTracker, block_len, next_pending_request, push_pending,
  queue_requests, next_requests, new_slice, new_requests_of,
}
use learntorrent.PieceTracker.Invariant.{
  IsConsistent, block_size, planned-grow, count_pending-snoc, pending_bytes-snoc,
}

-- The request for the block at the offset of the tracker, and the tracker once it is pending.
abbrev pub next_block : PieceTracker → PendingBlockRequest
next_block t = record { offset = t.offset; size = block_size t.piece_size t.offset }

abbrev pub advance : PieceTracker → PieceTracker
advance t = record t { offset = t.offset + block_size t.piece_size t.offset }

next_pending_request_more :
    (t : PieceTracker)
    → t.piece_size < 2 ^ 32
    → t.offset < t.piece_size
    → next_pending_request t ≡ (some (next_block t), advance t)
unfolding next_pending_request
next_pending_request_more t h m = ground arith

next_pending_request_done :
    (t : PieceTracker)
    → t.piece_size < 2 ^ 32
    → t.offset ≡ t.piece_size
    → next_pending_request t ≡ (none, t)
unfolding next_pending_request
next_pending_request_done t h m = ground arith

advance-IsConsistent :
    (t : PieceTracker)
    → IsConsistent t
    → t.offset < t.piece_size
    → IsConsistent (push_pending (advance t) (next_block t))
advance-IsConsistent t c m =
    let a : t.offset % block_len ≡ 0 = ground (arith, c.aligned) in
    record {
      word = c.word;
      in_piece = ground arith;
      aligned = ground arith;
      once = λ offset size. omega (
        arith,
        c.once offset size,
        planned-grow t.piece_size t.offset offset size a m,
        count_pending-snoc offset size t.pending_requests (next_block t),
      );
      asked = omega (arith, c.asked, pending_bytes-snoc t.pending_requests (next_block t));
      left = c.left;
    }

-- What `queue_requests` does: it appends requests until the rounds or the blocks run out.
pub record Queued (rounds queued : ℕ) (t : PieceTracker) (r : Option ℕ × PieceTracker)
    : Type 0 where
  pub fresh : List PendingBlockRequest
  pub appended : r.1.pending_requests ≡ t.pending_requests ++ fresh
  pub consistent : IsConsistent r.1
  pub full :
      (r.0 ≡ none) × (length fresh ≡ rounds)
      ⊎ (r.0 ≡ some (queued + length fresh))
        × (length fresh < rounds)
        × (r.1.offset ≡ r.1.piece_size)
  pub same_piece : (r.1.pid ≡ t.pid) × (r.1.piece_size ≡ t.piece_size)
  pub same_completed : r.1.completed_requests ≡ t.completed_requests

queue_requests_more :
    (rounds queued : ℕ) (t : PieceTracker)
    → t.piece_size < 2 ^ 32
    → t.offset < t.piece_size
    → queue_requests (suc rounds) queued t
      ≡ queue_requests rounds (queued + 1) (push_pending (advance t) (next_block t))
unfolding queue_requests
queue_requests_more rounds queued t h m = rw (next_pending_request_more t h m)

queue_requests_done :
    (rounds queued : ℕ) (t : PieceTracker)
    → t.piece_size < 2 ^ 32
    → t.offset ≡ t.piece_size
    → queue_requests (suc rounds) queued t ≡ (some queued, t)
unfolding queue_requests
queue_requests_done rounds queued t h m = rw (next_pending_request_done t h m)

queue_requests-Queued :
    (rounds queued : ℕ) (t : PieceTracker)
    → IsConsistent t
    → Queued rounds queued t (queue_requests rounds queued t)
queue_requests-Queued zero queued t c =
    unfold queue_requests in
    record {
      fresh = [];
      appended = sym (append-nil t.pending_requests);
      consistent = c;
      full = inl (refl, refl);
      same_piece = (refl, refl);
      same_completed = refl;
    }
queue_requests-Queued (suc rounds) queued t c = elim (Bool-cases (ltb t.offset t.piece_size)) [
  | inl more ↦
      let m = ltb→lt t.offset t.piece_size more in
      let t' = push_pending (advance t) (next_block t) in
      let q = queue_requests-Queued rounds (queued + 1) t' (advance-IsConsistent t c m) in
      subst (Queued (suc rounds) queued t) (sym (queue_requests_more rounds queued t c.word m))
        (record {
          fresh = next_block t ∷ q.fresh;
          appended = q.appended ∙ append_assoc t.pending_requests (next_block t ∷ []) q.fresh;
          consistent = q.consistent;
          full = elim q.full [
            | inl (e, n) ↦ inl (e, ap suc n)
            | inr (e, n, d) ↦ inr (e ∙ ap some (omega arith), omega arith, d)
          ];
          same_piece = q.same_piece;
          same_completed = q.same_completed;
        })
  | inr done ↦
      let d : t.offset ≡ t.piece_size = ground (arith, c.in_piece) in
      subst (Queued (suc rounds) queued t) (sym (queue_requests_done rounds queued t c.word d))
        (record {
          fresh = [];
          appended = sym (append-nil t.pending_requests);
          consistent = c;
          full = inr (ap some (omega arith), omega arith, d);
          same_piece = (refl, refl);
          same_completed = refl;
        })
]

next_requests_room :
    (t : PieceTracker)
    → length t.pending_requests < 5
    → next_requests t
      ≡ new_requests_of
          (length t.pending_requests)
          (queue_requests (5 - length t.pending_requests) 0 t)
unfolding next_requests
next_requests_room t h =
    rw (room (length t.pending_requests) h, some_room (length t.pending_requests) h)
  where
    room : (n : ℕ) → n < 5 → sub64 5 n ≡ 5 - n
    room n h = omega arith

    some_room : (n : ℕ) → n < 5 → ltb 0 (5 - n) ≡ true
    some_room n h = ground arith

next_requests_full : (t : PieceTracker) → length t.pending_requests ≡ 5 → next_requests t ≡ ([], t)
unfolding next_requests
next_requests_full t h = rw h

-- After `next_requests`.
pub record Requested (t : PieceTracker) (r : List PendingBlockRequest × PieceTracker) : Type 0 where
  pub consistent : IsConsistent r.1
  pub window : length r.1.pending_requests ≤ 5
  pub filled : (length r.1.pending_requests ≡ 5) ⊎ (r.1.offset ≡ r.1.piece_size)
  pub fresh : List PendingBlockRequest
  pub appended : r.1.pending_requests ≡ t.pending_requests ++ fresh
  pub sent : (length t.pending_requests ≡ 0) ⊎ (4 ≤ length t.pending_requests) → r.0 ≡ fresh
  pub same_piece : (r.1.pid ≡ t.pid) × (r.1.piece_size ≡ t.piece_size)
  pub same_completed : r.1.completed_requests ≡ t.completed_requests

take-length {ℓ} : {A : Type ℓ} (xs : List A) → take (length xs) xs ≡ xs
take-length [] = refl
take-length (x ∷ xs) = ap (λ t. x ∷ t) (take-length xs)

-- The slice that stopping early picks, `[..queued]`, holds the fresh requests if there were no
-- others, or if there was room for one alone.
stopped_slice :
    (pending fresh : List PendingBlockRequest)
    → length fresh < 5 - length pending
    → (length pending ≡ 0) ⊎ (4 ≤ length pending)
    → take (length fresh) (pending ++ fresh) ≡ fresh
stopped_slice [] fresh h n = take-length fresh
stopped_slice (r ∷ pending) [] h n = refl
stopped_slice (r ∷ pending) (f ∷ fresh) h n = absurd (ground arith)

sent_slice :
    (pending fresh : List PendingBlockRequest) (stopped : Option ℕ)
    → (stopped ≡ none) ⊎ (stopped ≡ some (0 + length fresh)) × (length fresh < 5 - length pending)
    → (length pending ≡ 0) ⊎ (4 ≤ length pending)
    → new_slice (length pending) stopped (pending ++ fresh) ≡ fresh
sent_slice pending fresh stopped (inl e) n = rw (e, new_slice) (drop-append pending fresh)
sent_slice pending fresh stopped (inr (e, h)) n =
    rw (e, new_slice, zero-add) (stopped_slice pending fresh h n)

Queued-Requested :
    (t : PieceTracker) (r : Option ℕ × PieceTracker)
    → length t.pending_requests < 5
    → Queued (5 - length t.pending_requests) 0 t r
    → Requested t (new_requests_of (length t.pending_requests) r)
unfolding new_requests_of
Queued-Requested t r h q =
    let len = ap length q.appended ∙ length-append t.pending_requests q.fresh in
    record {
      consistent = q.consistent;
      window = elim q.full [
        | inl (e, n) ↦ omega (arith, len, n)
        | inr (e, n, d) ↦ omega (arith, len, n)
      ];
      filled = elim q.full [ inl (e, n) ↦ inl (omega (arith, len, n)) | inr (e, n, d) ↦ inr d ];
      fresh = q.fresh;
      appended = q.appended;
      sent = λ n.
          ap (new_slice (length t.pending_requests) r.0) q.appended
          ∙ sent_slice t.pending_requests q.fresh r.0
              (elim q.full [ inl (e, _) ↦ inl e | inr (e, n, d) ↦ inr (e, n) ]) n;
      same_piece = q.same_piece;
      same_completed = q.same_completed;
    }

-- On a consistent tracker with at most five pending requests, `next_requests` leaves a consistent
-- tracker with at most five; it appends fresh requests, and only the end of the piece stops it
-- short of five. If there was no pending request, or at least four, the slice that it returns is
-- the fresh ones. The piece and the completed blocks stay.
pub next_requests-Requested :
    (t : PieceTracker)
    → IsConsistent t
    → length t.pending_requests ≤ 5
    → Requested t (next_requests t)
next_requests-Requested t c h = elim (Bool-cases (ltb (length t.pending_requests) 5)) [
  | inl room ↦ subst (Requested t) (sym (next_requests_room t (ltb→lt _ _ room))) (
      Queued-Requested t _ (ltb→lt _ _ room)
        (queue_requests-Queued (5 - length t.pending_requests) 0 t c))
  | inr full ↦
      let five : length t.pending_requests ≡ 5 = ground (arith, full) in
      subst (Requested t) (sym (next_requests_full t five)) (record {
        consistent = c;
        window = h;
        filled = inl five;
        fresh = [];
        appended = sym (append-nil t.pending_requests);
        sent = λ n. refl;
        same_piece = (refl, refl);
        same_completed = refl;
      })
]
