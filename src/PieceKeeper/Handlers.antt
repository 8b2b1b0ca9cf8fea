-- ===== src/PieceKeeper/Handlers.antt =====
-- What the handlers of the keeper do to its state, and what they send.
use learntorrent.Base.{
  ==→eq, ℕ, ◌+◌, ◌^◌, ◌<◌, ◌≡◌, refl, ◌∙◌, sym, subst, Bool, true, false, ◌||◌, List, [], ◌∷◌, ◌==◌,
  if◌then◌else◌, to_nat, arith, Bool-cases, Option-cases, inl, inr, remove,
}
use learntorrent.Base.Words.{sub32}
use learntorrent.Base.Outcome.{ok}
use learntorrent.Base.Maps
use learntorrent.Base.Maps.{Values, count}
use learntorrent.BitField.{BitField}
use learntorrent.BitField.Laws
use learntorrent.PieceList.{PieceList}
use learntorrent.PieceList.Spec.{covers, IsCanonical, contains_lem, canonical_ext}
use learntorrent.PieceList.Union.{with_piece, with_piece-canonical, with_piece-covers}
use learntorrent.PieceList.Insert.{insert-with_piece}
use learntorrent.PieceTracker.{ValidatedPiece}
use learntorrent.PieceKeeper.{
  PieceKeeper, Sent, Handled, to_io, complete, entry, entry_or_new, on_have_msg, on_bitfield_msg,
  on_piece_failed, on_piece_finished_msg, on_register_msg, on_deregister_msg,
}
use learntorrent.PieceKeeper.Invariant.{Fits, IsConsistent}
use learntorrent.PieceList.Size.{IsBelow-covers, with_piece-size, size_le}

-- How often the piece `p` is sent to the I/O task, and how often the completion is notified.
abbrev pub writes : ℕ → List Sent → ℕ
writes p [] = 0
writes p (to_io vp ∷ sent) = to_nat (vp.pid == p) + writes p sent
writes p (_ ∷ sent) = writes p sent

abbrev pub completions : List Sent → ℕ
completions [] = 0
completions (complete ∷ sent) = 1 + completions sent
completions (_ ∷ sent) = completions sent

-- What a handler may do to a consistent keeper. A piece goes to the I/O task exactly when it
-- becomes finished, and the completion is notified exactly when no piece is missing any more.
pub record Next (k : PieceKeeper) (r : PieceKeeper × List Sent) : Type 0 where
  pub consistent : IsConsistent r.0
  pub same_count : r.0.piece_count ≡ k.piece_count
  pub written :
      (p : ℕ)
      → writes p r.1 + to_nat (covers k.finished_pieces p) ≡ to_nat (covers r.0.finished_pieces p)
  pub notified : completions r.1 + to_nat (k.missing_pieces == 0) ≡ to_nat (r.0.missing_pieces == 0)

pub data Handles (k : PieceKeeper) : Handled → Type 0 where
  handled : (r : PieceKeeper × List Sent) → Next k r → Handles k (ok r)

-- A handler that changes neither pieces nor queue.
keeps :
    (k : PieceKeeper) (peers_pieces : List (ℕ × BitField)) (peers : List ℕ) (sent : List Sent)
    → IsConsistent k
    → Values (Fits k.piece_count) peers_pieces
    → ((p : ℕ) → writes p sent ≡ 0)
    → completions sent ≡ 0
    → Handles k (ok (record k { peers_pieces = peers_pieces; peers = peers }, sent))
keeps k peers_pieces peers sent c f w n = handled _ (record {
  consistent = record {
    small = c.small;
    queue = c.queue;
    finished = c.finished;
    once = c.once;
    tally = c.tally;
    fields = f;
  };
  same_count = refl;
  written = λ p. omega (arith, w p);
  notified = omega (arith, n);
})

entry-Fits : (k : PieceKeeper) (task_id : ℕ) → IsConsistent k → Fits k.piece_count (entry k task_id)
entry-Fits k task_id c = elim (Option-cases (Maps.lookup task_id k.peers_pieces)) [
  | inl e ↦ rw (e, entry_or_new) (Laws.new_empty_shape k.piece_count c.small)
  | inr (bf, e) ↦
      rw e (Maps.lookup-Values (Fits k.piece_count) task_id bf k.peers_pieces e c.fields)
]

pub on_have_msg-Handles :
    (k : PieceKeeper) (task_id piece_id : ℕ)
    → IsConsistent k
    → piece_id < k.piece_count
    → Handles k (on_have_msg k task_id piece_id)
unfolding on_have_msg
on_have_msg-Handles k task_id piece_id c h =
    let f = entry-Fits k task_id c in
    let (bf, e, _, len, bytes) =
      Laws.has_piece-set_piece (entry k task_id) piece_id piece_id f.0 (omega (arith, f.1))
        (omega (arith, f.1)) in
    rw e (
      keeps k (Maps.insert task_id bf k.peers_pieces) k.peers [] c
        (Maps.insert-Values (Fits k.piece_count) task_id bf k.peers_pieces
          (bytes, omega (arith, len, f.1)) c.fields)
        (λ p. refl) refl)

pub on_bitfield_msg-Handles :
    (k : PieceKeeper) (task_id : ℕ) (bytes : BitField)
    → IsConsistent k
    → Fits k.piece_count bytes
    → Handles k (on_bitfield_msg k task_id bytes)
unfolding on_bitfield_msg
on_bitfield_msg-Handles k task_id bytes c h =
    keeps k (Maps.insert task_id bytes k.peers_pieces) k.peers [] c
      (Maps.insert-Values (Fits k.piece_count) task_id bytes k.peers_pieces h c.fields) (λ p. refl)
      refl

pub on_register_msg-Handles :
    (k : PieceKeeper) (task_id : ℕ) → IsConsistent k → Handles k (on_register_msg k task_id)
unfolding on_register_msg
on_register_msg-Handles k task_id c = keeps k k.peers_pieces _ _ c c.fields (λ p. refl) refl

pub on_deregister_msg-Handles :
    (k : PieceKeeper) (task_id : ℕ) → IsConsistent k → Handles k (on_deregister_msg k task_id)
unfolding on_deregister_msg
on_deregister_msg-Handles k task_id c =
    keeps k (Maps.delete task_id k.peers_pieces) _ [] c
      (Maps.delete-Values (Fits k.piece_count) task_id k.peers_pieces c.fields) (λ p. refl) refl

already_in :
    (blocks : PieceList) (pid : ℕ)
    → IsCanonical blocks
    → pid < 2 ^ 32
    → covers blocks pid ≡ true
    → with_piece pid blocks ≡ blocks
already_in blocks pid c h m =
    canonical_ext 0 _ _ (with_piece-canonical 0 pid blocks (omega arith) h c) c
      (λ q. with_piece-covers 0 pid q blocks c ∙ absorbed q)
  where
    absorbed : (q : ℕ) → ((pid == q) || covers blocks q) ≡ covers blocks q
    absorbed q = elim (Bool-cases (pid == q)) [
      | inl e ↦ rw e (sym (subst (λ t. covers blocks t ≡ true) (==→eq pid q e) m))
      | inr e ↦ rw e
    ]

-- On a consistent keeper the report that a piece of the torrent failed changes nothing and sends
-- nothing.
pub on_piece_failed_idle :
    (k : PieceKeeper) (pid : ℕ)
    → IsConsistent k
    → pid < k.piece_count
    → on_piece_failed k pid ≡ ok (k, [])
unfolding on_piece_failed
on_piece_failed_idle k pid c h = elim (contains_lem k.finished_pieces pid) [
  | inr (j, b, e, _, _, m) ↦ rw e
  | inl (e, m) ↦ elim (Maps.has-count pid k.pending_pieces) [
    | inl (p, _) ↦ rw (e, p)
    | inr (p, n) ↦
        rw (e, p)
          (rw (insert-with_piece k.piece_queue pid c.queue (omega (arith, h, c.small))) (
            rw (
              already_in k.piece_queue pid c.queue (omega (arith, h, c.small))
                (ground (arith, c.once pid, m, n)))))
  ]
]

stays : (k : PieceKeeper) → IsConsistent k → Next k (k, [])
stays k c = record {
  consistent = c;
  same_count = refl;
  written = λ p. omega arith;
  notified = omega arith;
}

abbrev finish_sent : ValidatedPiece → Bool → List Sent
finish_sent vp last = if last then complete ∷ to_io vp ∷ [] else to_io vp ∷ []

finishes :
    (k : PieceKeeper) (vp : ValidatedPiece) (i : ℕ)
    → IsConsistent k
    → ((q : ℕ)
        → count q (remove k.pending_pieces i) + to_nat (vp.pid == q) ≡ count q k.pending_pieces)
    → let k' : PieceKeeper = record k {
      pending_pieces = remove k.pending_pieces i;
      finished_pieces = with_piece vp.pid k.finished_pieces;
      missing_pieces = sub32 k.missing_pieces 1;
    } in
      Next k (k', finish_sent vp (sub32 k.missing_pieces 1 == 0))
finishes k vp i c taken =
    let pid = vp.pid in
    let new_piece : covers k.finished_pieces pid ≡ false = ground (arith, taken pid, c.once pid) in
    let in_torrent : pid < k.piece_count = ground (arith, taken pid, c.once pid) in
    let covered = λ (q : ℕ). with_piece-covers 0 pid q k.finished_pieces c.finished in
    let grown = with_piece-size 0 pid k.finished_pieces c.finished new_piece in
    let some_missing : 0 < k.missing_pieces = omega (
      arith,
      c.tally,
      grown,
      size_le 0 k.piece_count (with_piece pid k.finished_pieces)
          (with_piece-canonical 0 pid k.finished_pieces (omega arith) (omega (arith, c.small))
            c.finished)
          (IsBelow-covers 0 k.piece_count _
            (with_piece-canonical 0 pid k.finished_pieces (omega arith) (omega (arith, c.small))
              c.finished)
            (λ q m. ground (arith, m, c.once q, covered q, in_torrent))),
    ) in
    record {
      consistent = record {
        small = c.small;
        queue = c.queue;
        finished =
            with_piece-canonical 0 pid k.finished_pieces (omega arith) (omega (arith, c.small))
              c.finished;
        once = λ q. ground (arith, c.once q, taken q, covered q);
        tally = omega (arith, c.tally, c.small, grown);
        fields = c.fields;
      };
      same_count = refl;
      written = λ q. ground (arith, c.once q, taken q, covered q);
      notified = ground (arith, some_missing, c.tally, c.small);
    }

pub on_piece_finished_msg-Handles :
    (k : PieceKeeper) (vp : ValidatedPiece)
    → IsConsistent k
    → Handles k (on_piece_finished_msg k vp)
unfolding on_piece_finished_msg
on_piece_finished_msg-Handles k vp c = elim (Maps.position_lem vp.pid k.pending_pieces) [
  | inl (e, n) ↦ rw e (handled _ (stays k c))
  | inr (i, e, taken) ↦ rw e (
      rw
        (insert-with_piece k.finished_pieces vp.pid c.finished
          (ground (arith, taken vp.pid, c.once vp.pid, c.small)))
        (handled _ (finishes k vp i c taken)))
]
