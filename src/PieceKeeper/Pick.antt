-- ===== src/PieceKeeper/Pick.antt =====
-- The answer to a peer task that asks for a piece.
use learntorrent.Base.{
  ℕ, ◌≤◌, ◌<◌, ◌≡◌, subst, true, false, not, ◌&&◌, Option, none, some, [], ◌∷◌, ◌++◌, ltb, ◌==◌,
  arith, length, Bool-cases, Option-cases, inl, inr, get_elem?_total, ◌⊎◌,
}
use learntorrent.Base.Outcome.{ok, ◌>>=◌}
use learntorrent.Base.Maps
use learntorrent.Base.Maps.{Values, count}
use learntorrent.BitField.{BitField, Panics}
use learntorrent.BitField.Laws.{bit}
use learntorrent.PieceList.{PieceList}
use learntorrent.PieceList.Spec.{covers, IsCanonical}
use learntorrent.PieceList.Find.{IsBelow, Unavailable}
use learntorrent.PieceList.Next.{Picked, nothing, next-Picked}
use learntorrent.PieceList.Size.{IsBelow-covers}
use learntorrent.PieceKeeper.{
  PieceKeeper, Handled, to_peer, endgame_pick, picked, send_pick, on_pick_msg, piece,
  none_available,
}
use learntorrent.PieceKeeper.Invariant.{Fits, IsConsistent}

-- No piece of the queue is available at the task.
abbrev pub NoneQueued : PieceKeeper → ℕ → Type 0
NoneQueued k task_id =
    (bf : BitField)
    → Maps.lookup task_id k.peers_pieces ≡ some bf
    → (q : ℕ) → covers k.piece_queue q ≡ true
    → bit bf q ≡ false

-- The three answers. A fresh piece is the least that is queued and available, and moves from the
-- queue to the pending pieces. In the endgame, with nothing queued for the task and less than 50
-- pieces missing, it is a pending piece. Otherwise there is none, and nothing else changes.
pub data Answer (k : PieceKeeper) (task_id : ℕ) : Handled → Type 0 where
  fresh :
      (bf : BitField) (p : ℕ) (queue : PieceList)
      → Maps.lookup task_id k.peers_pieces ≡ some bf
      → covers k.piece_queue p ≡ true
      → bit bf p ≡ true
      → Unavailable bf k.piece_queue p
      → IsCanonical queue
      → ((q : ℕ) → covers queue q ≡ (not (q == p) && covers k.piece_queue q))
      → Answer k task_id (
          ok (
            record k { piece_queue = queue; pending_pieces = k.pending_pieces ++ p ∷ [] },
            to_peer task_id (piece p) ∷ [],
          ))
  endgame :
      (p : ℕ)
      → NoneQueued k task_id
      → k.missing_pieces < 50
      → 0 < count p k.pending_pieces
      → Answer k task_id (ok (k, to_peer task_id (piece p) ∷ []))
  no_piece :
      NoneQueued k task_id
      → (Maps.lookup task_id k.peers_pieces ≡ none)
        ⊎ (50 ≤ k.missing_pieces)
        ⊎ (length k.pending_pieces ≡ 0)
      → Answer k task_id (ok (k, to_peer task_id none_available ∷ []))

IsBelow-le : (n m : ℕ) (blocks : PieceList) → n ≤ m → IsBelow n blocks → IsBelow m blocks
IsBelow-le n m [] h b = tt
IsBelow-le n m (x ∷ blocks) h b = (omega (arith, b), IsBelow-le n m blocks h b.1)

module _ (draw : ℕ → ℕ) (in_range : (len : ℕ) → 0 < len → draw len < len) where
  endgame_pick-Answer :
      (k : PieceKeeper) (task_id : ℕ)
      → Maps.has task_id k.peers ≡ true
      → NoneQueued k task_id
      → Answer k task_id ((endgame_pick draw k >>= λ msg. ok (k, msg)) >>= send_pick task_id)
  unfolding endgame_pick send_pick
  endgame_pick-Answer k task_id reg nq =
      elim (Bool-cases (ltb k.missing_pieces 50 && ltb 0 (length k.pending_pieces))) [
        | inl e ↦
            let (p, g) =
              get_elem?_total k.pending_pieces (draw (length k.pending_pieces))
                (in_range _ (ground (arith, e))) in
            rw (e, g, reg)
              (endgame p nq (ground (arith, e)) (Maps.count-get_elem? p _ k.pending_pieces g))
        | inr e ↦ rw (e, reg) (no_piece nq (inr (why e)))
      ]
    where
      why :
          ltb k.missing_pieces 50 && ltb 0 (length k.pending_pieces) ≡ false
          → (50 ≤ k.missing_pieces) ⊎ (length k.pending_pieces ≡ 0)
      why e = ground (arith, e)

  picked-Answer :
      (k : PieceKeeper) (task_id : ℕ) (bf : BitField) (r : Panics (Option ℕ × PieceList))
      → Maps.has task_id k.peers ≡ true
      → Maps.lookup task_id k.peers_pieces ≡ some bf
      → Picked k.piece_queue bf r
      → Answer k task_id (r >>= picked draw k >>= send_pick task_id)
  picked-Answer k task_id bf _ reg e (nothing n) =
      unfold picked in
      endgame_pick-Answer k task_id reg
        (λ bf' e' q m. subst (λ t. bit t q ≡ false) (same bf bf' e e') (n q m))
    where
      same :
          (bf bf' : BitField)
          → Maps.lookup task_id k.peers_pieces ≡ some bf
          → Maps.lookup task_id k.peers_pieces ≡ some bf'
          → bf ≡ bf'
      same bf bf' e e' = cc
  picked-Answer k task_id bf _ reg e (Picked.picked p queue m b least c cov) =
      unfold picked send_pick in rw reg (fresh bf p queue e m b least c cov)

  -- If `draw` answers an index in range, a consistent keeper answers the pick of a registered task
  -- to that task. The answer is the least queued piece that the peer has, which becomes pending;
  -- or, with no such piece and less than 50 pieces missing, a pending piece; or none, with no such
  -- piece, when the peer's pieces are unknown, at least 50 pieces are missing or none is pending.
  -- In the last two cases the keeper stays as it is.
  pub on_pick_msg-Answer :
      (k : PieceKeeper) (task_id : ℕ)
      → IsConsistent k
      → Maps.has task_id k.peers ≡ true
      → Answer k task_id (on_pick_msg draw k task_id)
  unfolding on_pick_msg
  on_pick_msg-Answer k task_id c reg = elim (Option-cases (Maps.lookup task_id k.peers_pieces)) [
    | inl e ↦ rw (e, reg) (no_piece (λ bf e' q m. absurd (cc)) (inl e))
    | inr (bf, e) ↦
        let fits = Maps.lookup-Values (Fits k.piece_count) task_id bf k.peers_pieces e c.fields in
        let below =
          IsBelow-covers 0 k.piece_count k.piece_queue c.queue
            (λ q m. ground (arith, m, c.once q)) in
        rw e (
          picked-Answer k task_id bf _ reg e
            (next-Picked k.piece_queue bf c.queue (IsBelow-le _ _ k.piece_queue fits.1 below)))
  ]
