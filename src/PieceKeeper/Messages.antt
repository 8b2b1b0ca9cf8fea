-- ===== src/PieceKeeper/Messages.antt =====
-- A message to the keeper, or a change of the application's state, handled.
use learntorrent.Base.{
  ℕ, ◌<◌, ◌≡◌, refl, subst, Bool, true, not, ◌&&◌, List, [], ◌∷◌, ◌++◌, ◌==◌, arith, ==→eq,
}
use learntorrent.Base.Maps
use learntorrent.PieceList.{PieceList}
use learntorrent.PieceList.Spec.{covers, IsCanonical}
use learntorrent.PieceKeeper.{
  PieceKeeper, PmMsg, Sent, Event, Handled, have, bitfield, pick, piece_failed, piece_finished,
  register, deregister, to_peer, handle_msg, handle, message, appstate, piece, none_available,
  running, pause, exit,
}
use learntorrent.PieceKeeper.Invariant.{Fits, IsConsistent}
use learntorrent.PieceKeeper.Handlers.{
  Next, Handles, handled, writes, completions, on_have_msg-Handles, on_bitfield_msg-Handles,
  on_register_msg-Handles, on_deregister_msg-Handles, on_piece_failed_idle,
  on_piece_finished_msg-Handles,
}
use learntorrent.PieceKeeper.Pick.{Answer, fresh, endgame, no_piece, on_pick_msg-Answer}

same_state :
    (k : PieceKeeper) (sent : List Sent)
    → IsConsistent k
    → ((p : ℕ) → writes p sent ≡ 0)
    → completions sent ≡ 0
    → Next k (k, sent)
same_state k sent c w n = record {
  consistent = c;
  same_count = refl;
  written = λ p. omega (arith, w p);
  notified = omega (arith, n);
}

fresh-Next :
    (k : PieceKeeper) (task_id p : ℕ) (queue : PieceList)
    → IsConsistent k
    → covers k.piece_queue p ≡ true
    → IsCanonical queue
    → ((q : ℕ) → covers queue q ≡ (not (q == p) && covers k.piece_queue q))
    → Next k (
      record k { piece_queue = queue; pending_pieces = k.pending_pieces ++ p ∷ [] },
      to_peer task_id (piece p) ∷ [],
    )
fresh-Next k task_id p queue c m cq cov = record {
  consistent = record {
    small = c.small;
    queue = cq;
    finished = c.finished;
    once = λ q. ground (arith, c.once q, cov q, m, Maps.count-snoc q p k.pending_pieces, at_p q);
    tally = c.tally;
    fields = c.fields;
  };
  same_count = refl;
  written = λ q. omega arith;
  notified = omega arith;
}
  where
    at_p : (q : ℕ) → (p == q) ≡ true → covers k.piece_queue q ≡ true
    at_p q e = subst (λ t. covers k.piece_queue t ≡ true) (==→eq p q e) m

Answer-Handles :
    (k : PieceKeeper) (task_id : ℕ) (r : Handled)
    → IsConsistent k
    → Answer k task_id r
    → Handles k r
Answer-Handles k task_id _ c (fresh bf p queue e m b least cq cov) =
    handled _ (fresh-Next k task_id p queue c m cq cov)
Answer-Handles k task_id _ c (endgame p nq few m) =
    handled _ (same_state k (to_peer task_id (piece p) ∷ []) c (λ q. refl) refl)
Answer-Handles k task_id _ c (no_piece nq why) =
    handled _ (same_state k (to_peer task_id none_available ∷ []) c (λ q. refl) refl)

-- What a message has to satisfy for the keeper to handle it: piece IDs are those of the torrent, a
-- bit field has a bit for every piece, and a task that asks for a piece is registered.
abbrev pub Accepts : PieceKeeper → PmMsg → Type 0
Accepts k (have task_id piece_id) = piece_id < k.piece_count
Accepts k (bitfield task_id bytes) = Fits k.piece_count bytes
Accepts k (pick task_id) = Maps.has task_id k.peers ≡ true
Accepts k (piece_failed pid) = pid < k.piece_count
Accepts k _ = Unit

abbrev pub AcceptsEvent : PieceKeeper → Event → Type 0
AcceptsEvent k (message m) = Accepts k m
AcceptsEvent k (appstate s) = Unit

exit-Next :
    (k : PieceKeeper) (e : Bool) → IsConsistent k → Next k (record k { should_exit = e }, [])
exit-Next k e c = record {
  consistent = record {
    small = c.small;
    queue = c.queue;
    finished = c.finished;
    once = c.once;
    tally = c.tally;
    fields = c.fields;
  };
  same_count = refl;
  written = λ p. omega arith;
  notified = omega arith;
}

module _ (draw : ℕ → ℕ) (in_range : (len : ℕ) → 0 < len → draw len < len) where
  -- If `draw` answers an index in range, handling an accepted message on a consistent keeper does
  -- not panic; the keeper stays consistent, sends a piece to the I/O task exactly when that piece
  -- becomes finished, and notifies the completion exactly when the count of missing pieces becomes
  -- 0.
  pub handle_msg-Handles :
      (k : PieceKeeper) (m : PmMsg) → IsConsistent k → Accepts k m → Handles k (handle_msg draw k m)
  unfolding handle_msg
  handle_msg-Handles k (have task_id piece_id) c a = on_have_msg-Handles k task_id piece_id c a
  handle_msg-Handles k (bitfield task_id bytes) c a = on_bitfield_msg-Handles k task_id bytes c a
  handle_msg-Handles k (pick task_id) c a =
      Answer-Handles k task_id _ c (on_pick_msg-Answer draw in_range k task_id c a)
  handle_msg-Handles k (piece_failed pid) c a =
      rw (on_piece_failed_idle k pid c a) (handled _ (same_state k [] c (λ p. refl) refl))
  handle_msg-Handles k (piece_finished vp) c a = on_piece_finished_msg-Handles k vp c
  handle_msg-Handles k (register task_id) c a = on_register_msg-Handles k task_id c
  handle_msg-Handles k (deregister task_id) c a = on_deregister_msg-Handles k task_id c

  pub handle-Handles :
      (k : PieceKeeper) (e : Event)
      → IsConsistent k
      → AcceptsEvent k e
      → Handles k (handle draw k e)
  unfolding handle
  handle-Handles k (message m) c a = handle_msg-Handles k m c a
  handle-Handles k (appstate running) c a = handled _ (same_state k [] c (λ p. refl) refl)
  handle-Handles k (appstate pause) c a = handled _ (same_state k [] c (λ p. refl) refl)
  handle-Handles k (appstate exit) c a = handled _ (exit-Next k true c)
