-- ===== src/System/Keeper.antt =====
-- A message to the keeper, handled: whom the keeper knows afterwards, and whom it answers.
use learntorrent.Base.{
  ℕ, ◌<◌, ◌≡◌, refl, Option, none, some, List, [], ◌∷◌, ◌==◌, All, arith, Bool-cases, inl, inr,
}
use learntorrent.Base.Words.{sub32}
use learntorrent.Base.Outcome.{Returns, after_step, returned}
use learntorrent.BitField
use learntorrent.PieceList
use learntorrent.PieceKeeper.{
  PieceKeeper, PieceMsg, PmMsg, Sent, Handled, have, bitfield, pick, piece_failed, piece_finished,
  register, deregister, to_peer, registered, handle_msg, on_have_msg, on_bitfield_msg,
  on_piece_finished_msg, finish_at, on_register_msg, on_deregister_msg, piece, none_available,
}
use learntorrent.PieceKeeper.Invariant.{IsConsistent}
use learntorrent.PieceKeeper.Handlers.{on_piece_failed_idle}
use learntorrent.PieceKeeper.Pick.{Answer, fresh, endgame, no_piece, on_pick_msg-Answer}
use learntorrent.PieceKeeper.Messages.{Accepts}
use learntorrent.Peer.Balance.{IsAnswer}
use learntorrent.System.Invariant.{after_msg, IsFine}

-- Nothing goes to a peer task.
abbrev pub IsSilent : Sent → Type 0
IsSilent (to_peer i msg) = ⊥
IsSilent (registered i) = ⊥
IsSilent _ = Unit

-- What a message is answered with.
abbrev pub Delivers : ℕ → PmMsg → List Sent → Type 0
Delivers count (pick i) sent = (msg : PieceMsg) × IsAnswer count msg × (sent ≡ to_peer i msg ∷ [])
Delivers count (register i) sent = sent ≡ registered i ∷ []
Delivers count _ sent = All IsSilent sent

pub record Answered (k : PieceKeeper) (m : PmMsg) (r : PieceKeeper × List Sent) : Type 0 where
  pub peers : r.0.peers ≡ after_msg m k.peers
  pub same_exit : r.0.should_exit ≡ k.should_exit
  pub delivered : Delivers k.piece_count m r.1

Answer-Answered :
    (k : PieceKeeper) (i : ℕ) (o : Handled)
    → IsConsistent k
    → Answer k i o
    → Returns (Answered k (pick i)) o
Answer-Answered k i _ c (fresh bf p queue e m b least cq cov) =
    returned (Answered k (pick i)) _ (record {
      peers = refl;
      same_exit = refl;
      delivered = (piece p, ground (arith, c.once p, m), refl);
    })
Answer-Answered k i _ c (endgame p nq few m) = returned (Answered k (pick i)) _ (record {
  peers = refl;
  same_exit = refl;
  delivered = (piece p, ground (arith, c.once p, m), refl);
})
Answer-Answered k i _ c (no_piece nq why) =
    returned (Answered k (pick i)) _
      (record { peers = refl; same_exit = refl; delivered = (none_available, tt, refl) })

finish_at-Answered :
    (k : PieceKeeper) (vp : _) (i : Option ℕ)
    → Returns (Answered k (piece_finished vp)) (finish_at k vp i)
unfolding finish_at
finish_at-Answered k vp none =
    returned _ _ (record { peers = refl; same_exit = refl; delivered = tt })
finish_at-Answered k vp (some i) =
    after_step (PieceList.insert k.finished_pieces vp.pid) _ (λ finished _.
      elim (Bool-cases (sub32 k.missing_pieces 1 == 0)) [
        | inl e ↦
            rw e
              (returned _ _ (record { peers = refl; same_exit = refl; delivered = (tt, (tt, tt)) }))
        | inr e ↦
            rw e (returned _ _ (record { peers = refl; same_exit = refl; delivered = (tt, tt) }))
      ])

module _ (draw : ℕ → ℕ) (in_range : (len : ℕ) → 0 < len → draw len < len) where
  pub handle_msg-Answered :
      (k : PieceKeeper) (m : PmMsg)
      → IsConsistent k
      → IsFine k.piece_count k.peers m
      → Returns (Answered k m) (handle_msg draw k m)
  unfolding handle_msg on_have_msg on_bitfield_msg on_piece_finished_msg on_register_msg
      on_deregister_msg
  handle_msg-Answered k (have i piece_id) c f =
      after_step (BitField.set_piece _ piece_id) _
        (λ bf _. returned _ _ (record { peers = refl; same_exit = refl; delivered = tt }))
  handle_msg-Answered k (bitfield i bytes) c f =
      returned _ _ (record { peers = refl; same_exit = refl; delivered = tt })
  handle_msg-Answered k (pick i) c f =
      Answer-Answered k i _ c (on_pick_msg-Answer draw in_range k i c f)
  handle_msg-Answered k (piece_failed pid) c f =
      rw (on_piece_failed_idle k pid c f)
        (returned _ _ (record { peers = refl; same_exit = refl; delivered = tt }))
  handle_msg-Answered k (piece_finished vp) c f = finish_at-Answered k vp _
  handle_msg-Answered k (register i) c f =
      returned _ _ (record { peers = refl; same_exit = refl; delivered = refl })
  handle_msg-Answered k (deregister i) c f =
      returned _ _ (record { peers = refl; same_exit = refl; delivered = tt })

  pub accepts_lem : (k : PieceKeeper) (m : PmMsg) → IsFine k.piece_count k.peers m → Accepts k m
  accepts_lem k (have i piece_id) f = f
  accepts_lem k (bitfield i bytes) f = f
  accepts_lem k (pick i) f = f
  accepts_lem k (piece_failed pid) f = f
  accepts_lem k (piece_finished vp) f = tt
  accepts_lem k (register i) f = tt
  accepts_lem k (deregister i) f = tt
