-- ===== src/System/Delivery.antt =====
-- A message that the keeper takes out of the channel, and its answer.
use learntorrent.Base.{
  ℕ, ◌<◌, ◌≡◌, refl, sym, subst, Bool, Option, some, List, ◌∷◌, ◌==◌, ==→eq, arith, Bool-cases, inl,
  inr, get_or,
}
use learntorrent.Metainfo.{Metainfo, piece_count}
use learntorrent.PieceKeeper.{
  PieceMsg, PmMsg, Sent, have, bitfield, pick, piece_failed, piece_finished, register, deregister,
}
use learntorrent.Peer.Balance.{IsAnswer}
use learntorrent.System.{Task, Phase, registering, asking, absent, modify, deliver, begin_connect}
use learntorrent.System.Invariant.{TaskOk, picks, registers, awaits, joins}
use learntorrent.System.Keeper.{Delivers}
use learntorrent.System.Places.{get_or-modify_same, get_or-modify_other, place_lem, deliver_silent}

module _ (mi : Metainfo) where
  -- The same task, with another message gone from the channel.
  same_counts :
      (i : ℕ) (inside : Bool) (xs ys : List PmMsg) (t : Task)
      → picks i xs ≡ picks i ys
      → registers i xs ≡ registers i ys
      → TaskOk mi i inside xs t
      → TaskOk mi i inside ys t
  same_counts i inside xs ys t p r o = record {
    phase = o.phase;
    answer = o.answer;
    one_answer = omega (arith, p, o.one_answer);
    one_join = omega (arith, r, o.one_join);
  }

  answered :
      (i : ℕ) (inside : Bool) (inbox : List PmMsg) (t : Task) (msg : PieceMsg)
      → IsAnswer (piece_count mi) msg
      → awaits t.phase ≡ 1
      → TaskOk mi i inside (pick i ∷ inbox) t
      → TaskOk mi i inside inbox (record t { answer = some msg })
  answered i inside inbox t msg a w o = record {
    phase = o.phase;
    answer = a;
    one_answer = ground (arith, o.one_answer, w);
    one_join = o.one_join;
  }

  awaits_one :
      (i : ℕ) (inside : Bool) (inbox : List PmMsg) (t : Task)
      → TaskOk mi i inside (pick i ∷ inbox) t
      → awaits t.phase ≡ 1
  awaits_one i inside inbox t o = le_one t.phase (ground (arith, o.one_answer))
    where
      le_one : (phase : Phase) → 0 < awaits phase → awaits phase ≡ 1
      le_one (asking p f) h = refl
      le_one _ h = absurd (omega arith)

  -- A message to a task that the keeper registers.
  connects :
      (i : ℕ) (inside : Bool) (inbox : List PmMsg) (phase : Phase) (answer : Option PieceMsg)
      → TaskOk mi i inside (register i ∷ inbox) (record { phase = phase; answer = answer })
      → (joins phase ≡ 1)
        × TaskOk mi i inside inbox (record { phase = begin_connect phase; answer = answer })
  unfolding begin_connect
  connects i inside inbox registering answer o = (
    refl,
    record {
      phase = o.phase;
      answer = o.answer;
      one_answer = o.one_answer;
      one_join = ground (arith, o.one_join);
    },
  )
  connects i inside inbox _ answer o = absurd (ground (arith, o.one_join))

  -- The task that is answered, and the other ones.
  pick_place :
      (ts : List Task) (i : ℕ) (inside : Bool) (inbox : List PmMsg) (msg : PieceMsg)
      → IsAnswer (piece_count mi) msg
      → TaskOk mi i inside (pick i ∷ inbox) (get_or ts i absent)
      → TaskOk mi i inside inbox
          (get_or (modify i (λ t. record t { answer = some msg }) ts) i absent)
  pick_place ts i inside inbox msg a o =
      let w = awaits_one i inside inbox (get_or ts i absent) o in
      let place = place_lem absent (λ t. awaits t.phase) ts i refl (omega (arith, w)) in
      rw (get_or-modify_same absent ts i (λ t. record t { answer = some msg }) place)
        (answered i inside inbox (get_or ts i absent) msg a w o)

  register_place :
      (ts : List Task) (i : ℕ) (inside : Bool) (inbox : List PmMsg)
      → TaskOk mi i inside (register i ∷ inbox) (get_or ts i absent)
      → TaskOk mi i inside inbox
          (get_or (modify i (λ t. record t { phase = begin_connect t.phase }) ts) i absent)
  register_place ts i inside inbox o =
      let t = get_or ts i absent in
      let (w, o') = connects i inside inbox t.phase t.answer o in
      let place = place_lem absent (λ t. joins t.phase) ts i refl (omega (arith, w)) in
      rw (get_or-modify_same absent ts i (λ t. record t { phase = begin_connect t.phase }) place) o'

  pub delivered-TaskOk :
      (m : PmMsg) (inbox : List PmMsg) (sent : List Sent) (ts : List Task) (i : ℕ) (inside : Bool)
      → Delivers (piece_count mi) m sent
      → TaskOk mi i inside (m ∷ inbox) (get_or ts i absent)
      → TaskOk mi i inside inbox (get_or (deliver sent ts) i absent)
  unfolding deliver
  delivered-TaskOk (pick j) inbox _ ts i inside (msg, a, e) o = rw e (elim (Bool-cases (j == i)) [
    | inl h ↦
        let k = ==→eq j i h in
        subst
          (λ x.
            TaskOk mi i inside inbox
              (get_or (modify x (λ t. record t { answer = some msg }) ts) i absent))
          (sym k)
          (pick_place ts i inside inbox msg a
            (subst (λ x. TaskOk mi i inside (pick x ∷ inbox) (get_or ts i absent)) k o))
    | inr h ↦
        rw (get_or-modify_other absent ts j i (λ t. record t { answer = some msg }) h)
          (same_counts i inside _ inbox _ (ground (arith, h)) refl o)
  ])
  delivered-TaskOk (register j) inbox _ ts i inside e o = rw e (elim (Bool-cases (j == i)) [
    | inl h ↦
        let k = ==→eq j i h in
        subst
          (λ x.
            TaskOk mi i inside inbox
              (get_or (modify x (λ t. record t { phase = begin_connect t.phase }) ts) i absent))
          (sym k)
          (register_place ts i inside inbox
            (subst (λ x. TaskOk mi i inside (register x ∷ inbox) (get_or ts i absent)) k o))
    | inr h ↦
        rw (get_or-modify_other absent ts j i (λ t. record t { phase = begin_connect t.phase }) h)
          (same_counts i inside _ inbox _ refl (ground (arith, h)) o)
  ])
  delivered-TaskOk (have j pid) inbox sent ts i inside d o =
      rw (deliver_silent sent ts d) (same_counts i inside _ inbox _ refl refl o)
  delivered-TaskOk (bitfield j bits) inbox sent ts i inside d o =
      rw (deliver_silent sent ts d) (same_counts i inside _ inbox _ refl refl o)
  delivered-TaskOk (piece_failed pid) inbox sent ts i inside d o =
      rw (deliver_silent sent ts d) (same_counts i inside _ inbox _ refl refl o)
  delivered-TaskOk (piece_finished vp) inbox sent ts i inside d o =
      rw (deliver_silent sent ts d) (same_counts i inside _ inbox _ refl refl o)
  delivered-TaskOk (deregister j) inbox sent ts i inside d o =
      rw (deliver_silent sent ts d) (same_counts i inside _ inbox _ refl refl o)
