-- ===== src/PieceKeeper/Runs.antt =====
-- The loop of the keeper on a sequence of events.
use learntorrent.Base.{
  ◌^◌, ◌↔◌, ℕ, ◌+◌, ◌≤◌, ◌<◌, ◌≡◌, refl, Bool, true, false, ◌&&◌, List, [], ◌∷◌, ◌++◌, ltb, ◌==◌,
  to_nat, arith, Bool-cases, inl, inr, ◌∙◌,
}
use learntorrent.Base.Outcome.{ok}
use learntorrent.PieceList.{PieceList}
use learntorrent.PieceList
use learntorrent.PieceList.Spec.{covers}
use learntorrent.PieceList.Size.{size_all, size_full, IsBelow-covers}
use learntorrent.PieceKeeper.{
  PieceKeeper, Sent, Event, Handled, RunEnd, to_io, io_exit, complete, handle, run, new, is_empty,
  after_sends,
}
use learntorrent.PieceKeeper.Invariant.{IsConsistent, new-IsConsistent}
use learntorrent.PieceKeeper.Handlers.{Next, Handles, handled, writes, completions}
use learntorrent.PieceKeeper.Messages.{AcceptsEvent, handle-Handles}

pub writes-append : (p : ℕ) (xs ys : List Sent) → writes p (xs ++ ys) ≡ writes p xs + writes p ys
writes-append p [] ys = omega arith
writes-append p (to_io vp ∷ xs) ys = omega (arith, writes-append p xs ys)
writes-append p (_ ∷ xs) ys = writes-append p xs ys

pub completions-append :
    (xs ys : List Sent) → completions (xs ++ ys) ≡ completions xs + completions ys
completions-append [] ys = omega arith
completions-append (complete ∷ xs) ys = omega (arith, completions-append xs ys)
completions-append (_ ∷ xs) ys = completions-append xs ys

pub Handles-ok :
    {k : PieceKeeper} {h : Handled}
    → Handles k h
    → (r : PieceKeeper × List Sent) × (h ≡ ok r) × Next k r
Handles-ok (handled r n) = (r, refl, n)

and-eq-true : (a b : Bool) → (a && b) ≡ true → (a ≡ true) × (b ≡ true)
and-eq-true true b h = (refl, h)
and-eq-true false b h = cc

pub record Safe (k : PieceKeeper) (o : RunEnd) : Type 0 where
  pub consistent : IsConsistent o.keeper
  pub same_count : o.keeper.piece_count ≡ k.piece_count
  pub written :
      (p : ℕ)
      → writes p o.sent + to_nat (covers k.finished_pieces p)
        ≡ to_nat (covers o.keeper.finished_pieces p)
  pub notified :
      completions o.sent + to_nat (k.missing_pieces == 0) ≡ to_nat (o.keeper.missing_pieces == 0)
  pub quiet : o.returned ≡ true → (o.keeper.should_exit ≡ true) × (is_empty o.keeper.peers ≡ true)

pub from_start :
    (n : ℕ) (o : RunEnd)
    → 0 < n
    → Safe (new n) o
    → ((p : ℕ) → writes p o.sent ≤ to_nat (ltb p n))
      × (completions o.sent ≤ 1)
      × (completions o.sent ≡ 1 ↔ ((p : ℕ) → p < n → writes p o.sent ≡ 1))
unfolding new PieceList.new_empty
from_start n o pos s =
    let k = o.keeper in
    let c = s.consistent in
    let below =
      IsBelow-covers 0 k.piece_count k.finished_pieces c.finished
        (λ q m. ground (arith, m, c.once q)) in
    (
      λ p. ground (arith, s.written p, c.once p, s.same_count),
      ground (arith, s.notified),
      (
        λ e p lt. ground (
          arith,
          e,
          s.written p,
          s.notified,
          c.tally,
          s.same_count,
          size_full 0 k.piece_count p k.finished_pieces c.finished below,
        ),
        λ all. ground (
          arith,
          s.notified,
          c.tally,
          s.same_count,
          size_all 0 k.piece_count k.finished_pieces (omega arith) c.finished below
              (λ q lo hi. ground (arith, all q, s.written q, s.same_count)),
        ),
      ),
    )

module _ (draw : ℕ → ℕ) where
  -- Each event of the sequence is accepted in the state in which it is handled.
  abbrev pub AllAccepted : PieceKeeper → List Event → Type 0
  AllAccepted k [] = Unit
  AllAccepted k (e ∷ events) =
      AcceptsEvent k e
      × ((k' : PieceKeeper) (sent : List Sent)
          → handle draw k e ≡ ok (k', sent)
          → AllAccepted k' events)

module _ (draw : ℕ → ℕ) (in_range : (len : ℕ) → 0 < len → draw len < len) where
  ended :
      (k : PieceKeeper) (sent : List Sent) (returned : Bool)
      → IsConsistent k
      → ((p : ℕ) → writes p sent ≡ 0)
      → completions sent ≡ 0
      → (returned ≡ true → (k.should_exit ≡ true) × (is_empty k.peers ≡ true))
      → Safe k (record { keeper = k; sent = sent; returned = returned })
  ended k sent returned c w n q = record {
    consistent = c;
    same_count = refl;
    written = λ p. omega (arith, w p);
    notified = omega (arith, n);
    quiet = q;
  }

  -- If `draw` answers an index in range, a run from a consistent keeper on accepted events does
  -- not panic, and leaves a consistent keeper with the same count of pieces. A piece is sent to
  -- the I/O task as often as it became finished, and the completion is notified as often as the
  -- count of missing pieces reached 0. The task returns only when it should exit and no peer task
  -- is registered.
  pub run-Safe :
      (k : PieceKeeper) (events : List Event)
      → IsConsistent k
      → AllAccepted draw k events
      → (o : RunEnd) × (run draw k events ≡ ok o) × Safe k o
  unfolding run
  run-Safe k [] c a = elim (Bool-cases (k.should_exit && is_empty k.peers)) [
    | inl e ↦ (_, rw e, ended k (io_exit ∷ []) true c (λ p. refl) refl (λ _. and-eq-true _ _ e))
    | inr e ↦ (_, rw e, ended k [] false c (λ p. refl) refl (λ f. cc))
  ]
  run-Safe k (e ∷ events) c a = elim (Bool-cases (k.should_exit && is_empty k.peers)) [
    | inl x ↦ (_, rw x, ended k (io_exit ∷ []) true c (λ p. refl) refl (λ _. and-eq-true _ _ x))
    | inr x ↦
        let (r, h, n) = Handles-ok (handle-Handles draw in_range k e c a.0) in
        let (o, ran, s) = run-Safe r.0 events n.consistent (a.1 r.0 r.1 h) in
        (
          after_sends r.1 o,
          rw (x, h) (rw ran),
          record {
            consistent = s.consistent;
            same_count = s.same_count ∙ n.same_count;
            written = λ p. omega (arith, writes-append p r.1 o.sent, s.written p, n.written p);
            notified = omega (arith, completions-append r.1 o.sent, s.notified, n.notified);
            quiet = s.quiet;
          },
        )
  ]

  -- If `draw` answers an index in range, a keeper for 1 to 2 ^ 24 pieces does not panic on any
  -- sequence of accepted events from the start. It sends each piece of the torrent to the I/O task
  -- at most once, and no other piece; it notifies the completion at most once, and exactly if it
  -- sent every piece.
  pub download :
      (num_pieces : ℕ) (events : List Event)
      → 0 < num_pieces
      → num_pieces ≤ 2 ^ 24
      → AllAccepted draw (new num_pieces) events
      → (o : RunEnd) × (run draw (new num_pieces) events ≡ ok o)
        × ((p : ℕ) → writes p o.sent ≤ to_nat (ltb p num_pieces))
        × (completions o.sent ≤ 1)
        × (completions o.sent ≡ 1 ↔ ((p : ℕ) → p < num_pieces → writes p o.sent ≡ 1))
  download num_pieces events pos h a =
      let (o, ran, s) = run-Safe (new num_pieces) events (new-IsConsistent num_pieces pos h) a in
      let (w, n, i) = from_start num_pieces o pos s in (o, ran, w, n, i)
