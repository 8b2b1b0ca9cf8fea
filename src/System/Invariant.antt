-- ===== src/System/Invariant.antt =====
-- What holds of the system between two moves.
use learntorrent.Base.{
  ℕ, ◌+◌, ◌<◌, ◌≡◌, refl, Bool, true, false, ◌||◌, Option, none, some, List, [], ◌∷◌, ◌++◌, ◌==◌,
  if◌then◌else◌, to_nat, get_or, arith, Bool-cases, inl, inr,
}
use learntorrent.Base.Maps
use learntorrent.Metainfo.{Metainfo, piece_count}
use learntorrent.PieceKeeper.{
  PieceMsg, PmMsg, have, bitfield, pick, piece_failed, register, deregister, without, new,
}
use learntorrent.PieceKeeper.Invariant.{Fits}
use learntorrent.PieceKeeper.Runs.{Safe}
use learntorrent.Peer.{Peer}
use learntorrent.Peer.Session.{IsReady}
use learntorrent.Peer.Balance.{IsAnswer}
use learntorrent.System.{
  Phase, Task, System, registering, connecting, left, looping, asking, selecting, absent,
}

-- The registered tasks after a message, and after all that are in the channel.
abbrev pub after_msg : PmMsg → List ℕ → List ℕ
after_msg (register i) ids = if Maps.has i ids then ids else ids ++ i ∷ []
after_msg (deregister i) ids = without i ids
after_msg _ ids = ids

abbrev pub members : List PmMsg → List ℕ → List ℕ
members [] ids = ids
members (m ∷ inbox) ids = members inbox (after_msg m ids)

-- A message that a keeper for so many pieces, with these tasks, handles.
abbrev pub IsFine : ℕ → List ℕ → PmMsg → Type 0
IsFine count ids (have i piece_id) = piece_id < count
IsFine count ids (bitfield i bytes) = Fits count bytes
IsFine count ids (pick i) = Maps.has i ids ≡ true
IsFine count ids (piece_failed pid) = pid < count
IsFine count ids _ = Unit

-- Each is one when its turn comes.
abbrev pub AllFine : ℕ → List ℕ → List PmMsg → Type 0
AllFine count ids [] = Unit
AllFine count ids (m ∷ inbox) = IsFine count ids m × AllFine count (after_msg m ids) inbox

-- How often a task asks for a piece, and to be registered.
abbrev pub picks : ℕ → List PmMsg → ℕ
picks i [] = 0
picks i (pick j ∷ inbox) = to_nat (j == i) + picks i inbox
picks i (_ ∷ inbox) = picks i inbox

abbrev pub registers : ℕ → List PmMsg → ℕ
registers i [] = 0
registers i (register j ∷ inbox) = to_nat (j == i) + registers i inbox
registers i (_ ∷ inbox) = registers i inbox

-- How many answers a task waits for.
abbrev pub awaits : Phase → ℕ
awaits (asking p f) = 1
awaits _ = 0

abbrev pub joins : Phase → ℕ
joins registering = 1
joins _ = 0

abbrev pub held : Option PieceMsg → ℕ
held none = 0
held (some a) = 1

abbrev pub AnswerOk : ℕ → Option PieceMsg → Type 0
AnswerOk count none = Unit
AnswerOk count (some a) = IsAnswer count a

-- A peer task that is ready, with the ID.
pub record IsOwn (mi : Metainfo) (i : ℕ) (p : Peer) : Type 0 where
  pub ready : IsReady p
  pub same : p.metainfo ≡ mi
  pub own_id : p.id ≡ i

-- A task that has not ended is registered when the channel is empty.
abbrev pub PhaseOk : Metainfo → ℕ → Bool → Phase → Type 0
PhaseOk mi i inside registering = inside ≡ true
PhaseOk mi i inside connecting = inside ≡ true
PhaseOk mi i inside left = Unit
PhaseOk mi i inside (looping p f) = (inside ≡ true) × IsOwn mi i p
PhaseOk mi i inside (asking p f) = (inside ≡ true) × IsOwn mi i p
PhaseOk mi i inside (selecting p f) = (inside ≡ true) × IsOwn mi i p

pub record TaskOk (mi : Metainfo) (i : ℕ) (inside : Bool) (inbox : List PmMsg) (t : Task)
    : Type 0 where
  pub phase : PhaseOk mi i inside t.phase
  pub answer : AnswerOk (piece_count mi) t.answer
  pub one_answer : picks i inbox + held t.answer ≡ awaits t.phase
  pub one_join : registers i inbox ≡ joins t.phase

pub record Holds (mi : Metainfo) (s : System) : Type 0 where
  pub stays : s.returned ≡ false
  pub running : s.keeper.should_exit ≡ false
  pub safe :
      Safe (new (piece_count mi)) (record { keeper = s.keeper; sent = s.sent; returned = false })
  pub fine : AllFine (piece_count mi) s.keeper.peers s.inbox
  pub tasks :
      (i : ℕ)
      → TaskOk mi i (Maps.has i (members s.inbox s.keeper.peers)) s.inbox (get_or s.tasks i absent)

-- Messages at the end of the channel.
pub members-append :
    (xs ys : List PmMsg) (ids : List ℕ) → members (xs ++ ys) ids ≡ members ys (members xs ids)
members-append [] ys ids = refl
members-append (x ∷ xs) ys ids = members-append xs ys (after_msg x ids)

pub AllFine-append :
    (count : ℕ) (xs ys : List PmMsg) (ids : List ℕ)
    → AllFine count ids xs
    → AllFine count (members xs ids) ys
    → AllFine count ids (xs ++ ys)
AllFine-append count [] ys ids a b = b
AllFine-append count (x ∷ xs) ys ids (f, a) b =
    (f, AllFine-append count xs ys (after_msg x ids) a b)

pub picks-append : (i : ℕ) (xs ys : List PmMsg) → picks i (xs ++ ys) ≡ picks i xs + picks i ys
picks-append i [] ys = omega arith
picks-append i (pick j ∷ xs) ys = omega (arith, picks-append i xs ys)
picks-append i (_ ∷ xs) ys = picks-append i xs ys

pub registers-append :
    (i : ℕ) (xs ys : List PmMsg) → registers i (xs ++ ys) ≡ registers i xs + registers i ys
registers-append i [] ys = omega arith
registers-append i (register j ∷ xs) ys = omega (arith, registers-append i xs ys)
registers-append i (_ ∷ xs) ys = registers-append i xs ys

-- The registered tasks, one by one.
pub has-without :
    (i j : ℕ) (ids : List ℕ)
    → Maps.has i (without j ids) ≡ (if j == i then false else Maps.has i ids)
unfolding Maps.has
has-without i j [] = ground arith
has-without i j (x ∷ ids) = elim (Bool-cases (x == j)) [
  | inl e ↦ ground (arith, e, has-without i j ids)
  | inr e ↦ ground (arith, e, has-without i j ids)
]

pub has-snoc : (i j : ℕ) (ids : List ℕ) → Maps.has i (ids ++ j ∷ []) ≡ (Maps.has i ids || j == i)
unfolding Maps.has
has-snoc i j [] = ground arith
has-snoc i j (x ∷ ids) = ground (arith, has-snoc i j ids)
