-- ===== src/System/Channel.antt =====
-- What a move does to the tasks and to the channel.
use learntorrent.Base.{
  ℕ, ◌≡◌, refl, sym, ap, ◌∙◌, subst, true, false, some, List, [], ◌∷◌, ◌++◌, ◌==◌, ==→eq, arith,
  Bool-cases, inl, inr, get_or, get_elem?, set, length, append-nil,
}
use learntorrent.Base.Maps
use learntorrent.Base.Outcome.{ok}
use learntorrent.BitField.{Panics}
use learntorrent.Metainfo.{Metainfo, piece_count}
use learntorrent.PieceKeeper.{PieceKeeper, PmMsg, Sent, register}
use learntorrent.PieceKeeper.Handlers.{Next}
use learntorrent.PieceKeeper.Runs.{Safe, writes-append, completions-append}
use learntorrent.System.{Panics, System, Task, at, registering, absent, send_all}
use learntorrent.System.Invariant.{
  TaskOk, Holds, AllFine, PhaseOk, after_msg, members, AllFine-append, members-append, picks,
  registers, picks-append, registers-append, has-snoc,
}
use learntorrent.System.Places.{
  get_elem?-get_or, get_or-set_same, get_or-set_other, get_or-snoc_last, get_or-snoc_other,
  get_or_past,
}
use learntorrent.System.Tasks.{TurnOk}

pub later-Safe :
    (k₀ k k' : PieceKeeper) (sent more : List Sent)
    → Safe k₀ (record { keeper = k; sent = sent; returned = false })
    → Next k (k', more)
    → Safe k₀ (record { keeper = k'; sent = sent ++ more; returned = false })
later-Safe k₀ k k' sent more s n = record {
  consistent = n.consistent;
  same_count = n.same_count ∙ s.same_count;
  written = λ p. omega (arith, writes-append p sent more, s.written p, n.written p);
  notified = omega (arith, completions-append sent more, s.notified, n.notified);
  quiet = λ e. absurd (cc e);
}

module _ (mi : Metainfo) where
  unfoldable pub GoesOn : Panics System → Type 0
  GoesOn o = (s : System) × (o ≡ ok s) × Holds mi s

  -- New messages in the channel, and what their sender is afterwards.
  pub send_all-GoesOn :
      (s : System) (ts : List Task) (ms : List PmMsg)
      → Holds mi s
      → AllFine (piece_count mi) (members s.inbox s.keeper.peers) ms
      → ((i : ℕ)
          → TaskOk mi i
              (Maps.has i (members (s.inbox ++ ms) s.keeper.peers))
              (s.inbox ++ ms)
              (get_or ts i absent))
      → GoesOn (send_all s ts ms)
  unfolding GoesOn
  send_all-GoesOn s ts [] h f t = (
    _,
    refl,
    record {
      stays = h.stays;
      running = h.running;
      safe = h.safe;
      fine = h.fine;
      tasks = λ i.
          subst (λ x. TaskOk mi i (Maps.has i (members x s.keeper.peers)) x (get_or ts i absent))
            (append-nil s.inbox) (t i);
    },
  )
  send_all-GoesOn s ts (m ∷ ms) h f t = (
    _,
    rw h.stays refl,
    record {
      stays = h.stays;
      running = h.running;
      safe = h.safe;
      fine = AllFine-append (piece_count mi) s.inbox (m ∷ ms) s.keeper.peers h.fine f;
      tasks = t;
    },
  )

  -- A task that the new messages are not about.
  more-TaskOk :
      (i : ℕ) (ids : List ℕ) (xs ms : List PmMsg) (t : Task)
      → Maps.has i (members ms (members xs ids)) ≡ Maps.has i (members xs ids)
      → picks i ms ≡ 0
      → registers i ms ≡ 0
      → TaskOk mi i (Maps.has i (members xs ids)) xs t
      → TaskOk mi i (Maps.has i (members (xs ++ ms) ids)) (xs ++ ms) t
  more-TaskOk i ids xs ms t same p r o = record {
    phase =
        subst (λ b. PhaseOk mi i b t.phase)
          (sym (ap (Maps.has i) (members-append xs ms ids) ∙ same)) o.phase;
    answer = o.answer;
    one_answer = omega (arith, picks-append i xs ms, p, o.one_answer);
    one_join = omega (arith, registers-append i xs ms, r, o.one_join);
  }

  registers-others :
      (n i : ℕ) (ids : List ℕ)
      → (n == i) ≡ false
      → Maps.has i (after_msg (register n) ids) ≡ Maps.has i ids
  registers-others n i ids e = elim (Bool-cases (Maps.has n ids)) [
    | inl h ↦ rw h refl
    | inr h ↦ rw h (ground (arith, e, has-snoc i n ids))
  ]

  registers-own : (n : ℕ) (ids : List ℕ) → Maps.has n (after_msg (register n) ids) ≡ true
  registers-own n ids = elim (Bool-cases (Maps.has n ids)) [
    | inl h ↦ rw h h
    | inr h ↦ rw h (ground (arith, has-snoc n n ids))
  ]

  pub create-TaskOk :
      (s : System)
      → Holds mi s
      → let inbox = s.inbox ++ register (length s.tasks) ∷ [] in
        (i : ℕ)
        → TaskOk mi i
            (Maps.has i (members inbox s.keeper.peers))
            inbox
            (get_or (s.tasks ++ at registering ∷ []) i absent)
  create-TaskOk s h i =
      let n = length s.tasks in
      let inbox = s.inbox ++ register n ∷ [] in
      let ids = members s.inbox s.keeper.peers in
      elim (Bool-cases (n == i)) [
        | inl e ↦
            let last =
              subst (λ t. TaskOk mi n (Maps.has n ids) s.inbox t) (get_or_past absent s.tasks)
                (h.tasks n) in
            subst
              (λ j.
                TaskOk mi j (Maps.has j (members inbox s.keeper.peers)) inbox
                  (get_or (s.tasks ++ at registering ∷ []) j absent))
              (==→eq n i e)
              (rw (get_or-snoc_last absent s.tasks (at registering)) (record {
                phase =
                    ap (Maps.has n) (members-append s.inbox (register n ∷ []) s.keeper.peers)
                    ∙ registers-own n ids;
                answer = tt;
                one_answer =
                    omega (arith, picks-append n s.inbox (register n ∷ []), last.one_answer);
                one_join =
                    ground (arith, registers-append n s.inbox (register n ∷ []), last.one_join);
              }))
        | inr e ↦ rw (get_or-snoc_other absent s.tasks i (at registering) e) (
            more-TaskOk i s.keeper.peers s.inbox (register n ∷ []) _ (registers-others n i ids e)
              refl (ground (arith, e)) (h.tasks i))
      ]

  pub turn-TaskOk :
      (s : System) (i : ℕ) (t : Task) (r : Task × List PmMsg)
      → Holds mi s
      → get_elem? s.tasks i ≡ some t
      → TurnOk mi i (members s.inbox s.keeper.peers) t.phase t.answer r
      → (j : ℕ)
      → TaskOk mi j
          (Maps.has j (members (s.inbox ++ r.1) s.keeper.peers))
          (s.inbox ++ r.1)
          (get_or (set s.tasks i r.0) j absent)
  turn-TaskOk s i t r h e k j = elim (Bool-cases (i == j)) [
    | inl x ↦
        let o =
          subst (λ t. TaskOk mi i (Maps.has i (members s.inbox s.keeper.peers)) s.inbox t)
            (get_elem?-get_or absent s.tasks i t e) (h.tasks i) in
        subst
          (λ j.
            TaskOk mi j (Maps.has j (members (s.inbox ++ r.1) s.keeper.peers)) (s.inbox ++ r.1)
              (get_or (set s.tasks i r.0) j absent))
          (==→eq i j x)
          (rw (get_or-set_same absent s.tasks i t r.0 e) (record {
            phase =
                subst (λ b. PhaseOk mi i b r.0.phase)
                  (sym (ap (Maps.has i) (members-append s.inbox r.1 s.keeper.peers))) k.phase_ok;
            answer = k.answer_ok;
            one_answer = omega (arith, picks-append i s.inbox r.1, k.balance, o.one_answer);
            one_join =
                omega
                  (arith, registers-append i s.inbox r.1, k.no_joins i, k.same_joins, o.one_join);
          }))
    | inr x ↦ rw (get_or-set_other absent s.tasks i j r.0 x) (
        more-TaskOk j s.keeper.peers s.inbox r.1 _ (k.others j x) (k.own_picks j x) (k.no_joins j)
          (h.tasks j))
  ]
