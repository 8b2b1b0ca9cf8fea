-- ===== src/TrackerManager/Queue.antt =====
-- The tasks that are started from the queue of addresses.
use learntorrent.Base.{
  ℕ, zero, suc, ◌+◌, ◌-◌, ◌^◌, ◌≤◌, ◌<◌, ◌≡◌, ◌⊎◌, inl, inr, refl, ap, false, List, [], ◌∷◌, ◌++◌,
  map, length, All, arith, Bool-cases, ◌==◌,
}
use learntorrent.Base.Maps.{has}
use learntorrent.Base.Words.{add32}
use learntorrent.Udp.{SocketAddr}
use learntorrent.TrackerManager.{
  PeerTask, TrackerManager, max_active_tasks, insert_id, start_tasks, queue_peer_tasks,
}

abbrev pub addresses : List PeerTask → List SocketAddr
addresses tasks = map (λ p. p.socket_addr) tasks

-- IDs one after the other.
abbrev pub Numbered : ℕ → List PeerTask → Type 0
Numbered n [] = Unit
Numbered n (p ∷ ps) = (p.task_id ≡ n) × Numbered (suc n) ps

abbrev pub Below : ℕ → ℕ → Type 0
Below n id = id < n

Below-suc : (n : ℕ) (ids : List ℕ) → All (Below n) ids → All (Below (suc n)) ids
Below-suc n [] a = tt
Below-suc n (id ∷ ids) (h, a) = (omega arith, Below-suc n ids a)

has-Below : (n : ℕ) (ids : List ℕ) → All (Below n) ids → has n ids ≡ false
unfolding has
has-Below n [] a = refl
has-Below n (id ∷ ids) (h, a) = rw (differ id h) (has-Below n ids a)
  where
    differ : (id : ℕ) → id < n → (id == n) ≡ false
    differ id h = ground arith

length-insert_id : (id : ℕ) (ids : List ℕ) → length (insert_id id ids) ≤ suc (length ids)
length-insert_id id ids = elim (Bool-cases (has id ids)) [
  | inl e ↦ rw e (omega arith)
  | inr e ↦ rw e (omega arith)
]

pub length-start_tasks :
    (next_id : ℕ) (active : List ℕ) (rounds : ℕ) (queued : List SocketAddr)
    → length (start_tasks next_id active rounds queued).1 ≤ length active + rounds
unfolding start_tasks
length-start_tasks n active zero queued = omega arith
length-start_tasks n active (suc rounds) [] = omega arith
length-start_tasks n active (suc rounds) (a ∷ queued) = omega (
  arith,
  length-start_tasks (add32 n 1) (insert_id n active) rounds queued,
  length-insert_id n active,
)

-- The addresses of the tasks are the front of the queue, and what is left is the rest of it.
pub start_tasks-append :
    (next_id : ℕ) (active : List ℕ) (rounds : ℕ) (queued : List SocketAddr)
    → queued
      ≡ addresses (start_tasks next_id active rounds queued).3
        ++ (start_tasks next_id active rounds queued).2
unfolding start_tasks
start_tasks-append n active zero queued = refl
start_tasks-append n active (suc rounds) [] = refl
start_tasks-append n active (suc rounds) (a ∷ queued) =
    ap (λ t. a ∷ t) (start_tasks-append (add32 n 1) (insert_id n active) rounds queued)

record Started (next_id : ℕ) (active : List ℕ) (rounds : ℕ)
    (r : ℕ × List ℕ × List SocketAddr × List PeerTask) : Type 0 where
  pub more : length r.1 ≡ length active + length r.3
  pub numbered : Numbered next_id r.3
  pub most : length r.3 ≤ rounds
  pub all_or_full : (r.2 ≡ []) ⊎ (length r.3 ≡ rounds)

start_tasks-Started :
    (next_id : ℕ) (active : List ℕ) (rounds : ℕ) (queued : List SocketAddr)
    → next_id + rounds < 2 ^ 32
    → All (Below next_id) active
    → Started next_id active rounds (start_tasks next_id active rounds queued)
unfolding start_tasks
start_tasks-Started n active zero queued h a = record {
  more = omega arith;
  numbered = tt;
  most = omega arith;
  all_or_full = inr refl;
}
start_tasks-Started n active (suc rounds) [] h a = record {
  more = omega arith;
  numbered = tt;
  most = omega arith;
  all_or_full = inl refl;
}
start_tasks-Started n active (suc rounds) (addr ∷ queued) h a =
    let next : add32 n 1 ≡ suc n = omega arith in
    let new : insert_id n active ≡ n ∷ active = rw (has-Below n active a) refl in
    let rec =
      start_tasks-Started (suc n) (n ∷ active) rounds queued (omega arith)
        (omega arith, Below-suc n active a) in
    rw (next, new)
      (record {
        more = omega (arith, rec.more);
        numbered = (refl, rec.numbered);
        most = omega (arith, rec.most);
        all_or_full = elim rec.all_or_full [ inl e ↦ inl e | inr e ↦ inr (ap suc e) ];
      })

-- With at most 25 active tasks, whose IDs are below the next one, and 25 IDs left in 32 bits, a
-- manager that should not exit starts tasks with the next IDs for the front of the queue, in
-- order; afterwards the queue is empty or 25 tasks are active.
pub queue_peer_tasks_lem :
    (t : TrackerManager)
    → t.should_exit ≡ false
    → length t.active_peers ≤ max_active_tasks
    → All (Below t.next_id) t.active_peers
    → t.next_id + max_active_tasks < 2 ^ 32
    → let (t', tasks) = queue_peer_tasks t in
      (t.queued_peers ≡ addresses tasks ++ t'.queued_peers)
      × Numbered t.next_id tasks
      × (length t'.active_peers ≡ length t.active_peers + length tasks)
      × (length t'.active_peers ≤ max_active_tasks)
      × ((t'.queued_peers ≡ []) ⊎ (length t'.active_peers ≡ max_active_tasks))
unfolding queue_peer_tasks
queue_peer_tasks_lem t e h a w =
    let rounds = max_active_tasks - length t.active_peers in
    let s = start_tasks-Started t.next_id t.active_peers rounds t.queued_peers (omega arith) a in
    rw e (
      start_tasks-append t.next_id t.active_peers rounds t.queued_peers,
      s.numbered,
      s.more,
      omega (arith, s.more, s.most),
      elim s.all_or_full [ inl e ↦ inl e | inr e ↦ inr (omega (arith, e, s.more)) ],
    )
