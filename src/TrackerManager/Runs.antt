-- ===== src/TrackerManager/Runs.antt =====
-- Whole runs of the tracker manager: which peers are contacted, and how many at a time.
use learntorrent.Base.{
  and-true, ℕ, ◌+◌, ◌-◌, ◌≤◌, ◌≡◌, ◌⊎◌, inl, inr, refl, sym, ap, ◌∙◌, subst, Bool, true, false,
  ◌&&◌, List, [], ◌∷◌, ◌++◌, append_assoc, append-nil, length, to_nat, if◌then◌else◌, arith,
  Bool-cases, ◌==◌, ==→eq,
}
use learntorrent.Udp.{SocketAddr}
use learntorrent.PieceKeeper.{running, pause, exit}
use learntorrent.TrackerManager.{
  Ip, same_ip, known, PeerTask, TrackerManager, max_active_tasks, remove_id, start_tasks,
  queue_peer_tasks, add_peers, Event, new_peers, completed, changed, on_event, RunEnd, after_tasks,
  is_empty, run, new,
}
use learntorrent.TrackerManager.Queue.{addresses, length-start_tasks, start_tasks-append}

-- The number of addresses with the IP.
abbrev pub hits : Ip → List SocketAddr → ℕ
hits ip [] = 0
hits ip (a ∷ rest) = to_nat (same_ip a.ip ip) + hits ip rest

hits-append : (ip : Ip) (xs ys : List SocketAddr) → hits ip (xs ++ ys) ≡ hits ip xs + hits ip ys
hits-append ip [] ys = omega arith
hits-append ip (x ∷ xs) ys = omega (arith, hits-append ip xs ys)

addresses-append : (xs ys : List PeerTask) → addresses (xs ++ ys) ≡ addresses xs ++ addresses ys
addresses-append [] ys = refl
addresses-append (x ∷ xs) ys = ap (λ t. x.socket_addr ∷ t) (addresses-append xs ys)

same_ip-eq : (x y : Ip) → same_ip x y ≡ true → x ≡ y
same_ip-eq (a, b, c, d) (a', b', c', d') e =
    let (h₁, e₁) = and-true (a == a') _ e in
    let (h₂, e₂) = and-true (b == b') _ e₁ in
    let (h₃, h₄) = and-true (c == c') _ e₂ in
    rw (==→eq a a' h₁, ==→eq b b' h₂, ==→eq c c' h₃, ==→eq d d' h₄) refl

-- At most 25 tasks are active, and each known IP was contacted or is queued, once.
pub record Bounded (contacted : List SocketAddr) (t : TrackerManager) : Type 0 where
  pub active : length t.active_peers ≤ max_active_tasks
  pub once : (ip : Ip) → hits ip contacted + hits ip t.queued_peers ≡ to_nat (known ip t.all_peers)

queue_peer_tasks-Bounded :
    (contacted : List SocketAddr) (t : TrackerManager)
    → Bounded contacted t
    → Bounded (contacted ++ addresses (queue_peer_tasks t).1) (queue_peer_tasks t).0
unfolding queue_peer_tasks
queue_peer_tasks-Bounded contacted t b =
    let rounds = max_active_tasks - length t.active_peers in
    elim (Bool-cases t.should_exit) [
      | inl e ↦ rw e (rw (append-nil contacted) (record { active = b.active; once = b.once }))
      | inr e ↦ rw e (record {
        active =
            omega
              (arith, b.active, length-start_tasks t.next_id t.active_peers rounds t.queued_peers);
        once = λ ip.
            let s = start_tasks t.next_id t.active_peers rounds t.queued_peers in
            let queue =
              ap (hits ip) (start_tasks-append t.next_id t.active_peers rounds t.queued_peers) in
            omega (
              arith,
              queue,
              b.once ip,
              hits-append ip contacted (addresses s.3),
              hits-append ip (addresses s.3) s.2,
            );
      })
    ]

-- A peer that is new is queued, and one that is known is not.
add_one :
    (contacted : List SocketAddr) (peer : SocketAddr) (t : TrackerManager)
    → Bounded contacted t
    → Bounded contacted (
        if known peer.ip t.all_peers then t else record t {
          all_peers = peer.ip ∷ t.all_peers;
          queued_peers = t.queued_peers ++ peer ∷ [];
        })
unfolding known
add_one contacted peer t b = elim (Bool-cases (known peer.ip t.all_peers)) [
  | inl e ↦ rw e b
  | inr e ↦
      rw e (record { active = b.active; once = λ ip. one ip e (Bool-cases (same_ip peer.ip ip)) })
]
  where
    one :
        (ip : Ip)
        → known peer.ip t.all_peers ≡ false
        → (same_ip peer.ip ip ≡ true) ⊎ (same_ip peer.ip ip ≡ false)
        → hits ip contacted + hits ip (t.queued_peers ++ peer ∷ [])
          ≡ to_nat (known ip (peer.ip ∷ t.all_peers))
    one ip e (inl h) =
        let same = same_ip-eq peer.ip ip h in
        let none : hits ip contacted + hits ip t.queued_peers ≡ 0 =
          b.once ip ∙ ap to_nat (subst (λ x. known x t.all_peers ≡ false) same e) in
        rw h (omega (arith, none, hits-append ip t.queued_peers (peer ∷ []), ap to_nat h))
    one ip e (inr h) =
        rw h (omega (arith, b.once ip, hits-append ip t.queued_peers (peer ∷ []), ap to_nat h))

add_peers-Bounded :
    (contacted peers : List SocketAddr) (t : TrackerManager)
    → Bounded contacted t
    → Bounded contacted (add_peers peers t)
unfolding add_peers
add_peers-Bounded contacted [] t b = b
add_peers-Bounded contacted (peer ∷ peers) t b =
    add_peers-Bounded contacted peers _ (add_one contacted peer t b)

length-remove_id : (id : ℕ) (ids : List ℕ) → length (remove_id id ids) ≤ length ids
unfolding remove_id
length-remove_id id [] = omega arith
length-remove_id id (x ∷ xs) = elim (Bool-cases (x == id)) [
  | inl e ↦ rw e (omega (arith, length-remove_id id xs))
  | inr e ↦ rw e (omega (arith, length-remove_id id xs))
]

on_event-Bounded :
    (contacted : List SocketAddr) (e : Event) (t : TrackerManager)
    → Bounded contacted t
    → Bounded (contacted ++ addresses (on_event e t).1) (on_event e t).0
unfolding on_event
on_event-Bounded contacted (new_peers peers) t b =
    rw (append-nil contacted) (add_peers-Bounded contacted peers t b)
on_event-Bounded contacted (completed id) t b =
    queue_peer_tasks-Bounded contacted (record t { active_peers = remove_id id t.active_peers })
      (record {
        active = omega (arith, b.active, length-remove_id id t.active_peers);
        once = b.once;
      })
on_event-Bounded contacted (changed exit) t b =
    rw (append-nil contacted) (record { active = b.active; once = b.once })
on_event-Bounded contacted (changed running) t b = rw (append-nil contacted) b
on_event-Bounded contacted (changed pause) t b = rw (append-nil contacted) b

-- What holds at the end of a run.
pub record Ended (contacted : List SocketAddr) (r : RunEnd) : Type 0 where
  pub bounded : Bounded (contacted ++ addresses r.tasks) r.manager
  pub idle : (r.returned ≡ false) ⊎ ((r.manager.should_exit ≡ true) × (r.manager.active_peers ≡ []))

is_empty-eq {ℓ} : {A : Type ℓ} (xs : List A) → is_empty xs ≡ true → xs ≡ []
is_empty-eq [] e = refl
is_empty-eq (x ∷ xs) e = absurd (cc e)

-- The check at the head of the loop.
leave_or :
    (contacted : List SocketAddr) (t : TrackerManager) (other : RunEnd)
    → Bounded contacted t
    → Ended contacted other
    → Ended contacted (
        if t.should_exit && is_empty t.active_peers
        then record { manager = t; tasks = []; returned = true }
        else other)
leave_or contacted t other b o = elim (Bool-cases (t.should_exit && is_empty t.active_peers)) [
  | inl e ↦
      let (h, h') = and-true t.should_exit (is_empty t.active_peers) e in
      let stay : Bounded (contacted ++ []) t = rw (append-nil contacted) b in
      simp e (record { bounded = stay; idle = inr (h, is_empty-eq t.active_peers h') })
  | inr e ↦ simp e o
]

after_tasks-Ended :
    (contacted : List SocketAddr) (xs ys : List PeerTask) (r : RunEnd)
    → Ended ((contacted ++ addresses xs) ++ addresses ys) r
    → Ended contacted (after_tasks (xs ++ ys) r)
after_tasks-Ended contacted xs ys r o = record {
  bounded = subst (λ as'. Bounded as' r.manager) joined o.bounded;
  idle = o.idle;
}
  where
    joined :
        ((contacted ++ addresses xs) ++ addresses ys) ++ addresses r.tasks
        ≡ contacted ++ addresses ((xs ++ ys) ++ r.tasks)
    joined =
        rw (addresses-append (xs ++ ys) r.tasks, addresses-append xs ys)
          (append_assoc (contacted ++ addresses xs) (addresses ys) (addresses r.tasks)
            ∙ (append_assoc contacted (addresses xs) (addresses ys ++ addresses r.tasks)
                ∙ ap (λ t. contacted ++ t)
                    (sym (append_assoc (addresses xs) (addresses ys) (addresses r.tasks)))))

run-Ended :
    (contacted : List SocketAddr) (t : TrackerManager) (events : List Event)
    → Bounded contacted t
    → Ended contacted (run t events)
unfolding run
run-Ended contacted t [] b =
    leave_or contacted t _ b
      (record { bounded = queue_peer_tasks-Bounded contacted t b; idle = inl refl })
run-Ended contacted t (e ∷ events) b =
    let (t₁, xs) = queue_peer_tasks t in
    let (t₂, ys) = on_event e t₁ in
    let b₁ = queue_peer_tasks-Bounded contacted t b in
    let b₂ = on_event-Bounded (contacted ++ addresses xs) e t₁ b₁ in
    leave_or contacted t _ b (
      after_tasks-Ended contacted xs ys (run t₂ events)
        (run-Ended ((contacted ++ addresses xs) ++ addresses ys) t₂ events b₂))

to_nat_le : (b : Bool) → to_nat b ≤ 1
to_nat_le true = omega arith
to_nat_le false = omega arith

-- In a run of the tracker manager, from the start and on any events, at most 25 peer tasks are
-- active and a peer task is started at most once for an IP address; the loop returns only when it
-- should exit and no task is active.
pub run-contacted :
    (events : List Event) (ip : Ip)
    → let r = run new events in
      (length r.manager.active_peers ≤ max_active_tasks)
      × (hits ip (addresses r.tasks) ≤ 1)
      × ((r.returned ≡ false) ⊎ ((r.manager.should_exit ≡ true) × (r.manager.active_peers ≡ [])))
unfolding new known
run-contacted events ip =
    let o = run-Ended [] new events (record { active = omega arith; once = λ ip. refl }) in
    (
      o.bounded.active,
      omega (arith, o.bounded.once ip, to_nat_le (known ip (run new events).manager.all_peers)),
      o.idle,
    )
