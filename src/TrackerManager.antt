-- ===== src/TrackerManager.antt =====
-- src/tracker_manager.rs: the task that keeps the peers' addresses and starts the peer tasks.
-- `active_peers` is the list of the tasks' IDs, without their handles, and `all_peers` a list
-- without repetition. A peer task is started with its ID and its address.
pub mod Queue
pub mod Runs
pub mod Protocol
pub mod Http
pub mod Announce
pub mod Tasks
use learntorrent.Base.{
  ℕ, zero, suc, ◌+◌, ◌-◌, Bool, true, false, ◌&&◌, List, [], ◌∷◌, ◌++◌, ◌==◌, if◌then◌else◌, length,
}
use learntorrent.Base.Maps.{has}
use learntorrent.Base.Words.{add32}
use learntorrent.PieceKeeper.{AppState, running, pause, exit}
use learntorrent.Base.Outcome.{ok, panicked}
use learntorrent.BitField.{Panics}
use learntorrent.Metainfo.{Metainfo}
use learntorrent.Udp.{SocketAddr}

abbrev pub Ip : Type 0
Ip = ℕ × ℕ × ℕ × ℕ

abbrev pub max_active_tasks : ℕ
max_active_tasks = 25

abbrev pub same_ip : Ip → Ip → Bool
same_ip (a, b, c, d) (a', b', c', d') = a == a' && (b == b' && (c == c' && d == d'))

-- Whether the set has the address.
unfoldable pub known : Ip → List Ip → Bool
known ip [] = false
known ip (x ∷ xs) = if same_ip x ip then true else known ip xs

-- A task that is started: its ID, and the peer's address.
pub record PeerTask : Type 0 where
  pub task_id : ℕ
  pub socket_addr : SocketAddr

pub record TrackerManager : Type 0 where
  pub next_id : ℕ
  pub active_peers : List ℕ
  pub queued_peers : List SocketAddr
  pub all_peers : List Ip
  pub should_exit : Bool

unfoldable pub new : TrackerManager
new = record {
  next_id = 0;
  active_peers = [];
  queued_peers = [];
  all_peers = [];
  should_exit = false;
}

-- An ID that is there already is replaced.
abbrev pub insert_id : ℕ → List ℕ → List ℕ
insert_id id ids = if has id ids then ids else id ∷ ids

unfoldable pub remove_id : ℕ → List ℕ → List ℕ
remove_id id [] = []
remove_id id (x ∷ xs) = if x == id then remove_id id xs else x ∷ remove_id id xs

-- `for _ in 0..to_queue`
unfoldable pub start_tasks :
    ℕ → List ℕ → ℕ → List SocketAddr → ℕ × List ℕ × List SocketAddr × List PeerTask
start_tasks next_id active zero queued = (next_id, active, queued, [])
start_tasks next_id active (suc rounds) [] = (next_id, active, [], [])
start_tasks next_id active (suc rounds) (addr ∷ queued) =
    let (next_id', active', queued', tasks) =
      start_tasks (add32 next_id 1) (insert_id next_id active) rounds queued in
    (next_id', active', queued', record { task_id = next_id; socket_addr = addr } ∷ tasks)

unfoldable pub queue_peer_tasks : TrackerManager → TrackerManager × List PeerTask
unfolding start_tasks
queue_peer_tasks t =
    let (next_id, active, queued, tasks) =
      start_tasks t.next_id t.active_peers (max_active_tasks - length t.active_peers)
        t.queued_peers in
    if t.should_exit
    then (t, [])
    else (record t { next_id = next_id; active_peers = active; queued_peers = queued }, tasks)

-- The loop over the peers that a tracker answered.
unfoldable pub add_peers : List SocketAddr → TrackerManager → TrackerManager
add_peers [] t = t
add_peers (peer ∷ peers) t = add_peers peers (
    if known peer.ip t.all_peers
    then t
    else record t { all_peers = peer.ip ∷ t.all_peers; queued_peers = t.queued_peers ++ peer ∷ [] })

-- What `select!` waits for.
pub data Event : Type 0 where
  new_peers : List SocketAddr → Event
  completed : ℕ → Event
  changed : AppState → Event

abbrev is_exit : AppState → Bool
is_exit exit = true
is_exit running = false
is_exit pause = false

unfoldable pub on_event : Event → TrackerManager → TrackerManager × List PeerTask
unfolding add_peers queue_peer_tasks remove_id
on_event (new_peers peers) t = (add_peers peers t, [])
on_event (completed task_id) t =
    queue_peer_tasks (record t { active_peers = remove_id task_id t.active_peers })
on_event (changed s) t = (if is_exit s then record t { should_exit = true } else t, [])

pub record RunEnd : Type 0 where
  pub manager : TrackerManager
  pub tasks : List PeerTask
  pub returned : Bool

abbrev pub is_empty {ℓ} : {A : Type ℓ} → List A → Bool
is_empty [] = true
is_empty (x ∷ xs) = false

abbrev pub after_tasks : List PeerTask → RunEnd → RunEnd
after_tasks tasks r = record {
  manager = r.manager;
  tasks = tasks ++ r.tasks;
  returned = r.returned;
}

-- The loop of `start` on the events that arrive.
unfoldable pub run : TrackerManager → List Event → RunEnd
unfolding on_event queue_peer_tasks
run t [] =
    let (t', tasks) = queue_peer_tasks t in
    if t.should_exit && is_empty t.active_peers
    then record { manager = t; tasks = []; returned = true }
    else record { manager = t'; tasks = tasks; returned = false }
run t (e ∷ events) =
    let (t₁, tasks) = queue_peer_tasks t in
    let (t₂, more) = on_event e t₁ in
    let rest = after_tasks (tasks ++ more) (run t₂ events) in
    if t.should_exit && is_empty t.active_peers
    then record { manager = t; tasks = []; returned = true }
    else rest

-- A channel has a place at least: without trackers its making is a panic.
unfoldable pub start : Metainfo → List Event → Panics RunEnd
unfolding run
start mi events = if length mi.trackers == 0 then panicked else ok (run new events)
