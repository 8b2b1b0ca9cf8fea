-- ===== src/TrackerManager/Tasks.antt =====
-- src/tracker_manager.rs: the task of a tracker, from its URL to the peers that it passes on.
use learntorrent.Base.{ℕ, ◌≤◌, refl, List, [], ◌∷◌, ◌++◌, length, length-append, arith}
use learntorrent.Base.Outcome.{
  Outcome, ok, err, panicked, out_of_fuel, ◌>>=◌, Returns, after_step, returned,
}
use learntorrent.PieceKeeper.{AppState}
use learntorrent.Udp.{SocketAddr}
use learntorrent.TrackerManager.{Event, new_peers}
use learntorrent.TrackerManager.Protocol.{TrErr, TrackerResponse, init}

-- What the task's `select!` ends with: a change of the application's state, the timeout, or the end
-- of the exchange.
pub data Wake : Type 0 where
  changed : AppState → Wake
  elapsed : Wake
  announced : Outcome TrErr TrackerResponse → Wake

-- The messages to the tracker manager. Any change of the application's state ends the task.
unfoldable pub on_wake : Wake → Outcome TrErr (List (List SocketAddr))
on_wake (changed state) = ok []
on_wake elapsed = ok []
on_wake (announced outcome) = do response ← outcome; ok (response.peers ∷ [])

unfoldable pub start : List ℕ → Wake → Outcome TrErr (List (List SocketAddr))
unfolding on_wake
start url wake = do _ ← init url; on_wake wake

-- An error or a panic of the task is only logged.
abbrev pub logged : Outcome TrErr (List (List SocketAddr)) → List (List SocketAddr)
logged (ok sent) = sent
logged (err e) = []
logged panicked = []
logged out_of_fuel = []

-- One task for each tracker, with how it wakes; the order of their messages is that of the list.
unfoldable pub spawn_trackers : List (List ℕ × Wake) → List (List SocketAddr)
unfolding start
spawn_trackers [] = []
spawn_trackers ((url, wake) ∷ trackers) = logged (start url wake) ++ spawn_trackers trackers

-- What the manager receives from them.
unfoldable pub received : List (List SocketAddr) → List Event
received [] = []
received (peers ∷ sent) = new_peers peers ∷ received sent

IsOne : List (List SocketAddr) → Type 0
IsOne sent = length sent ≤ 1

start-IsOne : (url : List ℕ) (wake : Wake) → Returns IsOne (start url wake)
unfolding start on_wake IsOne
start-IsOne url (changed state) = after_step (init url) _ (λ _ _. returned _ _ (omega arith))
start-IsOne url elapsed = after_step (init url) _ (λ _ _. returned _ _ (omega arith))
start-IsOne url (announced outcome) =
    after_step (init url) _ (λ _ _. after_step outcome _ (λ response _. returned _ _ (omega arith)))

logged-length :
    (o : Outcome TrErr (List (List SocketAddr))) → Returns IsOne o → length (logged o) ≤ 1
unfolding IsOne
logged-length (ok sent) r = r sent refl
logged-length (err e) r = omega arith
logged-length panicked r = omega arith
logged-length out_of_fuel r = omega arith

-- The tasks of the trackers send no more messages than there are trackers, for which the channel to
-- the manager has room.
spawn_trackers-length :
    (trackers : List (List ℕ × Wake)) → length (spawn_trackers trackers) ≤ length trackers
unfolding spawn_trackers
spawn_trackers-length [] = omega arith
spawn_trackers-length ((url, wake) ∷ trackers) =
    let one = logged-length (start url wake) (start-IsOne url wake) in
    omega (
      arith,
      length-append (logged (start url wake)) (spawn_trackers trackers),
      spawn_trackers-length trackers,
    )
