-- ===== src/Tests/Trackers.antt =====
-- Peers that trackers answer, and the tasks for them.
use learntorrent.Base.{
  ℕ, ◌≤◌, ◌≡◌, ◌≢◌, ◌⊎◌, refl, true, false, some, none, List, [], ◌∷◌, length, replicate, arith,
}
use learntorrent.Base.Int.{pos}
use learntorrent.Base.Text.{bytes, same_text}
use learntorrent.Base.Outcome.{◌>>=◌, ok, err}
use learntorrent.BeValue.{
  BeValue, Dict, str, int, dict, end, entry, get, expect, try_get, get_dict, get_str, get_u32,
}
use learntorrent.PieceKeeper.{exit}
use learntorrent.Udp.{
  SocketAddr, TrackerRequestMsg, TrackerResponseMsg, started, encode, socket_addrs,
}
use learntorrent.Udp.RoundTrip.{packet}
use learntorrent.TrackerManager.{
  TrackerManager, max_active_tasks, Event, new_peers, completed, changed, run, new,
}
use learntorrent.TrackerManager.Queue.{addresses}
use learntorrent.TrackerManager.Runs.{hits, run-contacted}
use learntorrent.TrackerManager.Protocol.{
  TrackerResponse, tracker_protocol_err, unknown_protocol, starts_with, udp_address, init,
}
use learntorrent.TrackerManager.Http.{HttpTracker, Says, parse_bevalue, parse_bevalue_lem}
use learntorrent.Tests.Udp.{replacing}
use learntorrent.TrackerManager.Announce.{Draws, announce, announce_lem}
use learntorrent.Tests.Files.{two_pieces}

abbrev at_ip : ℕ → SocketAddr
at_ip n = record { ip = (10, 0, 0, n); port = 6881 }

-- A task is active, and two addresses are queued.
abbrev two_queued : TrackerManager
two_queued = record {
  next_id = 7;
  active_peers = 3 ∷ [];
  queued_peers = at_ip 1 ∷ at_ip 2 ∷ [];
  all_peers = (10, 0, 0, 2) ∷ (10, 0, 0, 1) ∷ (10, 0, 0, 9) ∷ [];
  should_exit = false;
}

abbrev two_answers : List Event
two_answers =
    new_peers (at_ip 1 ∷ at_ip 2 ∷ at_ip 1 ∷ [])
    ∷ new_peers (at_ip 2 ∷ [])
    ∷ changed exit
    ∷ completed 0
    ∷ completed 1
    ∷ []

run-contacted_example :
    let r = run new two_answers in
    (length r.manager.active_peers ≤ max_active_tasks)
    × (hits (10, 0, 0, 2) (addresses r.tasks) ≤ 1)
    × ((r.returned ≡ false) ⊎ ((r.manager.should_exit ≡ true) × (r.manager.active_peers ≡ [])))
run-contacted_example = run-contacted two_answers (10, 0, 0, 2)

abbrev response_dict : Dict
response_dict = record {
  vals =
      entry (bytes "interval") (int (pos 1800))
        (entry (bytes "peers") (str (10 ∷ 0 ∷ 0 ∷ 1 ∷ 26 ∷ 225 ∷ [])) end);
  start = 0;
  stop = 40;
}

abbrev response : BeValue
response = dict response_dict.vals 0 40

abbrev fresh_tracker : HttpTracker
fresh_tracker = record { tracker_id = some (1 ∷ []); url = bytes "http://t/announce" }

abbrev answered : TrackerResponse × HttpTracker
answered =
    (record { interval = 1800; seeds = none; leeches = none; peers = at_ip 1 ∷ [] }, fresh_tracker)

response_read : parse_bevalue fresh_tracker response ≡ ok answered
unfolding parse_bevalue get_dict expect try_get get same_text get_u32 get_str socket_addrs
response_read = refl

response_dict_read : get_dict response ≡ ok response_dict
unfolding get_dict
response_dict_read = refl

peers_read :
    (expect response_dict (bytes "peers") >>= get_str) ≡ ok (10 ∷ 0 ∷ 0 ∷ 1 ∷ 26 ∷ 225 ∷ [])
unfolding expect get same_text get_str
peers_read = refl

parse_bevalue_lem_example :
    Says fresh_tracker response_dict (10 ∷ 0 ∷ 0 ∷ 1 ∷ 26 ∷ 225 ∷ []) answered
parse_bevalue_lem_example =
    parse_bevalue_lem fresh_tracker response response_dict (10 ∷ 0 ∷ 0 ∷ 1 ∷ 26 ∷ 225 ∷ []) answered
      response_dict_read peers_read
      (omega arith, (omega arith, (omega arith, (omega arith, (omega arith, (omega arith, tt))))))
      response_read

abbrev draws : Draws
draws = record { connect_id = 5; announce_id = 6; key = 7; port = 4000 }

announce_lem_example :
    let first = packet (TrackerResponseMsg.connect 5 99) in
    let second = packet (TrackerResponseMsg.announce 6 1800 3 4 (at_ip 1 ∷ [])) in
    let answer = announce replacing draws two_pieces (replicate 20 3) first second in
    ((draws.connect_id ≡ 5)
      × (draws.announce_id ≡ 6)
      × (answer
          ≡ ok (
            record { interval = 1800; seeds = some 4; leeches = some 3; peers = at_ip 1 ∷ [] },
            encode 7 (TrackerRequestMsg.connect 5)
                ∷ encode 7 (
                    TrackerRequestMsg.announce 99 6
                      (replicate 20 1)
                      (replicate 20 3)
                      0
                      8
                      0
                      started
                      4000)
                ∷ [],
          )))
    ⊎ (((draws.connect_id ≢ 5) ⊎ (draws.announce_id ≢ 6)) × (answer ≡ err tracker_protocol_err))
announce_lem_example =
    announce_lem replacing draws two_pieces (replicate 20 3) 5 99 6 1800 3 4 (at_ip 1 ∷ [])
      (omega arith, omega arith)
      (omega arith, omega arith, omega arith, omega arith, (omega arith, tt)) (omega arith)

udp_address_run : udp_address (bytes "udp://t.org:1337/announce") ≡ ok (bytes "t.org:1337")
unfolding udp_address starts_with
udp_address_run = refl

https_unknown : init (bytes "https://t.org/announce") ≡ err unknown_protocol
unfolding init starts_with same_text
https_unknown = refl
