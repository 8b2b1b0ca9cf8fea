-- ===== src/Tests/Udp.antt =====
-- Responses of a tracker.
use learntorrent.Base.{ℕ, List, if◌then◌else◌, ◌≡◌, refl, [], ◌∷◌, arith, ◌⊎◌}
use learntorrent.Base.Text.{bytes, is_utf8}
use learntorrent.Base.Outcome.{ok, err}
use learntorrent.Udp.{TrackerResponseMsg, malformed_packet, try_from}
use learntorrent.Udp.RoundTrip.{packet, KeepsUtf8, try_from-packet, try_from_lem}

abbrev refused : TrackerResponseMsg
refused = TrackerResponseMsg.error 1 (bytes "no such torrent")

-- A conversion that makes one replacement character of all that is not UTF-8.
abbrev pub replacing : List ℕ → List ℕ
replacing bs = if is_utf8 bs then bs else 0xEF ∷ 0xBF ∷ 0xBD ∷ []

replacing-KeepsUtf8 : KeepsUtf8 replacing
replacing-KeepsUtf8 bs e = rw e refl

try_from-packet_example : try_from replacing (packet refused) ≡ ok refused
try_from-packet_example =
    try_from-packet replacing refused replacing-KeepsUtf8 (omega arith, unfold is_utf8 in refl)

try_from_lem_example :
    (try_from replacing (0 ∷ 0 ∷ 0 ∷ 1 ∷ 0 ∷ 0 ∷ 0 ∷ 9 ∷ 5 ∷ []) ≡ err malformed_packet)
    ⊎ ((m : TrackerResponseMsg) × (try_from replacing (0 ∷ 0 ∷ 0 ∷ 1 ∷ 0 ∷ 0 ∷ 0 ∷ 9 ∷ 5 ∷ [])
          ≡ ok m))
try_from_lem_example = try_from_lem replacing (0 ∷ 0 ∷ 0 ∷ 1 ∷ 0 ∷ 0 ∷ 0 ∷ 9 ∷ 5 ∷ []) refl
