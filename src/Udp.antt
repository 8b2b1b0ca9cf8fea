-- ===== src/Udp.antt =====
-- src/tracker_manager/udp.rs: the requests to a UDP tracker and its responses, as bytes.
pub mod RoundTrip
use learntorrent.Base.{
  ◌-◌, ℕ, ◌+◌, ◌*◌, ◌^◌, Bool, List, [], ◌∷◌, ◌++◌, ltb, ◌==◌, if◌then◌else◌, length,
}
use learntorrent.Base.Words.{be16, be32, u16_bytes, u32_bytes, u64_bytes}
use learntorrent.Base.Outcome.{Outcome, ok, err, panicked, ◌>>=◌}

pub data Action : Type 0 where
  connect announce scrape error : Action

pub data ClientState : Type 0 where
  started : ClientState

-- The number that is sent.
abbrev pub event_number : ClientState → ℕ
event_number started = 2

pub data TrackerRequestMsg : Type 0 where
  connect : (trans_id : ℕ) → TrackerRequestMsg
  announce :
      (conn_id trans_id : ℕ) (info_hash peer_id : List ℕ) (downloaded left uploaded : ℕ)
      (event : ClientState) (port : ℕ)
      → TrackerRequestMsg

-- The key is random.
unfoldable pub encode : ℕ → TrackerRequestMsg → List ℕ
encode key (connect trans_id) = u64_bytes 0x41727101980 ++ (u32_bytes 0 ++ u32_bytes trans_id)
encode key (announce conn_id trans_id info_hash peer_id downloaded left uploaded event port) =
    u64_bytes conn_id
    ++ (u32_bytes 1
        ++ (u32_bytes trans_id
            ++ (info_hash
                ++ (peer_id
                    ++ (u64_bytes downloaded
                        ++ (u64_bytes left
                            ++ (u64_bytes uploaded
                                ++ (u32_bytes (event_number event)
                                    ++ (u32_bytes 0
                                        ++ (u32_bytes key
                                            ++ (u32_bytes 0xFFFFFFFF ++ u16_bytes port)))))))))))

pub record SocketAddr : Type 0 where
  pub ip : ℕ × ℕ × ℕ × ℕ
  pub port : ℕ

-- An error text is kept as its bytes.
pub data TrackerResponseMsg : Type 0 where
  connect : (trans_id conn_id : ℕ) → TrackerResponseMsg
  announce : (trans_id interval leechers seeders : ℕ) (peers : List SocketAddr) → TrackerResponseMsg
  error : (trans_id : ℕ) (text : List ℕ) → TrackerResponseMsg

pub data TrackerMsgDecodeErr : Type 0 where
  io malformed_packet : TrackerMsgDecodeErr

abbrev pub Decoded : Type 0 → Type 0
Decoded A = Outcome TrackerMsgDecodeErr A

unfoldable pub action_of : ℕ → Decoded Action
action_of value =
    if value == 0
    then ok connect
    else if value == 1
    then ok announce
    else if value == 2
    then ok scrape
    else if value == 3
    then ok error
    else err malformed_packet

-- Of the `bytes` crate: a buffer that is too short is a panic.
abbrev pub get_u32 : List ℕ → Decoded (ℕ × List ℕ)
get_u32 (a ∷ b ∷ c ∷ d ∷ rest) = ok (be32 a b c d, rest)
get_u32 _ = panicked

abbrev pub get_u64 : List ℕ → Decoded (ℕ × List ℕ)
get_u64 (a ∷ b ∷ c ∷ d ∷ e ∷ f ∷ g ∷ h ∷ rest) = ok (be32 a b c d * 2 ^ 32 + be32 e f g h, rest)
get_u64 _ = panicked

-- `chunks_exact(6)`; the bytes of an incomplete chunk are left out.
unfoldable pub socket_addrs : List ℕ → List SocketAddr
socket_addrs (a ∷ b ∷ c ∷ d ∷ e ∷ f ∷ rest) =
    record { ip = (a, b, c, d); port = be16 e f } ∷ socket_addrs rest
socket_addrs _ = []

decode_connect : List ℕ → Decoded TrackerResponseMsg
decode_connect src = do
  (trans_id, src₁) ← get_u32 src
  (conn_id, src₂) ← get_u64 src₁
  ok (connect trans_id conn_id)

decode_announce : List ℕ → Decoded TrackerResponseMsg
decode_announce src = do
  (trans_id, src₁) ← get_u32 src
  (interval, src₂) ← get_u32 src₁
  (leechers, src₃) ← get_u32 src₂
  (seeders, src₄) ← get_u32 src₃
  ok (announce trans_id interval leechers seeders (socket_addrs src₄))

-- `from_utf8_lossy` is the standard library's, from bytes to the bytes of a text.
decode_error : (List ℕ → List ℕ) → List ℕ → Decoded TrackerResponseMsg
decode_error from_utf8_lossy src = do
  (trans_id, src₁) ← get_u32 src
  ok (error trans_id (from_utf8_lossy src₁))

-- `src` is what follows the action; a scrape response is `unimplemented!`.
unfoldable pub decode_action : (List ℕ → List ℕ) → ℕ → List ℕ → Action → Decoded TrackerResponseMsg
unfolding decode_connect decode_announce decode_error
decode_action from_utf8_lossy packet_len src connect =
    if ltb packet_len 16 then err malformed_packet else decode_connect src
decode_action from_utf8_lossy packet_len src announce =
    if ltb packet_len 20 then err malformed_packet else decode_announce src
decode_action from_utf8_lossy packet_len src scrape = panicked
decode_action from_utf8_lossy packet_len src error = decode_error from_utf8_lossy src

unfoldable pub try_from : (List ℕ → List ℕ) → List ℕ → Decoded TrackerResponseMsg
unfolding action_of decode_action
try_from from_utf8_lossy src = if ltb (length src) 8 then err malformed_packet else (do
  (value, src₁) ← get_u32 src
  action ← action_of value
  decode_action from_utf8_lossy (length src) src₁ action)
