-- ===== src/Udp/RoundTrip.antt =====
-- The responses of a tracker, written as the protocol has them, and the sizes of requests.
use learntorrent.Base.{
  ◌&&◌, true, false, ℕ, ◌^◌, ◌≤◌, ◌<◌, ◌≡◌, refl, ap, Bool, List, [], ◌∷◌, ◌++◌, ltb, leb, ◌==◌,
  length, length-append, All, arith, ◌⊎◌, inl, inr, Bool-cases,
}
use learntorrent.Base.Words.{
  IsU32, IsU64, be32, u16_bytes, u32_bytes, u64_bytes, be32-u32_bytes, be16-u16_bytes,
}
use learntorrent.Base.Text.{is_utf8}
use learntorrent.Base.Outcome.{ok, err}
use learntorrent.Udp.{
  ClientState, event_number, TrackerRequestMsg, TrackerResponseMsg, SocketAddr, malformed_packet,
  encode, action_of, decode_action, socket_addrs, try_from, decode_connect, decode_announce,
  decode_error,
}

IsAddr : SocketAddr → Type 0
IsAddr s = s.port < 2 ^ 16

abbrev pub addr_bytes : List SocketAddr → List ℕ
addr_bytes [] = []
addr_bytes (s ∷ peers) = s.ip.0 ∷ s.ip.1 ∷ s.ip.2 ∷ s.ip.3 ∷ (u16_bytes s.port ++ addr_bytes peers)

-- The packet of a response.
abbrev pub packet : TrackerResponseMsg → List ℕ
packet (TrackerResponseMsg.connect trans_id conn_id) =
    u32_bytes 0 ++ (u32_bytes trans_id ++ u64_bytes conn_id)
packet (TrackerResponseMsg.announce trans_id interval leechers seeders peers) =
    u32_bytes 1
    ++ (u32_bytes trans_id
        ++ (u32_bytes interval ++ (u32_bytes leechers ++ (u32_bytes seeders ++ addr_bytes peers))))
packet (TrackerResponseMsg.error trans_id text) = u32_bytes 3 ++ (u32_bytes trans_id ++ text)

-- The fields fit their types; an error text is UTF-8.
abbrev pub IsResponse : TrackerResponseMsg → Type 0
IsResponse (TrackerResponseMsg.connect trans_id conn_id) = IsU32 trans_id × IsU64 conn_id
IsResponse (TrackerResponseMsg.announce trans_id interval leechers seeders peers) =
    IsU32 trans_id
    × IsU32 interval
    × IsU32 leechers
    × IsU32 seeders
    × All (λ s. s.port < 2 ^ 16) peers
IsResponse (TrackerResponseMsg.error trans_id text) = IsU32 trans_id × (is_utf8 text ≡ true)

-- What the standard library says of the conversion: UTF-8 stays as it is.
abbrev pub KeepsUtf8 : (List ℕ → List ℕ) → Type 0
KeepsUtf8 from_utf8_lossy = (bs : List ℕ) → is_utf8 bs ≡ true → from_utf8_lossy bs ≡ bs

addrs_back :
    (peers : List SocketAddr)
    → All (λ s. s.port < 2 ^ 16) peers
    → socket_addrs (addr_bytes peers) ≡ peers
unfolding socket_addrs
addrs_back [] h = refl
addrs_back (s ∷ peers) h = rw (be16-u16_bytes s.port h.0, addrs_back peers h.1)

long_enough : (n len : ℕ) → len ≤ n → ltb n len ≡ false
long_enough n len h = ground arith

pub connect_back :
    (from_utf8_lossy : List ℕ → List ℕ) (trans_id conn_id : ℕ)
    → let msg = TrackerResponseMsg.connect trans_id conn_id in
      IsResponse msg → try_from from_utf8_lossy (packet msg) ≡ ok msg
unfolding try_from action_of decode_action
connect_back from_utf8_lossy trans_id conn_id (t, c) =
    rw (be32-u32_bytes trans_id t)
      (ap (λ x. ok (TrackerResponseMsg.connect trans_id x)) (omega arith))

pub announce_back :
    (from_utf8_lossy : List ℕ → List ℕ) (trans_id interval leechers seeders : ℕ)
    (peers : List SocketAddr)
    → let msg = TrackerResponseMsg.announce trans_id interval leechers seeders peers in
      IsResponse msg → try_from from_utf8_lossy (packet msg) ≡ ok msg
unfolding try_from action_of decode_action
announce_back from_utf8_lossy trans_id interval leechers seeders peers (t, i, l, s, p) =
    let len =
      length (packet (TrackerResponseMsg.announce trans_id interval leechers seeders peers)) in
    rw (long_enough len 8 (omega arith)) (
      rw (long_enough len 20 (omega arith)) (
        rw (be32-u32_bytes trans_id t, be32-u32_bytes interval i)
          (rw (be32-u32_bytes leechers l, be32-u32_bytes seeders s, addrs_back peers p))))

-- The packet that the protocol has for a response whose fields fit their types, and whose text if
-- any is UTF-8, which the conversion of texts keeps, is decoded to that response.
pub try_from-packet :
    (from_utf8_lossy : List ℕ → List ℕ) (msg : TrackerResponseMsg)
    → KeepsUtf8 from_utf8_lossy
    → IsResponse msg
    → try_from from_utf8_lossy (packet msg) ≡ ok msg
unfolding try_from action_of decode_action
try_from-packet f (TrackerResponseMsg.connect trans_id conn_id) k r =
    connect_back f trans_id conn_id r
try_from-packet f (TrackerResponseMsg.announce trans_id interval leechers seeders peers) k r =
    announce_back f trans_id interval leechers seeders peers r
try_from-packet f (TrackerResponseMsg.error trans_id text) k (t, u) =
    rw (long_enough (length (packet (TrackerResponseMsg.error trans_id text))) 8 (omega arith))
      (rw (be32-u32_bytes trans_id t, k text u))

-- A response to a scrape, which the client never asks for.
abbrev pub is_scrape : List ℕ → Bool
is_scrape (a ∷ b ∷ c ∷ d ∷ rest) = be32 a b c d == 2 && leb 4 (length rest)
is_scrape _ = false

decode_connect_ok :
    (x y z w : ℕ) (rest : List ℕ)
    → 8 ≤ length rest
    → (m : TrackerResponseMsg) × (decode_connect (x ∷ y ∷ z ∷ w ∷ rest) ≡ ok m)
unfolding decode_connect
decode_connect_ok x y z w (a ∷ b ∷ c ∷ d ∷ e ∷ f ∷ g ∷ h ∷ rest) n = (_, refl)
decode_connect_ok x y z w (a ∷ b ∷ c ∷ d ∷ e ∷ f ∷ g ∷ []) n = absurd (omega arith)
decode_connect_ok x y z w (a ∷ b ∷ c ∷ d ∷ e ∷ f ∷ []) n = absurd (omega arith)
decode_connect_ok x y z w (a ∷ b ∷ c ∷ d ∷ e ∷ []) n = absurd (omega arith)
decode_connect_ok x y z w (a ∷ b ∷ c ∷ d ∷ []) n = absurd (omega arith)
decode_connect_ok x y z w (a ∷ b ∷ c ∷ []) n = absurd (omega arith)
decode_connect_ok x y z w (a ∷ b ∷ []) n = absurd (omega arith)
decode_connect_ok x y z w (a ∷ []) n = absurd (omega arith)
decode_connect_ok x y z w [] n = absurd (omega arith)

decode_announce_ok :
    (x y z w : ℕ) (rest : List ℕ)
    → 12 ≤ length rest
    → (m : TrackerResponseMsg) × (decode_announce (x ∷ y ∷ z ∷ w ∷ rest) ≡ ok m)
unfolding decode_announce
decode_announce_ok x y z w (a ∷ b ∷ c ∷ d ∷ e ∷ f ∷ g ∷ h ∷ i ∷ j ∷ k ∷ l ∷ rest) n = (_, refl)
decode_announce_ok x y z w (a ∷ b ∷ c ∷ d ∷ e ∷ f ∷ g ∷ h ∷ i ∷ j ∷ k ∷ []) n = absurd (omega arith)
decode_announce_ok x y z w (a ∷ b ∷ c ∷ d ∷ e ∷ f ∷ g ∷ h ∷ i ∷ j ∷ []) n = absurd (omega arith)
decode_announce_ok x y z w (a ∷ b ∷ c ∷ d ∷ e ∷ f ∷ g ∷ h ∷ i ∷ []) n = absurd (omega arith)
decode_announce_ok x y z w (a ∷ b ∷ c ∷ d ∷ e ∷ f ∷ g ∷ h ∷ []) n = absurd (omega arith)
decode_announce_ok x y z w (a ∷ b ∷ c ∷ d ∷ e ∷ f ∷ g ∷ []) n = absurd (omega arith)
decode_announce_ok x y z w (a ∷ b ∷ c ∷ d ∷ e ∷ f ∷ []) n = absurd (omega arith)
decode_announce_ok x y z w (a ∷ b ∷ c ∷ d ∷ e ∷ []) n = absurd (omega arith)
decode_announce_ok x y z w (a ∷ b ∷ c ∷ d ∷ []) n = absurd (omega arith)
decode_announce_ok x y z w (a ∷ b ∷ c ∷ []) n = absurd (omega arith)
decode_announce_ok x y z w (a ∷ b ∷ []) n = absurd (omega arith)
decode_announce_ok x y z w (a ∷ []) n = absurd (omega arith)
decode_announce_ok x y z w [] n = absurd (omega arith)

-- Whatever the bytes of a packet, unless it is a response to a scrape, decoding does not panic:
-- the packet is malformed, or a response.
pub try_from_lem :
    (from_utf8_lossy : List ℕ → List ℕ) (src : List ℕ)
    → is_scrape src ≡ false
    → let decoded = try_from from_utf8_lossy src in
      (decoded ≡ err malformed_packet) ⊎ ((m : TrackerResponseMsg) × (decoded ≡ ok m))
unfolding try_from action_of decode_action
try_from_lem from_utf8_lossy [] n = inl refl
try_from_lem from_utf8_lossy (a ∷ []) n = inl refl
try_from_lem from_utf8_lossy (a ∷ b ∷ []) n = inl refl
try_from_lem from_utf8_lossy (a ∷ b ∷ c ∷ []) n = inl refl
try_from_lem from_utf8_lossy (a ∷ b ∷ c ∷ d ∷ []) n = inl refl
try_from_lem from_utf8_lossy (a ∷ b ∷ c ∷ d ∷ e ∷ []) n = inl refl
try_from_lem from_utf8_lossy (a ∷ b ∷ c ∷ d ∷ e ∷ f ∷ []) n = inl refl
try_from_lem from_utf8_lossy (a ∷ b ∷ c ∷ d ∷ e ∷ f ∷ g ∷ []) n = inl refl
try_from_lem from_utf8_lossy (a ∷ b ∷ c ∷ d ∷ e ∷ f ∷ g ∷ h ∷ rest) n =
    let value = be32 a b c d in
    let len = length (a ∷ b ∷ c ∷ d ∷ e ∷ f ∷ g ∷ h ∷ rest) in
    rw (long_enough len 8 (omega arith)) (elim (Bool-cases (value == 0)) [
      | inl z ↦ rw z (elim (Bool-cases (ltb len 16)) [
        | inl s ↦ inl (rw s)
        | inr s ↦ let (m, e) = decode_connect_ok e f g h rest (ground (arith, s)) in inr (m, rw s e)
      ])
      | inr z ↦ rw z (elim (Bool-cases (value == 1)) [
        | inl o ↦ rw o (elim (Bool-cases (ltb len 20)) [
          | inl s ↦ inl (rw s)
          | inr s ↦
              let (m, e) = decode_announce_ok e f g h rest (ground (arith, s)) in inr (m, rw s e)
        ])
        | inr o ↦
            rw (o, not_scrape value (length (e ∷ f ∷ g ∷ h ∷ rest)) n (omega arith))
              (elim (Bool-cases (value == 3)) [
                | inl t ↦ inr (
                  TrackerResponseMsg.error (be32 e f g h) (from_utf8_lossy rest),
                  rw t (unfold decode_error in refl),
                )
                | inr t ↦ inl (rw t)
              ])
      ])
    ])
  where
    not_scrape : (v l : ℕ) → (v == 2 && leb 4 l) ≡ false → 4 ≤ l → (v == 2) ≡ false
    not_scrape v l h le = ground (arith, h)

-- With an info hash and a peer ID of 20 bytes, an announce request takes 98 bytes.
pub encode-length :
    (key conn_id trans_id : ℕ) (info_hash peer_id : List ℕ) (downloaded left uploaded : ℕ)
    (event : ClientState) (port : ℕ)
    → length info_hash ≡ 20
    → length peer_id ≡ 20
    → length (
        encode key (
          TrackerRequestMsg.announce conn_id trans_id info_hash peer_id downloaded left uploaded
            event port))
      ≡ 98
unfolding encode
encode-length key conn_id trans_id info_hash peer_id downloaded left uploaded event port h i =
    let numbers =
      u64_bytes downloaded
      ++ (u64_bytes left
          ++ (u64_bytes uploaded
              ++ (u32_bytes (event_number event)
                  ++ (u32_bytes 0
                      ++ (u32_bytes key ++ (u32_bytes 0xFFFFFFFF ++ u16_bytes port)))))) in
    omega (arith, length-append info_hash (peer_id ++ numbers), length-append peer_id numbers)
