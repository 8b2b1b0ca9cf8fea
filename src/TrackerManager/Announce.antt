-- ===== src/TrackerManager/Announce.antt =====
-- src/tracker_manager/udp.rs: the exchange with a UDP tracker.
-- The two packets that the tracker answers are arguments, and so are the random numbers and the port
-- of the socket, and the standard library's `from_utf8_lossy`. A packet that never comes, which the caller's timeout ends, is left out.
use learntorrent.Base.{
  zero, suc, suc, ℕ, ◌*◌, ◌≤◌, ◌≡◌, ◌≢◌, refl, ap, false, some, List, [], ◌∷◌, ◌==◌, ==→eq,
  if◌then◌else◌, length, take, arith, Bool-cases, inl, inr, ◌⊎◌,
}
use learntorrent.Base.Outcome.{Outcome, ok, err, ◌>>=◌, ◌>>◌}
use learntorrent.Metainfo.{Metainfo}
use learntorrent.Udp.{SocketAddr, started, TrackerRequestMsg, TrackerResponseMsg, encode, try_from}
use learntorrent.Udp.RoundTrip.{addr_bytes, packet, IsResponse, connect_back, announce_back}
use learntorrent.TrackerManager.Protocol.{
  TrErr, tracker_msg_err, tracker_protocol_err, TrackerResponse, lift,
}

abbrev pub maximum_packet_size : ℕ
maximum_packet_size = 2048

-- What does not fit into the buffer is cut off.
unfoldable pub recv_msg : (List ℕ → List ℕ) → List ℕ → Outcome TrErr TrackerResponseMsg
recv_msg from_utf8_lossy bs =
    lift tracker_msg_err (try_from from_utf8_lossy (take maximum_packet_size bs))

-- The transaction ID and the connection ID.
abbrev pub expect_connect : TrackerResponseMsg → Outcome TrErr (ℕ × ℕ)
expect_connect (TrackerResponseMsg.connect trans_id conn_id) = ok (trans_id, conn_id)
expect_connect (TrackerResponseMsg.announce t i l s peers) = err tracker_protocol_err
expect_connect (TrackerResponseMsg.error t text) = err tracker_protocol_err

-- The transaction ID, and what the response says.
abbrev pub expect_announce : TrackerResponseMsg → Outcome TrErr (ℕ × TrackerResponse)
expect_announce (TrackerResponseMsg.announce t interval leechers seeders peers) = ok (
  t,
  record { interval = interval; seeds = some seeders; leeches = some leechers; peers = peers },
)
expect_announce (TrackerResponseMsg.connect t c) = err tracker_protocol_err
expect_announce (TrackerResponseMsg.error t text) = err tracker_protocol_err

unfoldable pub check_trans_id : ℕ → ℕ → Outcome TrErr (Unit {0})
check_trans_id trans_id₁ trans_id₂ =
    if trans_id₁ == trans_id₂ then ok tt else err tracker_protocol_err

-- The random numbers of an exchange, and the socket's port.
pub record Draws : Type 0 where
  pub connect_id : ℕ
  pub announce_id : ℕ
  pub key : ℕ
  pub port : ℕ

-- The announce request on a connection.
abbrev pub announce_msg : Draws → Metainfo → List ℕ → ℕ → TrackerRequestMsg
announce_msg d mi client_id conn_id =
    TrackerRequestMsg.announce conn_id d.announce_id mi.info_hash client_id 0 mi.total_length 0
      started d.port

-- The response, and the two packets that were sent for it.
unfoldable pub announce :
    (List ℕ → List ℕ)
    → Draws
    → Metainfo
    → List ℕ
    → List ℕ
    → List ℕ
    → Outcome TrErr (TrackerResponse × List (List ℕ))
unfolding recv_msg check_trans_id
announce from_utf8_lossy d mi client_id first second = do
  let connect_msg : List ℕ = encode d.key (TrackerRequestMsg.connect d.connect_id)
  connect_resp ← recv_msg from_utf8_lossy first
  (trans_id, conn_id) ← expect_connect connect_resp
  check_trans_id d.connect_id trans_id
  let request : List ℕ = encode d.key (announce_msg d mi client_id conn_id)
  announce_resp ← recv_msg from_utf8_lossy second
  (trans_id', response) ← expect_announce announce_resp
  check_trans_id d.announce_id trans_id'
  ok (response, connect_msg ∷ request ∷ [])

take_all {ℓ} : {A : Type ℓ} (n : ℕ) (xs : List A) → length xs ≤ n → take n xs ≡ xs
take_all zero [] h = refl
take_all zero (x ∷ xs) h = absurd (omega arith)
take_all (suc n) [] h = refl
take_all (suc n) (x ∷ xs) h = ap (λ t. x ∷ t) (take_all n xs (omega arith))

recv_msg-packet :
    (from_utf8_lossy : List ℕ → List ℕ) (m : TrackerResponseMsg)
    → try_from from_utf8_lossy (packet m) ≡ ok m
    → length (packet m) ≤ maximum_packet_size
    → recv_msg from_utf8_lossy (packet m) ≡ ok m
unfolding recv_msg
recv_msg-packet f m e h = rw (take_all maximum_packet_size (packet m) h) (rw e)

-- Six bytes for each peer.
length-addr_bytes : (peers : List SocketAddr) → length (addr_bytes peers) ≡ 6 * length peers
length-addr_bytes [] = refl
length-addr_bytes (s ∷ peers) = omega (arith, length-addr_bytes peers)

check_trans_id-cases :
    (a b : ℕ)
    → (a ≡ b) × (check_trans_id a b ≡ ok tt)
      ⊎ (a ≢ b) × (check_trans_id a b ≡ err tracker_protocol_err)
unfolding check_trans_id
check_trans_id-cases a b = elim (Bool-cases (a == b)) [
  | inl e ↦ inl (==→eq a b e, rw e refl)
  | inr e ↦ inr (differ a b e, rw e refl)
]
  where
    differ : (a b : ℕ) → (a == b) ≡ false → a ≢ b
    differ a b e h = ground (arith, e, h)

-- If the tracker answers a connect and an announce response of at most 338 peers, the exchange
-- returns what the announce response says exactly if both have the transaction ID of their
-- request, and has then sent the two requests, the second on the connection that the first
-- response opened; otherwise it is a protocol error.
pub announce_lem :
    (from_utf8_lossy : List ℕ → List ℕ) (d : Draws) (mi : Metainfo) (client_id : List ℕ)
    (t conn_id t' interval leechers seeders : ℕ) (peers : List SocketAddr)
    → IsResponse (TrackerResponseMsg.connect t conn_id)
    → IsResponse (TrackerResponseMsg.announce t' interval leechers seeders peers)
    → length peers ≤ 338
    → let first = packet (TrackerResponseMsg.connect t conn_id) in
      let second = packet (TrackerResponseMsg.announce t' interval leechers seeders peers) in
      let answer = announce from_utf8_lossy d mi client_id first second in
      ((d.connect_id ≡ t)
        × (d.announce_id ≡ t')
        × (answer
            ≡ ok (
              record {
                interval = interval;
                seeds = some seeders;
                leeches = some leechers;
                peers = peers;
              },
              encode d.key (TrackerRequestMsg.connect t)
                  ∷ encode d.key (
                      TrackerRequestMsg.announce conn_id t' mi.info_hash client_id 0 mi.total_length
                        0 started d.port)
                  ∷ [],
            )))
      ⊎ (((d.connect_id ≢ t) ⊎ (d.announce_id ≢ t')) × (answer ≡ err tracker_protocol_err))
unfolding announce
announce_lem f d mi client_id t c t' i l s peers r r' n =
    let one =
      recv_msg-packet f (TrackerResponseMsg.connect t c) (connect_back f t c r) (omega arith) in
    let two =
      recv_msg-packet f (TrackerResponseMsg.announce t' i l s peers)
        (announce_back f t' i l s peers r') (omega (arith, n, length-addr_bytes peers)) in
    rw one (
      rw two (elim (check_trans_id-cases d.connect_id t) [
        | inr (ne, e) ↦ inr (inl ne, rw e refl)
        | inl (eq, e) ↦ elim (check_trans_id-cases d.announce_id t') [
          | inr (ne, e') ↦ inr (inr ne, rw e (rw e' refl))
          | inl (eq', e') ↦ inl (eq, eq', rw e (rw e' (rw (eq, eq') refl)))
        ]
      ]))
