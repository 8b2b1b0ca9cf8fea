-- ===== src/Peer/Connect.antt =====
-- The set-up of a connection. What the network does is an argument: how a call ends, under the
-- timeout around it.
use learntorrent.Base.{ℕ, ◌≡◌, ◌⊎◌, refl, inl, inr, Bool, true, false, if◌then◌else◌, List}
use learntorrent.Base.Outcome.{Outcome, ok, err, ◌>>=◌}
use learntorrent.PeerErr.{PeerErr, timeout, failed_connection}
use learntorrent.Peer.Handshake.{validate, validate_self}

pub data Call {ℓ} (A : Type ℓ) : Type ℓ where
  elapsed io_error : Call A
  done : A → Call A

-- `write_all` stands under no timeout, and succeeds or not; `read_exact` fills the buffer of a
-- handshake.
pub record Network : Type 0 where
  pub connected : Call (Unit {0})
  pub write_done : Bool
  pub read_exact : Call (List ℕ)

-- `map_err` and the conversion of the error by `?`.
unfoldable pub timed {ℓ} : {A : Type ℓ} → Call A → Outcome PeerErr A
timed elapsed = err timeout
timed io_error = err failed_connection
timed (done a) = ok a

abbrev pub sent_all : Bool → Outcome PeerErr (Unit {0})
sent_all success = if success then ok tt else err failed_connection

-- What the stream was sent, when it is handed on.
unfoldable pub setup_connection : List ℕ → Network → Outcome PeerErr (List ℕ)
unfolding timed
setup_connection handshake network = do
  _ ← timed network.connected
  _ ← sent_all network.write_done
  peer_handshake ← timed network.read_exact
  _ ← validate peer_handshake peer_handshake
  ok handshake

-- The three calls succeed.
abbrev pub Answers : Network → List ℕ → Type 0
Answers network peer =
    (network.connected ≡ done tt) × (network.write_done ≡ true) × (network.read_exact ≡ done peer)

-- A connection is set up exactly if the peer is reached, the own handshake is sent and a handshake
-- is read, whatever that says; otherwise the set-up ends in a timeout or a failed connection, so
-- that no handshake is invalid.
pub setup_connection_lem :
    (handshake : List ℕ) (network : Network)
    → ((peer : List ℕ) × Answers network peer × (setup_connection handshake network ≡ ok handshake))
      ⊎ (((peer : List ℕ) → ¬ Answers network peer)
          × ((setup_connection handshake network ≡ err timeout)
              ⊎ (setup_connection handshake network ≡ err failed_connection)))
unfolding setup_connection
setup_connection_lem handshake network = go network.connected network.write_done network.read_exact
  where
    go :
        (connected : Call (Unit {0})) (success : Bool) (read : Call (List ℕ))
        → let network : Network = record {
          connected = connected;
          write_done = success;
          read_exact = read;
        } in
          ((peer : List ℕ) × Answers network peer
            × (setup_connection handshake network ≡ ok handshake))
          ⊎ (((peer : List ℕ) → ¬ Answers network peer)
              × ((setup_connection handshake network ≡ err timeout)
                  ⊎ (setup_connection handshake network ≡ err failed_connection)))
    go elapsed w r = inr ((λ peer a. absurd (cc a.0)), inl refl)
    go io_error w r = inr ((λ peer a. absurd (cc a.0)), inr refl)
    go (done tt) false r = inr ((λ peer a. absurd (cc a.1)), inr refl)
    go (done tt) true elapsed = inr ((λ peer a. absurd (cc a.2)), inl refl)
    go (done tt) true io_error = inr ((λ peer a. absurd (cc a.2)), inr refl)
    go (done tt) true (done peer) = inl (peer, (refl, refl, refl), rw (validate_self peer) refl)
