-- ===== src/TrackerManager/Protocol.antt =====
-- src/tracker_manager.rs: what the two protocols of trackers share.
use learntorrent.Base.{
  zero, suc, ◌++◌, ℕ, Bool, true, false, ◌&&◌, Option, none, some, List, [], ◌∷◌, ◌==◌,
  if◌then◌else◌, drop, length,
}
use learntorrent.Base.Text.{bytes, same_text}
use learntorrent.Base.Outcome.{Outcome, ok, err, panicked, out_of_fuel}
use learntorrent.BeValue.{ResponseParseError}
use learntorrent.Bencoding.{BeDecodeErr}
use learntorrent.Udp.{SocketAddr, TrackerMsgDecodeErr}

-- The errors of the sockets, of HTTP and of tasks are left out.
pub data TrErr : Type 0 where
  be_error : ResponseParseError → TrErr
  be_decode_error : BeDecodeErr → TrErr
  invalid_peers_len : ℕ → TrErr
  tracker_msg_err : TrackerMsgDecodeErr → TrErr
  tracker_protocol_err unknown_protocol invalid_url : TrErr

abbrev pub default_port : ℕ
default_port = 6881

pub record TrackerResponse : Type 0 where
  pub interval : ℕ
  pub seeds : Option ℕ
  pub leeches : Option ℕ
  pub peers : List SocketAddr

-- The conversion of an error by `?`.
abbrev pub lift {ℓ κ} : {E : Type κ} {A : Type ℓ} → (E → TrErr) → Outcome E A → Outcome TrErr A
lift f (ok a) = ok a
lift f (err e) = err (f e)
lift f panicked = panicked
lift f out_of_fuel = out_of_fuel

unfoldable pub starts_with : List ℕ → List ℕ → Bool
starts_with [] s = true
starts_with (p ∷ ps) [] = false
starts_with (p ∷ ps) (x ∷ xs) = x == p && starts_with ps xs

-- `split_once`: what stands before and after the first place where the text has `p`.
unfoldable pub split_once : List ℕ → List ℕ → Option (List ℕ × List ℕ)
unfolding starts_with
split_once p [] = if starts_with p [] then some ([], []) else none
split_once p (x ∷ xs) =
    let rest : Option (List ℕ × List ℕ) = elim (split_once p xs) [
      | none ↦ none
      | some r ↦ some (x ∷ r.0, r.1)
    ] in
    if starts_with p (x ∷ xs) then some ([], drop (length p) (x ∷ xs)) else rest

pub data Protocol : Type 0 where
  http udp : Protocol

-- The protocol that the URL names.
unfoldable pub init : List ℕ → Outcome TrErr Protocol
unfolding split_once
init url = elim (split_once (bytes "://") url) [
  | none ↦ err unknown_protocol
  | some r ↦
      if same_text r.0 (bytes "http")
      then ok http
      else if same_text r.0 (bytes "udp")
      then ok udp
      else err unknown_protocol
]

-- `trim_start_matches`: every `p` at the front is taken off; there are no more of them than bytes.
unfoldable pub trim_start : ℕ → List ℕ → List ℕ → List ℕ
unfolding starts_with
trim_start zero p s = s
trim_start (suc rounds) p s =
    let rest = trim_start rounds p (drop (length p) s) in if starts_with p s then rest else s

-- The address that the socket of a UDP tracker connects to.
unfoldable pub udp_address : List ℕ → Outcome TrErr (List ℕ)
unfolding trim_start split_once
udp_address url =
    elim (split_once (bytes "/announce") (trim_start (length url) (bytes "udp://") url)) [
      | none ↦ err invalid_url
      | some r ↦ ok r.0
    ]

-- `random` answers the bytes.
unfoldable pub random_bytes : ℕ → (ℕ → ℕ) → List ℕ
random_bytes zero random = []
random_bytes (suc n) random = random_bytes n random ++ random n ∷ []

unfoldable pub gen_client_id : (ℕ → ℕ) → List ℕ
unfolding random_bytes
gen_client_id random = bytes "-LO0001-" ++ random_bytes 12 random
