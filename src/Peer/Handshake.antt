-- ===== src/Peer/Handshake.antt =====
-- The handshake: a buffer of 68 bytes, the length and name of the protocol, 8 bytes for extensions,
-- the info hash, and the client's ID. The struct's one field is `inner`.
use learntorrent.Base.{
  subst, ℕ, suc, zero, ◌≡◌, refl, ap, true, List, [], ◌∷◌, ◌++◌, replicate, length, take, drop,
  arith, if◌then◌else◌, take-append, drop-append,
}
use learntorrent.Base.Outcome.{Outcome, ok, err}
use learntorrent.PeerErr.{PeerErr, invalid_handshake}
use learntorrent.PieceTracker.{same_bytes}

-- "BitTorrent protocol"
abbrev pub protocol : List ℕ
protocol =
    66 ∷ 105 ∷ 116 ∷ 84 ∷ 111 ∷ 114 ∷ 114 ∷ 101 ∷ 110 ∷ 116 ∷ 32 ∷ 112 ∷ 114 ∷ 111 ∷ 116 ∷ 111 ∷ 99
    ∷ 111 ∷ 108 ∷ []

-- `copy_from_slice` of the hash and the ID, which are arrays of 20 bytes.
unfoldable pub new : List ℕ → List ℕ → List ℕ
new client_id info_hash = (0x13 ∷ protocol) ++ (replicate 8 0 ++ (info_hash ++ client_id))

unfoldable pub validate : List ℕ → List ℕ → Outcome PeerErr (List ℕ)
unfolding same_bytes
validate self peer =
    if same_bytes (take 48 self) (take 48 peer)
    then ok (take 20 (drop 48 peer))
    else err invalid_handshake

same_bytes_refl : (xs : List ℕ) → same_bytes xs xs ≡ true
unfolding same_bytes
same_bytes_refl [] = refl
same_bytes_refl (x ∷ xs) = ground (arith, same_bytes_refl xs)

take-length : (n : ℕ) (xs ys : List ℕ) → length xs ≡ n → take n (xs ++ ys) ≡ xs
take-length n xs ys h = subst (λ k. take k (xs ++ ys) ≡ xs) h (take-append xs ys)

drop-length : (n : ℕ) (xs ys : List ℕ) → length xs ≡ n → drop n (xs ++ ys) ≡ ys
drop-length n xs ys h = subst (λ k. drop k (xs ++ ys) ≡ ys) h (drop-append xs ys)

take_all : (n : ℕ) (xs : List ℕ) → length xs ≡ n → take n xs ≡ xs
take_all zero [] h = refl
take_all zero (x ∷ xs) h = absurd (omega (arith, h))
take_all (suc n) [] h = refl
take_all (suc n) (x ∷ xs) h = ap (λ t. x ∷ t) (take_all n xs (omega (arith, h)))

-- For info hashes and a client ID of 20 bytes, a handshake made by `new` lets another one through
-- exactly if the hashes are the same bytes, and then answers the ID of the other; otherwise it is
-- an invalid handshake.
pub validate-new :
    (id id' hash hash' : List ℕ)
    → length hash ≡ 20
    → length hash' ≡ 20
    → length id' ≡ 20
    → validate (new id hash) (new id' hash')
      ≡ (if same_bytes hash hash' then ok id' else err invalid_handshake)
unfolding new validate same_bytes
validate-new id id' hash hash' h h' i' =
    rw (take-length 20 hash id h, take-length 20 hash' id' h')
      (rw (drop-length 20 hash' id' h', take_all 20 id' i') refl)

-- Validated against itself, any buffer is let through.
pub validate_self : (peer : List ℕ) → validate peer peer ≡ ok (take 20 (drop 48 peer))
unfolding validate
validate_self peer = rw (same_bytes_refl (take 48 peer))
