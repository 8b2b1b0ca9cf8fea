-- ===== src/TrackerManager/Http.antt =====
-- src/tracker_manager/http.rs: an HTTP tracker's URL and its response.
-- The encoding of bytes in a URL is of the `urlencoding` package, and a parameter.
use learntorrent.Base.{
  ℕ, ◌%◌, ◌/◌, ◌≡◌, refl, Bool, true, false, Option, none, some, List, [], ◌∷◌, ◌++◌, ◌==◌, ==→eq,
  if◌then◌else◌, length, All, arith, ◌⊎◌, inl, inr,
}
use learntorrent.Base.Text.{bytes}
use learntorrent.Base.Words.{IsByte, be16}
use learntorrent.Base.Outcome.{
  Outcome, ok, err, panicked, out_of_fuel, ◌>>=◌, ◌>>◌, Returns, after_step, after_check, returned,
}
use learntorrent.BeValue.{BeValue, Dict, Parsed, expect, try_get, get_dict, get_str, get_u32}
use learntorrent.Bencoding.Print.{digits}
use learntorrent.Metainfo.{Metainfo, piece_count}
use learntorrent.Udp.{socket_addrs, ClientState, started}
use learntorrent.Udp.RoundTrip.{addr_bytes}
use learntorrent.TrackerManager.Protocol.{
  TrErr, be_error, invalid_peers_len, TrackerResponse, lift, default_port,
}

pub record HttpTracker : Type 0 where
  pub tracker_id : Option (List ℕ)
  pub url : List ℕ

unfoldable pub init : List ℕ → HttpTracker
init url = record { tracker_id = none; url = url }

abbrev pub to_str : ClientState → List ℕ
to_str started = bytes "started"

module _ (encode_binary : List ℕ → List ℕ) where
  unfoldable pub build_announce_url :
      HttpTracker → Metainfo → List ℕ → ℕ → ℕ → ℕ → ClientState → List ℕ
  unfolding digits
  build_announce_url t mi client_id uploaded downloaded left event =
      t.url
      ++ (bytes "?info_hash="
          ++ (encode_binary mi.info_hash
              ++ (bytes "&peer_id="
                  ++ (encode_binary client_id
                      ++ (bytes "&port="
                          ++ (digits default_port
                              ++ (bytes "&uploaded="
                                  ++ (digits uploaded
                                      ++ (bytes "&downloaded="
                                          ++ (digits downloaded
                                              ++ (bytes "&left="
                                                  ++ (digits left
                                                      ++ (bytes "&event="
                                                          ++ (to_str event
                                                            ++ bytes "&compact=1"))))))))))))))

  -- What `announce` asks for.
  unfoldable pub request_url : HttpTracker → Metainfo → List ℕ → List ℕ
  unfolding build_announce_url
  request_url t mi client_id = build_announce_url t mi client_id 0 0 (piece_count mi) started

abbrev check_peers : Bool → ℕ → Outcome TrErr (Unit {0})
check_peers test len = if test then ok tt else err (invalid_peers_len len)

-- A tracker's ID is kept when the response has none.
abbrev new_id : Option (List ℕ) → Option (List ℕ) → Option (List ℕ)
new_id old none = old
new_id old (some id) = some id

unfoldable pub parse_bevalue : HttpTracker → BeValue → Outcome TrErr (TrackerResponse × HttpTracker)
parse_bevalue t v = do
  resp ← lift be_error (get_dict v)
  interval ← lift be_error (expect resp (bytes "interval") >>= get_u32)
  seeds ← lift be_error (try_get resp (bytes "complete") get_u32)
  leeches ← lift be_error (try_get resp (bytes "incomplete") get_u32)
  peers ← lift be_error (expect resp (bytes "peers") >>= get_str)
  check_peers (length peers % 6 == 0) (length peers)
  tracker_id ← lift be_error (try_get resp (bytes "tracker id") get_str)
  ok (
    record { interval = interval; seeds = seeds; leeches = leeches; peers = socket_addrs peers },
    record t { tracker_id = new_id t.tracker_id tracker_id },
  )

-- Six bytes for each address.
whole_addrs : (s : List ℕ) → All IsByte s → length s % 6 ≡ 0 → addr_bytes (socket_addrs s) ≡ s
unfolding socket_addrs
whole_addrs [] b h = refl
whole_addrs (a ∷ []) b h = absurd (omega arith)
whole_addrs (a ∷ a₁ ∷ []) b h = absurd (omega arith)
whole_addrs (a ∷ a₁ ∷ a₂ ∷ []) b h = absurd (omega arith)
whole_addrs (a ∷ a₁ ∷ a₂ ∷ a₃ ∷ []) b h = absurd (omega arith)
whole_addrs (a ∷ a₁ ∷ a₂ ∷ a₃ ∷ p ∷ []) b h = absurd (omega arith)
whole_addrs (a ∷ a₁ ∷ a₂ ∷ a₃ ∷ p ∷ q ∷ s) (_, (_, (_, (_, (hp, (hq, b)))))) h =
    let hi : be16 p q / 256 % 256 ≡ p = omega arith in
    let lo : be16 p q % 256 ≡ q = omega arith in rw (hi, lo, whole_addrs s b (omega arith)) refl

lift-ok : {A : Type 0} (m : Parsed A) (a : A) → lift be_error m ≡ ok a → m ≡ ok a
lift-ok (ok b) a e = cc e
lift-ok (err e') a e = absurd (cc e)
lift-ok panicked a e = absurd (cc e)
lift-ok out_of_fuel a e = absurd (cc e)

check_peers-true : (test : Bool) (len : ℕ) → check_peers test len ≡ ok tt → test ≡ true
check_peers-true true len e = refl
check_peers-true false len e = absurd (cc e)

-- What a response says, given the dictionary and the text of its peers.
abbrev pub Says : HttpTracker → Dict → List ℕ → TrackerResponse × HttpTracker → Type 0
Says t resp peers r =
    (addr_bytes r.0.peers ≡ peers)
    × ((expect resp (bytes "interval") >>= get_u32) ≡ ok r.0.interval)
    × (try_get resp (bytes "complete") get_u32 ≡ ok r.0.seeds)
    × (try_get resp (bytes "incomplete") get_u32 ≡ ok r.0.leeches)
    × (r.1.url ≡ t.url)
    × ((try_get resp (bytes "tracker id") get_str ≡ ok none) × (r.1.tracker_id ≡ t.tracker_id)
        ⊎ (try_get resp (bytes "tracker id") get_str ≡ ok r.1.tracker_id))

id_kept :
    (got : Parsed (Option (List ℕ))) (old o : Option (List ℕ))
    → got ≡ ok o
    → (got ≡ ok none) × (new_id old o ≡ old) ⊎ (got ≡ ok (new_id old o))
id_kept got old none e = inl (e, refl)
id_kept got old (some id) e = inr e

-- From a dictionary whose peers are a string of bytes, a response that is read without an error
-- has just the peers of which the string is the compact form, and the interval, seeds and leeches
-- of the dictionary; the tracker ID is that of the dictionary, or the old one if it has none, and
-- the URL stays.
pub parse_bevalue_lem :
    (t : HttpTracker) (v : BeValue) (resp : Dict) (peers : List ℕ)
    (r : TrackerResponse × HttpTracker)
    → get_dict v ≡ ok resp
    → (expect resp (bytes "peers") >>= get_str) ≡ ok peers
    → All IsByte peers
    → parse_bevalue t v ≡ ok r
    → Says t resp peers r
unfolding parse_bevalue
parse_bevalue_lem t v resp peers r is_dict has_peers b =
    let go : Returns (Says t resp peers) (parse_bevalue t v) = rw is_dict (
      after_step (lift be_error (expect resp (bytes "interval") >>= get_u32)) _ (λ interval i.
        after_step (lift be_error (try_get resp (bytes "complete") get_u32)) _ (λ seeds s.
          after_step (lift be_error (try_get resp (bytes "incomplete") get_u32)) _ (λ leeches l.
            rw has_peers (
              after_check (check_peers (length peers % 6 == 0) (length peers)) _ (λ m.
                after_step (lift be_error (try_get resp (bytes "tracker id") get_str)) _ (λ id d.
                  returned (Says t resp peers) _ (
                    whole_addrs peers b
                        (==→eq (length peers % 6) 0 (check_peers-true _ (length peers) m)),
                    lift-ok (expect resp (bytes "interval") >>= get_u32) interval i,
                    lift-ok (try_get resp (bytes "complete") get_u32) seeds s,
                    lift-ok (try_get resp (bytes "incomplete") get_u32) leeches l,
                    refl,
                    id_kept _ t.tracker_id id
                        (lift-ok (try_get resp (bytes "tracker id") get_str) id d),
                  )))))))) in
    go r
