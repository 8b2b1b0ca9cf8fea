-- ===== src/Peer/Field.antt =====
-- `verify_bitfield`, and the bits of a field that it lets through.
use learntorrent.Base.{
  ℕ, zero, suc, ◌+◌, ◌-◌, ◌*◌, ◌/◌, ◌%◌, ◌^◌, ◌≤◌, ◌<◌, ◌≡◌, refl, sym, subst, ◌∙◌, bit_and, Bool,
  true, false, not, ◌||◌, List, [], ◌∷◌, some, ltb, ◌==◌, if◌then◌else◌, length, get_or, All, arith,
  Bool-cases, ==→eq, ◌⊎◌, inl, inr,
}
use learntorrent.Base.Words.{IsByte, sub32}
use learntorrent.Base.Float.{bytes_for, bytes_for_exact}
use learntorrent.Base.Outcome.{ok, err}
use learntorrent.PeerErr.{invalid_bitfield_msg}
use learntorrent.BitField.Laws.{bit, test_bit, every, every-at}
use learntorrent.PieceKeeper.Invariant.{Fits}
use learntorrent.Peer.{last, check_last, verify_bitfield}

-- A byte without the lowest `spare` bits has none of the last `spare` pieces.
spare_bit : ℕ → ℕ → ℕ → Bool
spare_bit byte spare k =
    (ltb k (8 - spare) || not (bit_and byte (2 ^ spare - 1) == 0)) || not (test_bit byte k)

spare_table : every (λ k. every (λ s. every (λ b. spare_bit b s k) 256) 8) 8 ≡ true
unfolding every spare_bit
spare_table = refl

spare_bit_lem :
    (byte spare k : ℕ)
    → byte < 256
    → spare < 8
    → k < 8
    → 8 ≤ k + spare
    → (bit_and byte (2 ^ spare - 1) == 0) ≡ true
    → test_bit byte k ≡ false
unfolding spare_bit
spare_bit_lem b s k hb hs hk le masked =
    let t = every-at (λ k. every (λ s. every (λ b. spare_bit b s k) 256) 8) 8 k hk spare_table in
    let u = every-at (λ s. every (λ b. spare_bit b s k) 256) 8 s hs t in
    let v = every-at (λ b. spare_bit b s k) 256 b hb u in
    right (ltb k (8 - s)) _ _ (ground (arith, le)) masked v
  where
    right :
        (low masked test : Bool)
        → low ≡ false
        → masked ≡ true
        → ((low || not masked) || not test) ≡ true
        → test ≡ false
    right low masked false h m v = refl
    right true masked true h m v = cc
    right false true true h m v = cc
    right false false true h m v = cc

last-get_or : (xs : List ℕ) (i : ℕ) → suc i ≡ length xs → last xs ≡ some (get_or xs i 0)
last-get_or [] i h = absurd (omega (arith, h))
last-get_or (x ∷ []) zero h = refl
last-get_or (x ∷ []) (suc i) h = absurd (omega (arith, h))
last-get_or (x ∷ y ∷ xs) zero h = absurd (omega (arith, h))
last-get_or (x ∷ y ∷ xs) (suc i) h = last-get_or (y ∷ xs) i (omega (arith, h))

get_or-byte : (xs : List ℕ) (i : ℕ) → All IsByte xs → get_or xs i 0 < 256
get_or-byte [] i h = omega arith
get_or-byte (x ∷ xs) zero h = h.0
get_or-byte (x ∷ xs) (suc i) h = get_or-byte xs i h.1

-- With the right length, what is left is the check of the last byte.
verify_long :
    (n : ℕ) (bitfield : List ℕ)
    → 0 < n
    → n ≤ 2 ^ 24
    → length bitfield ≡ (n + 7) / 8
    → verify_bitfield n bitfield ≡ (
        if bit_and (get_or bitfield (length bitfield - 1) 0) (2 ^ (8 * length bitfield - n) - 1)
          == 0
        then ok tt
        else err invalid_bitfield_msg)
unfolding verify_bitfield check_last
verify_long n bitfield pos small e =
    let exact = bytes_for_exact n small in
    rw (equal (length bitfield) (bytes_for n) (e ∙ sym exact)) (
      rw (spare (length bitfield) (bytes_for n) (e ∙ sym exact) (omega arith)) (
        rw (few (length bitfield) e)
          (rw (last-get_or bitfield (length bitfield - 1) (omega arith)))))
  where
    equal : (l m : ℕ) → l ≡ m → (l == m) ≡ true
    equal l m h = ground (arith, h)

    spare :
        (l m : ℕ) → l ≡ m → (8 * l < 2 ^ 32) × (n ≤ 8 * l) → sub32 (m * 8 % 2 ^ 32) n ≡ 8 * l - n
    spare l m e (h, le) = omega arith

    few : (l : ℕ) → l ≡ (n + 7) / 8 → ltb 8 (8 * l - n) ≡ false
    few l e = ground (arith, e)

-- For 1 to 2 ^ 24 pieces, a field of bytes is refused as an invalid bit field message, or it is
-- let through; then it has a bit for every piece, and no bit past the last piece is set.
pub verify_bitfield_lem :
    (n : ℕ) (bitfield : List ℕ)
    → 0 < n
    → n ≤ 2 ^ 24
    → All IsByte bitfield
    → (verify_bitfield n bitfield ≡ err invalid_bitfield_msg)
      ⊎ (verify_bitfield n bitfield ≡ ok tt)
        × Fits n bitfield
        × ((q : ℕ) → n ≤ q → q < 8 * length bitfield → bit bitfield q ≡ false)
verify_bitfield_lem n bitfield pos small bytes =
    elim (Bool-cases (length bitfield == bytes_for n)) [
      | inl e ↦
          let long : length bitfield ≡ (n + 7) / 8 = ==→eq _ _ e ∙ bytes_for_exact n small in
          elim (Bool-cases (
            bit_and (get_or bitfield (length bitfield - 1) 0) (2 ^ (8 * length bitfield - n) - 1)
            == 0)) [
              | inl z ↦ inr (
                verify_long n bitfield pos small long ∙ rw z,
                (bytes, omega arith),
                λ q lo hi.
                    spare_bit_lem (get_or bitfield (q / 8) 0) (8 * length bitfield - n) (q % 8)
                      (get_or-byte bitfield (q / 8) bytes) (omega arith) (omega arith) (omega arith)
                      (subst
                        (λ i.
                          (bit_and (get_or bitfield i 0) (2 ^ (8 * length bitfield - n) - 1) == 0)
                          ≡ true)
                        (omega arith) z),
              )
              | inr z ↦ inl (verify_long n bitfield pos small long ∙ rw z)
            ]
      | inr e ↦ inl (unfold verify_bitfield in rw e)
    ]
