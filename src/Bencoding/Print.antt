-- ===== src/Bencoding/Print.antt =====
-- Bencoded values written out, as a description of the format that does not follow the parser.
use learntorrent.Base.{
  ℕ, zero, suc, ◌+◌, ◌-◌, ◌/◌, ◌%◌, ◌^◌, ◌<◌, ◌≡◌, true, none, List, [], ◌∷◌, ◌++◌, ltb,
  if◌then◌else◌, length,
}
use learntorrent.Base.Int.{ℤ, pos, negsuc}
use learntorrent.Base.Text.{is_utf8}
use learntorrent.BeValue.{BeValue, BeList, Entries, str, int, dict, nil, cons, end, entry, get}
use learntorrent.Bencoding.{add}

-- The decimal digits, with the number of them at most; the number itself is more than enough.
unfoldable pub digits_upto : ℕ → ℕ → List ℕ
digits_upto zero n = []
digits_upto (suc most) n =
    let front = digits_upto most (n / 10) in
    if ltb n 10 then (n + b'0') ∷ [] else front ++ (n % 10 + b'0') ∷ []

unfoldable pub digits : ℕ → List ℕ
digits n = digits_upto (suc n) n

abbrev pub str_onto : List ℕ → List ℕ → List ℕ
str_onto s rest = digits (length s) ++ b':' ∷ (s ++ rest)

abbrev pub int_onto : ℤ → List ℕ → List ℕ
int_onto (pos n) rest = digits n ++ rest
int_onto (negsuc n) rest = b'-' ∷ (digits (suc n) ++ rest)

-- A value written in front of `rest`.
unfoldable mutual
  pub onto : BeValue → List ℕ → List ℕ
  onto (str s) rest = str_onto s rest
  onto (int i) rest = b'i' ∷ int_onto i (b'e' ∷ rest)
  onto (dict vals start stop) rest = b'd' ∷ entries_onto vals (b'e' ∷ rest)
  onto (BeValue.list vs) rest = b'l' ∷ items_onto vs (b'e' ∷ rest)

  pub items_onto : BeList → List ℕ → List ℕ
  items_onto nil rest = rest
  items_onto (cons v vs) rest = onto v (items_onto vs rest)

  pub entries_onto : Entries → List ℕ → List ℕ
  entries_onto end rest = rest
  entries_onto (entry k v vals) rest = str_onto k (onto v (entries_onto vals rest))

-- No key is there twice, nor among the entries before.
abbrev pub Fresh : Entries → Entries → Type 0
Fresh earlier end = Unit
Fresh earlier (entry k v vals) = (get earlier k ≡ none) × Fresh (add k v earlier) vals

abbrev pub magnitude : ℤ → ℕ
magnitude (pos n) = n
magnitude (negsuc n) = suc n

-- A value that the format has, at position `n` and before `rest`: numbers are less than 2 ^ 63 with
-- or without their sign, strings are shorter than that, keys are text and differ, and a dictionary
-- knows where in the source it stands.
unfoldable mutual
  pub Placed : BeValue → ℕ → List ℕ → Type 0
  Placed (str s) n rest = length s < 2 ^ 63
  Placed (int i) n rest = magnitude i < 2 ^ 63
  Placed (dict vals start stop) n rest =
      (start ≡ n)
      × (stop + length rest ≡ n + length (onto (dict vals start stop) rest))
      × Fresh end vals
      × PlacedEntries vals (n + 1) (b'e' ∷ rest)
  Placed (BeValue.list vs) n rest = PlacedItems vs (n + 1) (b'e' ∷ rest)

  pub PlacedItems : BeList → ℕ → List ℕ → Type 0
  PlacedItems nil n rest = Unit
  PlacedItems (cons v vs) n rest =
      let tail = items_onto vs rest in
      Placed v n tail × PlacedItems vs (n + length (onto v tail) - length tail) rest

  pub PlacedEntries : Entries → ℕ → List ℕ → Type 0
  PlacedEntries end n rest = Unit
  PlacedEntries (entry k v vals) n rest =
      let tail = entries_onto vals rest in
      let here = onto v tail in
      let at = n + length (str_onto k here) - length here in
      (is_utf8 k ≡ true)
      × (length k < 2 ^ 63)
      × Placed v at tail
      × PlacedEntries vals (at + length here - length tail) rest
