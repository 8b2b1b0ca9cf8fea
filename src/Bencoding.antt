-- ===== src/Bencoding.antt =====
-- src/bencoding.rs: the parser of bencoded values.
-- The parser's `src` and `pos` are what is left of the source, and the position. The recursion
-- depth is an argument: it goes up by one while a value is read, and is back after it.
pub mod Reads
pub mod Total
pub mod Print
pub mod Digits
pub mod Scalars
pub mod RoundTrip
pub mod Places
pub mod Huge
pub mod Range
use learntorrent.Base.{
  ℕ, zero, suc, ◌+◌, ◌^◌, Bool, true, false, not, Option, none, some, List, [], ◌∷◌, ltb, leb, ◌==◌,
  if◌then◌else◌, length,
}
use learntorrent.Base.Int.{ℤ, pos, neg_ℕ}
use learntorrent.Base.Text.{is_digit, parse_u64, is_utf8}
use learntorrent.Base.Outcome.{Outcome, ok, err, panicked, out_of_fuel, ok_or, ◌>>=◌, ◌>>◌}
use learntorrent.BeValue.{BeValue, BeList, Entries, str, int, dict, nil, cons, end, entry, get}

pub data BeDecodeErr : Type 0 where
  unexpected_end : BeDecodeErr
  invalid_initial_byte : ℕ → BeDecodeErr
  invalid_str_len : BeDecodeErr
  invalid_num : BeDecodeErr
  unexpected : Option ℕ → BeDecodeErr
  invalid_dict_key : BeDecodeErr
  max_nesting_depth_exceeded : BeDecodeErr
  duplicate_dict_keys : BeDecodeErr

abbrev pub max_nesting_depth : ℕ
max_nesting_depth = 16

pub record Parser : Type 0 where
  pub rest : List ℕ
  pub pos : ℕ

abbrev pub Read : Type 0 → Type 0
Read A = Outcome BeDecodeErr (A × Parser)

abbrev pub peek : Parser → Option ℕ
peek p = elim p.rest [ [] ↦ none | b ∷ rest ↦ some b ]

-- The position moves on also at the end.
abbrev pub next : Parser → Option ℕ × Parser
next p = elim p.rest [
  | [] ↦ (none, record { rest = []; pos = p.pos + 1 })
  | b ∷ rest ↦ (some b, record { rest = rest; pos = p.pos + 1 })
]

-- `self.next().unwrap()`
abbrev pub skip : Parser → Outcome BeDecodeErr Parser
skip p = elim (next p).0 [ none ↦ panicked | some b ↦ ok (next p).1 ]

abbrev is_byte : ℕ → Option ℕ → Bool
is_byte expected (some c) = c == expected
is_byte expected none = false

unfoldable pub expect : ℕ → Parser → Outcome BeDecodeErr Parser
expect expected p =
    if is_byte expected (next p).0 then ok (next p).1 else err (unexpected (next p).0)

-- `take_while` with the test for a digit: the digits, and the parser at what follows them.
unfoldable pub take_digits : List ℕ → ℕ → Read (List ℕ)
take_digits [] n = err unexpected_end
take_digits (b ∷ rest) n =
    let more = (do (ds, p) ← take_digits rest (n + 1); ok (b ∷ ds, p)) in
    if is_digit b then more else ok ([], record { rest = b ∷ rest; pos = n })

unfoldable pub parse_digits : Parser → Read ℕ
unfolding take_digits
parse_digits p = do
  (digits, p') ← take_digits p.rest p.pos
  num ← ok_or (parse_u64 digits) invalid_str_len
  ok (num, p')

-- `i64::try_from` of a `u64`.
abbrev to_i64 : ℕ → Outcome BeDecodeErr ℕ
to_i64 n = if ltb n (2 ^ 63) then ok n else err invalid_num

parse_num : (ℕ → ℤ) → Parser → Read ℤ
parse_num signed p = do
  (digits, p₁) ← parse_digits p
  num ← to_i64 digits
  p₂ ← expect b'e' p₁
  ok (signed num, p₂)

unfoldable pub parse_int : Parser → Read ℤ
unfolding parse_num parse_digits expect
parse_int p = do
  p₁ ← skip p
  if is_byte b'-' (peek p₁) then parse_num neg_ℕ (next p₁).1 else parse_num pos p₁

-- `for _ in 0..len`
unfoldable pub read_bytes : ℕ → List ℕ → ℕ → Read (List ℕ)
read_bytes zero rest n = ok ([], record { rest = rest; pos = n })
read_bytes (suc len) [] n = err unexpected_end
read_bytes (suc len) (b ∷ rest) n = do (string, p) ← read_bytes len rest (n + 1); ok (b ∷ string, p)

-- A capacity above `isize::MAX` is a panic. Memory that runs out below that is left out.
abbrev with_capacity : ℕ → Outcome BeDecodeErr (Unit {0})
with_capacity len = if ltb len (2 ^ 63) then ok tt else panicked

unfoldable pub parse_str : Parser → Read (List ℕ)
unfolding parse_digits expect read_bytes
parse_str p = do
  (len, p₁) ← parse_digits p
  p₂ ← expect b':' p₁
  with_capacity len
  read_bytes len p₂.rest p₂.pos

-- The loop of `parse_list`; the list is built from its end. `parse` reads one value.
unfoldable pub parse_items : (Parser → Read BeValue) → ℕ → Parser → Read BeList
parse_items parse zero p = out_of_fuel
parse_items parse (suc rounds) p = elim (peek p) [
  | none ↦ err unexpected_end
  | some b ↦ elim (b == b'e') [
    | true ↦ ok (nil, (next p).1)
    | false ↦ do
      (val, p₁) ← parse p
      (list, p₂) ← parse_items parse rounds p₁
      ok (cons val list, p₂)
  ]
]

-- A new entry goes behind the others.
abbrev pub add : List ℕ → BeValue → Entries → Entries
add k v end = entry k v end
add k v (entry k' v' vals) = entry k' v' (add k v vals)

abbrev key_of : List ℕ → Outcome BeDecodeErr (List ℕ)
key_of s = if is_utf8 s then ok s else err invalid_dict_key

abbrev insert : List ℕ → BeValue → Entries → Outcome BeDecodeErr Entries
insert k v vals = elim (get vals k) [
  | some old ↦ err duplicate_dict_keys
  | none ↦ ok (add k v vals)
]

-- The loop of `parse_dict`.
unfoldable pub parse_entries : (Parser → Read BeValue) → ℕ → Entries → Parser → Read Entries
unfolding parse_str
parse_entries parse zero vals p = out_of_fuel
parse_entries parse (suc rounds) vals p = elim (peek p) [
  | none ↦ err unexpected_end
  | some b ↦ elim (b == b'e') [
    | true ↦ ok (vals, (next p).1)
    | false ↦ do
      (s, p₁) ← parse_str p
      key ← key_of s
      (val, p₂) ← parse p₁
      vals' ← insert key val vals
      parse_entries parse rounds vals' p₂
  ]
]

-- Each round reads a byte at least.
abbrev rounds_for : Parser → ℕ
rounds_for p = length p.rest + 1

unfoldable pub parse_list : (Parser → Read BeValue) → Parser → Read BeValue
unfolding parse_items
parse_list parse p = do
  p₁ ← skip p
  (list, p₂) ← parse_items parse (rounds_for p₁) p₁
  ok (BeValue.list list, p₂)

unfoldable pub parse_dict : (Parser → Read BeValue) → Parser → Read BeValue
unfolding parse_entries
parse_dict parse p = do
  p₁ ← skip p
  (vals, p₂) ← parse_entries parse (rounds_for p₁) end p₁
  ok (dict vals p.pos p₂.pos, p₂)

-- The `match` on the first byte; `parse` reads the values inside.
unfoldable pub parse_tagged : (Parser → Read BeValue) → Parser → Option ℕ → Read BeValue
unfolding parse_int parse_str parse_list parse_dict
parse_tagged parse p none = err unexpected_end
parse_tagged parse p (some c) =
    if c == b'i'
    then (do (num, p') ← parse_int p; ok (int num, p'))
    else if c == b'l'
    then parse_list parse p
    else if c == b'd'
    then parse_dict parse p
    else if is_digit c
    then (do (s, p') ← parse_str p; ok (str s, p'))
    else err (invalid_initial_byte c)

-- `levels` is fuel: no more levels are entered than the depth allows.
unfoldable pub parse_value : ℕ → ℕ → Parser → Read BeValue
unfolding parse_tagged
parse_value zero recursion_depth p = out_of_fuel
parse_value (suc levels) recursion_depth p = elim (ltb max_nesting_depth recursion_depth) [
  | true ↦ err max_nesting_depth_exceeded
  | false ↦ parse_tagged (parse_value levels (recursion_depth + 1)) p (peek p)
]

-- What follows the value is left alone.
unfoldable pub parse_with : List ℕ → Outcome BeDecodeErr BeValue
unfolding parse_value
parse_with src = do
  (val, p) ← parse_value (max_nesting_depth + 2) 0 (record { rest = src; pos = 0 })
  ok val
