-- ===== src/Tests/Bencoding.antt =====
-- Bencoded texts, and what a torrent's text holds.
use learntorrent.Base.{◌+◌, ◌^◌, ◌≤◌, ◌≡◌, ◌⊎◌, refl, [], ◌∷◌, ◌++◌, arith}
use learntorrent.Base.Int.{negsuc}
use learntorrent.Base.Text.{bytes, is_utf8, same_text}
use learntorrent.Base.Outcome.{ok, err, panicked}
use learntorrent.BeValue.{BeValue, str, int, dict, nil, cons, end, entry, get}
use learntorrent.Bencoding.{invalid_num, BeDecodeErr, parse_with, max_nesting_depth}
use learntorrent.Bencoding.Reads.{depth}
use learntorrent.Bencoding.Print.{onto, digits, digits_upto, Placed}
use learntorrent.Bencoding.Range.{parse_with-too_large}
use learntorrent.Bencoding.RoundTrip.{parse_with-onto}
use learntorrent.Bencoding.Total.{parse_with_lem}
use learntorrent.Bencoding.Huge.{parse_with_huge}

abbrev nested : BeValue
nested =
    dict
      (entry (bytes "a") (int (negsuc 2))
        (entry (bytes "b") (BeValue.list (cons (str (bytes "x")) nil)) end))
      0 17

nested_text : onto nested [] ≡ bytes "d1:ai-3e1:bl1:xee"
unfolding onto digits digits_upto
nested_text = refl

nested-Placed : Placed nested 0 []
unfolding Placed digits is_utf8 onto digits_upto get same_text
nested-Placed = (
  refl,
  refl,
  (refl, (refl, tt)),
  (refl, omega arith, omega arith, (refl, omega arith, (omega arith, tt), tt)),
)

parse_with-onto_example : parse_with (onto nested []) ≡ ok nested
parse_with-onto_example = parse_with-onto nested [] (unfold depth in omega arith) nested-Placed

parse_with_lem_example :
    ((v : BeValue) × (parse_with (bytes "d1:a") ≡ ok v) × (depth v ≤ max_nesting_depth + 1))
    ⊎ (((e : BeDecodeErr) × (parse_with (bytes "d1:a") ≡ err e))
        ⊎ (parse_with (bytes "d1:a") ≡ panicked))
parse_with_lem_example = parse_with_lem (bytes "d1:a")

parse_with_huge_example : parse_with (digits (2 ^ 63) ++ b':' ∷ []) ≡ panicked
parse_with_huge_example = parse_with_huge (2 ^ 63) [] (omega arith) (omega arith)

-- -2 ^ 63
parse_with-too_large_example :
    parse_with (onto (int (negsuc 9223372036854775807)) []) ≡ err invalid_num
parse_with-too_large_example = parse_with-too_large (negsuc 9223372036854775807) [] (omega arith)
