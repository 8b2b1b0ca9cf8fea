-- ===== src/BeValue.antt =====
-- src/bencoding/bevalue.rs: bencoded values and the typed access to them.
-- A string is the list of its bytes; a `HashMap` is the list of its entries.
use learntorrent.Base.{ℕ, ◌^◌, Bool, true, false, Option, none, some, List, ltb, if◌then◌else◌}
use learntorrent.Base.Int.{ℤ, pos, negsuc}
use learntorrent.Base.Text.{same_text, is_utf8}
use learntorrent.Base.Outcome.{Outcome, ok, err, ◌>>=◌}

mutual
  pub data BeValue : Type 0 where
    str : List ℕ → BeValue
    int : ℤ → BeValue
    dict : Entries → ℕ → ℕ → BeValue
    list : BeList → BeValue

  pub data BeList : Type 0 where
    nil : BeList
    cons : BeValue → BeList → BeList

  pub data Entries : Type 0 where
    end : Entries
    entry : List ℕ → BeValue → Entries → Entries

-- The numbers of `dict` are `src_range`: where the dictionary starts and ends in the source.
pub record Dict : Type 0 where
  pub vals : Entries
  pub start : ℕ
  pub stop : ℕ

-- The types as the error messages call them.
pub data Label : Type 0 where
  string integer dictionary list : Label

pub data ResponseParseError : Type 0 where
  invalid_type : Label → Label → ResponseParseError
  val_not_contained : List ℕ → ResponseParseError
  int_not_unsigned : ResponseParseError
  str_not_utf8 : ResponseParseError

abbrev pub Parsed : Type 0 → Type 0
Parsed A = Outcome ResponseParseError A

unfoldable pub get : Entries → List ℕ → Option BeValue
get end k = none
get (entry k' v vals) k = if same_text k' k then some v else get vals k

unfoldable pub contains : Dict → List ℕ → Bool
unfolding get
contains d k = elim (get d.vals k) [ some v ↦ true | none ↦ false ]

unfoldable pub expect : Dict → List ℕ → Parsed BeValue
expect d k = elim (get d.vals k) [ some v ↦ ok v | none ↦ err (val_not_contained k) ]

-- An optional field; if it is there, it must have the type that `f` reads.
unfoldable pub try_get : {A : Type 0} → Dict → List ℕ → (BeValue → Parsed A) → Parsed (Option A)
try_get d k f = elim (get d.vals k) [ some v ↦ (do a ← f v; ok (some a)) | none ↦ ok none ]

abbrev pub label : BeValue → Label
label (str s) = string
label (int i) = integer
label (dict vals start stop) = dictionary
label (BeValue.list vs) = Label.list

unfoldable pub get_dict : BeValue → Parsed Dict
get_dict (dict vals start stop) = ok (record { vals = vals; start = start; stop = stop })
get_dict v = err (invalid_type dictionary (label v))

-- The error names a dictionary as the type that was wanted.
unfoldable pub get_list : BeValue → Parsed BeList
get_list (BeValue.list vs) = ok vs
get_list v = err (invalid_type dictionary (label v))

unfoldable pub get_str : BeValue → Parsed (List ℕ)
get_str (str s) = ok s
get_str v = err (invalid_type string (label v))

unfoldable pub get_str_utf8 : BeValue → Parsed (List ℕ)
get_str_utf8 (str s) = if is_utf8 s then ok s else err str_not_utf8
get_str_utf8 v = err (invalid_type string (label v))

-- `u64::try_from` and `u32::try_from` of an `i64`.
unsigned : ℕ → ℤ → Parsed ℕ
unsigned bits (pos n) = if ltb n (2 ^ bits) then ok n else err int_not_unsigned
unsigned bits (negsuc n) = err int_not_unsigned

unfoldable pub get_u64 : BeValue → Parsed ℕ
unfolding unsigned
get_u64 (int i) = unsigned 64 i
get_u64 v = err (invalid_type integer (label v))

unfoldable pub get_u32 : BeValue → Parsed ℕ
unfolding unsigned
get_u32 (int i) = unsigned 32 i
get_u32 v = err (invalid_type integer (label v))
