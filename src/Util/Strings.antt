-- ===== src/Util/Strings.antt =====
-- util/string.go
pub mod Ints
use ptool.Base.{
  ℕ, Bool, true, false, not, ◌&&◌, ◌||◌, List, [], ◌∷◌, ◌++◌, if◌then◌else◌, leb, ◌==◌, length,
}
use ptool.Base.Int.{ℤ}
use ptool.Base.Decimal.{parse_int_value}
use ptool.Base.Text.{Text, codes, Unicode, str_eq, has_prefix, contains, drop}

-- strings.HasSuffix
unfoldable pub has_suffix : Text → Text → Bool
unfolding str_eq
has_suffix [] p = str_eq [] p
has_suffix (a ∷ s) p = str_eq (a ∷ s) p || has_suffix s p

-- strings.TrimPrefix
unfoldable pub trim_prefix : Text → Text → Text
unfolding has_prefix drop
trim_prefix s p = if has_prefix s p then drop (length p) s else s

-- strings.TrimSuffix
unfoldable pub trim_suffix : Text → Text → Text
unfolding str_eq
trim_suffix [] p = []
trim_suffix (a ∷ s) p = if str_eq (a ∷ s) p then [] else a ∷ trim_suffix s p

module _ ⦃u : Unicode⦄ where
  unfoldable pub contains_i : Text → Text → Bool
  unfolding contains
  contains_i str substr = contains (u.to_lower str) (u.to_lower substr)

unfoldable pub is_url : Text → Bool
unfolding has_prefix
is_url str = has_prefix str (codes "http://") || has_prefix str (codes "https://")

unfoldable pub is_pure_torrent_url : Text → Bool
unfolding has_prefix
is_pure_torrent_url str = has_prefix str (codes "magnet:") || has_prefix str (codes "bc://bt/")

unfoldable pub is_torrent_url : Text → Bool
unfolding is_url is_pure_torrent_url
is_torrent_url str = is_url str || is_pure_torrent_url str

unfoldable pub parse_relative_url : Text → Text → Text
unfolding is_url trim_suffix trim_prefix str_eq
parse_relative_url relative_url base_url =
    if is_url relative_url || str_eq base_url []
    then relative_url
    else let base = if not (is_url base_url) then codes "https://" ++ base_url else base_url in
      trim_suffix base (codes "/") ++ (codes "/" ++ trim_prefix relative_url (codes "/"))

-- [a-fA-F0-9]
unfoldable pub is_hex_digit : ℕ → Bool
is_hex_digit c = leb b'a' c && leb c b'f' || (leb b'A' c && leb c b'F' || leb b'0' c && leb c b'9')

unfoldable pub all_hex : Text → Bool
unfolding is_hex_digit
all_hex [] = true
all_hex (c ∷ s) = is_hex_digit c && all_hex s

unfoldable pub is_hex_string : Text → ℕ → Bool
unfolding all_hex
is_hex_string str min_length = leb min_length (length str) && all_hex str

unfoldable pub all_digits : Text → Bool
all_digits [] = true
all_digits (c ∷ s) = leb b'0' c && leb c b'9' && all_digits s

unfoldable pub is_int_string : Text → Bool
unfolding all_digits
is_int_string [] = false
is_int_string (c ∷ s) = all_digits (c ∷ s)

unfoldable pub append_url_query_string_delimiter : Text → Text
unfolding has_suffix contains
append_url_query_string_delimiter url =
    if not (has_suffix url (codes "?"))
    then if not (contains url (codes "?"))
      then url ++ codes "?"
      else if not (has_suffix url (codes "&"))
      then url ++ codes "&"
      else url
    else url

unfoldable pub append_url_query_string : Text → Text → Text
unfolding append_url_query_string_delimiter has_prefix drop
append_url_query_string url qs =
    append_url_query_string_delimiter url
    ++ (if has_prefix qs (codes "?") || has_prefix qs (codes "&") then drop 1 qs else qs)

unfoldable pub has_any_suffix : Text → List Text → Bool
unfolding has_suffix
has_any_suffix str [] = false
has_any_suffix str (suffix ∷ suffixes) = has_suffix str suffix || has_any_suffix str suffixes

unfoldable pub trim_any_suffix : Text → List Text → Text
unfolding has_suffix trim_suffix
trim_any_suffix str [] = str
trim_any_suffix str (suffix ∷ suffixes) =
    if has_suffix str suffix then trim_suffix str suffix else trim_any_suffix str suffixes

-- ToSlash
unfoldable pub to_slash : Text → Text
to_slash [] = []
to_slash (c ∷ path) = (if c == 92 then b'/' else c) ∷ to_slash path

-- EscapeQuotes: a backslash before each backslash and each quote.
unfoldable pub escape_quotes : Text → Text
escape_quotes [] = []
escape_quotes (c ∷ s) = if c == 92 || c == 34 then 92 ∷ c ∷ escape_quotes s else c ∷ escape_quotes s

unfoldable pub without_commas : Text → Text
without_commas [] = []
without_commas (c ∷ s) = let rest = without_commas s in if c == b',' then rest else c ∷ rest

-- ParseInt, with strings.TrimSpace, which needs the Unicode tables, as a parameter.
unfoldable pub parse_int : (Text → Text) → Text → ℤ
unfolding parse_int_value without_commas
parse_int trim_space str = parse_int_value (trim_space (without_commas str))
