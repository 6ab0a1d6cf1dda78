-- ===== src/Update/Numbers.antt =====
-- The numbers and texts of a form as the handler reads them: `atoiOrZero` of
-- internal/handlers/serverconfiguration_update.go, with `strconv.Atoi` and `strings.TrimSpace`.
pub mod Bounds
use go_resolver.Base.{
  Text, ℕ, ◌+◌, ◌-◌, ◌*◌, Bool, true, false, ◌&&◌, ◌||◌, List, [], ◌∷◌, ◌==◌, ltb, leb,
  if◌then◌else◌, is_digit,
}
use go_resolver.Base.Int.{ℤ, pos, signed, int64_limit, uint64_limit}
use go_resolver.Base.Trim.{trim_by}

-- `unicode.IsSpace`
unfoldable pub is_go_space : ℕ → Bool
is_go_space c =
    (leb 9 c && leb c 13)
    || c == 32
    || c == 133
    || c == 160
    || c == 5760
    || (leb 8192 c && leb c 8202)
    || c == 8232
    || c == 8233
    || c == 8239
    || c == 8287
    || c == 12288

-- `strings.TrimSpace`
unfoldable pub trim_space : Text → Text
unfolding is_go_space
trim_space s = trim_by is_go_space s

-- What `strconv.ParseUint` finds: a number, too large a number, or no number.
pub data Parsed : Type 0 where
  number : ℕ → Parsed
  range : Parsed
  syntax : Parsed

-- The loop of `strconv.ParseUint` at base 10: it stops at the first digit that takes the number out
-- of 64 bits, and does not look at what follows.
unfoldable pub parse_uint_from : ℕ → Text → Parsed
parse_uint_from acc [] = number acc
parse_uint_from acc (c ∷ s) =
    let next = acc * 10 + (c - b'0') in
    let rest = parse_uint_from next s in
    if is_digit c then if ltb next uint64_limit then rest else range else syntax

unfoldable pub parse_uint : Text → Parsed
unfolding parse_uint_from
parse_uint [] = syntax
parse_uint (c ∷ s) = parse_uint_from 0 (c ∷ s)

-- `strconv.ParseInt` behind the sign: a number out of the range is cut to its end, and no number is 0.
unfoldable pub clip : Bool → Parsed → ℤ
clip minus (number n) =
    if ltb n int64_limit
    then signed minus n
    else if minus
    then signed true int64_limit
    else pos (int64_limit - 1)
clip minus range = if minus then signed true int64_limit else pos (int64_limit - 1)
clip minus syntax = pos 0

-- The value that `strconv.Atoi` returns beside its error.
unfoldable pub atoi : Text → ℤ
unfolding parse_uint clip
atoi [] = pos 0
atoi (c ∷ s) =
    if c == b'-'
    then clip true (parse_uint s)
    else if c == b'+'
    then clip false (parse_uint s)
    else clip false (parse_uint (c ∷ s))

unfoldable pub atoi_or_zero : Text → ℤ
unfolding trim_space atoi
atoi_or_zero raw = atoi (trim_space raw)
