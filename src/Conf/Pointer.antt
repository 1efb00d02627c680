-- ===== src/Conf/Pointer.antt =====
-- The paths of internal/conf/update.go: JSON Pointers.
pub mod RoundTrip
use arupa.Base.{ℕ, Bool, true, false, not, List, [], ◌∷◌, ◌++◌, GoString, if◌then◌else◌, nat_eqb}
use arupa.Base.Result.{Result, ok, err, ◌>>=◌, ◌>>◌, reject_if}
use arupa.Strings.{bytes, has_prefix}
use arupa.Service.Filepath.{split_slash}

pub data PointerError : Type 0 where
  root_update not_a_pointer invalid_escape : PointerError

-- The two `ReplaceAll` calls of `JoinPath`: every tilde, then every slash. A tilde that the first
-- writes is not touched by the second.
unfoldable pub replace_tilde : GoString → GoString
replace_tilde [] = []
replace_tilde (c ∷ s) =
    let rest = replace_tilde s in if nat_eqb c b'~' then b'~' ∷ b'0' ∷ rest else c ∷ rest

unfoldable pub replace_slash : GoString → GoString
replace_slash [] = []
replace_slash (c ∷ s) =
    let rest = replace_slash s in if nat_eqb c b'/' then b'~' ∷ b'1' ∷ rest else c ∷ rest

unfoldable pub join_path : List GoString → GoString
join_path [] = []
join_path (segment ∷ segments) =
    b'/' ∷ (replace_slash (replace_tilde segment) ++ join_path segments)

-- The byte that an escape stands for.
abbrev unescaped : ℕ → Result PointerError ℕ
unescaped c =
    if nat_eqb c b'0'
    then ok b'~'
    else if nat_eqb c b'1'
    then ok b'/'
    else err PointerError.invalid_escape

-- The loop over the bytes of a segment.
unfoldable pub unescape : GoString → Result PointerError GoString
unescape [] = ok []
unescape (c ∷ []) = if nat_eqb c b'~' then err PointerError.invalid_escape else ok (c ∷ [])
unescape (c ∷ d ∷ s) = elim (nat_eqb c b'~') [
  | false ↦ unescape (d ∷ s) >>= λ rest. ok (c ∷ rest)
  | true ↦ unescaped d >>= λ b. unescape s >>= λ rest. ok (b ∷ rest)
]

unfoldable pub unescape_all : List GoString → Result PointerError (List GoString)
unfolding unescape
unescape_all [] = ok []
unescape_all (raw ∷ segments) = do
  segment ← unescape raw
  rest ← unescape_all segments
  ok (segment ∷ rest)

unfoldable pub parse_pointer : GoString → Result PointerError (List GoString)
unfolding unescape_all
parse_pointer [] = err PointerError.root_update
parse_pointer (c ∷ path) =
    if not (nat_eqb c b'/') then err PointerError.not_a_pointer else unescape_all (split_slash path)
