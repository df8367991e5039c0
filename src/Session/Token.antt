-- ===== src/Session/Token.antt =====
-- The raw refresh token, `buildRawToken` and `parseRawToken` of
-- src/features/auth/session.service.ts. A text is the list of its ASCII codes.
use labour_baba_backend.Base.{
  leb, ◌==◌, if◌then◌else◌, length, Text, is_blank, ℕ, zero, suc, ◌*◌, Bool, true, false, not, ◌&&◌,
  ◌||◌, Option, none, some, List, [], ◌∷◌, ◌++◌,
}

-- `REFRESH_TOKEN_SEPARATOR`, a full stop
abbrev pub separator : ℕ
separator = 46

abbrev pub refresh_secret_bytes : ℕ
refresh_secret_bytes = 32

unfoldable pub build_raw_token : Text → Text → Text
build_raw_token session_id secret = session_id ++ separator ∷ secret

-- `s.indexOf(c)`, with `none` for -1
abbrev pub index_of : ℕ → Text → Option ℕ
index_of c [] = none
index_of c (x ∷ s) =
    let rest = index_of c s in
    if x == c then some 0 else elim rest [ none ↦ none | some i ↦ some (suc i) ]

-- `s.slice(0, n)`
abbrev pub take : ℕ → Text → Text
take zero s = []
take (suc n) [] = []
take (suc n) (x ∷ s) = x ∷ take n s

-- `s.slice(n)`
abbrev pub drop : ℕ → Text → Text
drop zero s = s
drop (suc n) [] = []
drop (suc n) (x ∷ s) = drop n s

abbrev between : ℕ → ℕ → ℕ → Bool
between a c b = leb a c && leb c b

-- `[0-9a-f]` with the flag `i`
abbrev pub is_hex : ℕ → Bool
is_hex c = between b'0' c b'9' || (between b'a' c b'f' || between b'A' c b'F')

-- What stands at a place of a UUID.
pub data Place : Type 0 where
  hex dash : Place

abbrev hexes : ℕ → List Place → List Place
hexes zero rest = rest
hexes (suc n) rest = hex ∷ hexes n rest

-- `^[0-9a-f]{8}-[0-9a-f]{4}-[0-9a-f]{4}-[0-9a-f]{4}-[0-9a-f]{12}$`
abbrev pub uuid_places : List Place
uuid_places = hexes 8 (dash ∷ hexes 4 (dash ∷ hexes 4 (dash ∷ hexes 4 (dash ∷ hexes 12 []))))

abbrev pub fits : List Place → Text → Bool
fits [] [] = true
fits [] (_ ∷ _) = false
fits (_ ∷ _) [] = false
fits (hex ∷ p) (c ∷ s) = is_hex c && fits p s
fits (dash ∷ p) (c ∷ s) = c == b'-' && fits p s

-- `UUID_RE.test(s)`
unfoldable pub is_uuid : Text → Bool
is_uuid s = fits uuid_places s

unfoldable pub is_secret : Text → Bool
is_secret s = not (is_blank s) && length s == refresh_secret_bytes * 2

-- on the index of the separator; at 0 there is no session id
unfoldable pub parse_at : ℕ → Text → Option (Text × Text)
parse_at index raw =
    let session_id = take index raw in
    let secret = drop (suc index) raw in
    if index == 0
    then none
    else if is_blank session_id || not (is_secret secret)
    then none
    else if not (is_uuid session_id)
    then none
    else some (session_id, secret)

unfoldable pub parse_raw_token : Text → Option (Text × Text)
parse_raw_token raw = elim (index_of separator raw) [
  | none ↦ none
  | some index ↦ parse_at index raw
]
