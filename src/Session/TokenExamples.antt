-- ===== src/Session/TokenExamples.antt =====
-- The theorem on raw tokens at a concrete input.
use labour_baba_backend.Base.{is_some, Text, text, ◌≡◌, refl, ◌↔◌, true, false, some, [], ◌∷◌, map}
use labour_baba_backend.Session.Token.{
  build_raw_token, is_uuid, is_secret, parse_at, parse_raw_token,
}
use labour_baba_backend.Session.Tokens.{token_round_trip}

abbrev session_id : Text
session_id = text "3f2504e0-4f89-11d3-9a0c-0305e82c3301"

abbrev secret : Text
secret = text "0123456789abcdef0123456789abcdef0123456789abcdef0123456789abcdef"

read_back : parse_raw_token (build_raw_token session_id secret) ≡ some (session_id, secret)
unfolding parse_raw_token build_raw_token parse_at is_uuid is_secret
read_back = refl

-- Without the separator, or with a short secret, there is no token.
refused :
    map
      (λ t. is_some (parse_raw_token t))
      (session_id ∷ build_raw_token session_id (text "0123") ∷ [])
    ≡ false ∷ false ∷ []
unfolding parse_raw_token build_raw_token parse_at is_uuid is_secret
refused = refl

token_round_trip_example :
    (parse_raw_token (build_raw_token session_id secret) ≡ some (session_id, secret)) ↔ (
      (build_raw_token session_id secret ≡ build_raw_token session_id secret)
      × (is_uuid session_id ≡ true)
      × (is_secret secret ≡ true))
token_round_trip_example = token_round_trip (build_raw_token session_id secret) session_id secret
