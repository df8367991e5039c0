-- ===== src/Session/Tokens.antt =====
-- Tokens are read as they were built.
use mathlib.Core.Path.{subst}
use labour_baba_backend.Base.{
  ◌==◌, ==_iff, Bool-cases, Option-cases, or_else, length, Text, is_blank, ℕ, suc, ◌≡◌, refl, sym,
  ap, ◌∙◌, ◌↔◌, inl, inr, Bool, true, false, not, ◌||◌, Option, some, List, [], ◌∷◌, ◌++◌, arith,
}
use labour_baba_backend.Session.Token.{
  Place, hex, dash, separator, build_raw_token, index_of, take, drop, uuid_places, fits, is_uuid,
  is_secret, parse_at, parse_raw_token,
}
use mathlib.Core.Path.{subst}

-- No place of a UUID holds the separator.
fits-index_of :
    (p : List Place) (s t : Text)
    → fits p s ≡ true
    → index_of separator (s ++ separator ∷ t) ≡ some (length s)
fits-index_of [] [] t h = refl
fits-index_of [] (c ∷ s) t h = ground arith
fits-index_of (q ∷ p) [] t h = ground arith
fits-index_of (hex ∷ p) (c ∷ s) t h = ground (arith, fits-index_of p s t)
fits-index_of (dash ∷ p) (c ∷ s) t h = ground (arith, fits-index_of p s t)

take-append : (s t : Text) → take (length s) (s ++ t) ≡ s
take-append [] t = refl
take-append (c ∷ s) t = ap (λ r. c ∷ r) (take-append s t)

drop-append : (s t : Text) (c : ℕ) → drop (suc (length s)) (s ++ c ∷ t) ≡ t
drop-append [] t c = refl
drop-append (x ∷ s) t c = drop-append s t c

index_of-split :
    (c : ℕ) (s : Text) {n : ℕ} → index_of c s ≡ some n → s ≡ take n s ++ c ∷ drop (suc n) s
index_of-split c [] {n} h = ground arith
index_of-split c (x ∷ s) {n} h = elim (Bool-cases (x == c)) [
  | inl this ↦
      let at : 0 ≡ n = ground arith in
      subst (λ n. x ∷ s ≡ take n (x ∷ s) ++ c ∷ drop (suc n) (x ∷ s)) at
        (ap (λ k. k ∷ s) ((==_iff x c).0 this))
  | inr other ↦ elim (Option-cases (index_of c s)) [
    | inl nowhere ↦ ground arith
    | inr (i, there) ↦
        let at : suc i ≡ n = ground arith in
        subst (λ n. x ∷ s ≡ take n (x ∷ s) ++ c ∷ drop (suc n) (x ∷ s)) at
          (ap (λ r. x ∷ r) (index_of-split c s there))
  ]
]

-- A session id and a secret that are read at an index of the separator.
parse_at_sound :
    (index : ℕ) (raw session_id secret : Text)
    → parse_at index raw ≡ some (session_id, secret)
    → (session_id ≡ take index raw)
      × (secret ≡ drop (suc index) raw)
      × (is_uuid session_id ≡ true)
      × (is_secret secret ≡ true)
unfolding parse_at
parse_at_sound index raw session_id secret h = elim (Bool-cases (index == 0)) [
  | inl first ↦ ground arith
  | inr later ↦
      elim (Bool-cases (is_blank (take index raw) || not (is_secret (drop (suc index) raw)))) [
        | inl wrong ↦ ground arith
        | inr right ↦ elim (Bool-cases (is_uuid (take index raw))) [
          | inr other ↦ ground arith
          | inl uuid ↦
              let (id, rest) =
                same_pair (take index raw) (drop (suc index) raw) session_id secret
                  (ground arith) in
              (
                id,
                rest,
                ap is_uuid id ∙ uuid,
                ap is_secret rest
                    ∙ long (is_blank (take index raw)) (is_secret (drop (suc index) raw)) right,
              )
        ]
      ]
]
  where
    same_pair :
        (a b c d : Text)
        → ◌≡◌ {A = Option (Text × Text)} (some (a, b)) (some (c, d))
        → (c ≡ a) × (d ≡ b)
    same_pair a b c d h = (
      ap (λ (o : Option (Text × Text)). (or_else o ([], [])).0) (sym h),
      ap (λ (o : Option (Text × Text)). (or_else o ([], [])).1) (sym h),
    )

    long : (a b : Bool) → (a || not b) ≡ false → b ≡ true
    long a b h = ground arith

empty-is_uuid : is_uuid [] ≡ false
unfolding is_uuid
empty-is_uuid = refl

uuid-index_of :
    (s t : Text) → is_uuid s ≡ true → index_of separator (s ++ separator ∷ t) ≡ some (length s)
unfolding is_uuid
uuid-index_of s t h = fits-index_of uuid_places s t h

parse_at_complete :
    (session_id secret : Text)
    → is_uuid session_id ≡ true
    → is_secret secret ≡ true
    → parse_at (length session_id) (build_raw_token session_id secret) ≡ some (session_id, secret)
unfolding parse_at build_raw_token
parse_at_complete [] secret uuid long = absurd (clash uuid)
  where
    clash : is_uuid [] ≡ true → ⊥
    clash h = ground (arith, empty-is_uuid)
parse_at_complete (c ∷ s) secret uuid long =
    let id = take-append (c ∷ s) (separator ∷ secret) in
    let rest = drop-append (c ∷ s) secret separator in
    let positive : (length (c ∷ s) == 0) ≡ false = ground arith in
    rw (positive, id, rest, long, uuid) refl

parse-built :
    (session_id secret : Text)
    → is_uuid session_id ≡ true
    → is_secret secret ≡ true
    → parse_raw_token (build_raw_token session_id secret) ≡ some (session_id, secret)
unfolding parse_raw_token build_raw_token
parse-built session_id secret uuid long =
    rw (parse_raw_token, uuid-index_of session_id secret uuid)
      (parse_at_complete session_id secret uuid long)

-- A raw token is read as a session id and a secret exactly when it was built from them, the id
-- being a UUID and the secret of the length of the secrets that are drawn.
pub token_round_trip :
    (raw session_id secret : Text)
    → (parse_raw_token raw ≡ some (session_id, secret)) ↔ (
        (raw ≡ build_raw_token session_id secret)
        × (is_uuid session_id ≡ true)
        × (is_secret secret ≡ true))
unfolding parse_raw_token build_raw_token
token_round_trip raw session_id secret = (read, built)
  where
    read :
        parse_raw_token raw ≡ some (session_id, secret)
        → (raw ≡ build_raw_token session_id secret)
          × (is_uuid session_id ≡ true)
          × (is_secret secret ≡ true)
    read h = elim (Option-cases (index_of separator raw)) [
      | inl nowhere ↦ ground arith
      | inr (index, there) ↦
          let (id, rest, uuid, long) = parse_at_sound index raw session_id secret (ground arith) in
          (index_of-split separator raw there ∙ rw (← id, ← rest) refl, uuid, long)
    ]

    built :
        (raw ≡ build_raw_token session_id secret)
          × (is_uuid session_id ≡ true)
          × (is_secret secret ≡ true)
        → parse_raw_token raw ≡ some (session_id, secret)
    built (same, uuid, long) = rw same (parse-built session_id secret uuid long)
