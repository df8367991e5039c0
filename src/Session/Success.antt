-- ===== src/Session/Success.antt =====
-- What a rotation that succeeds proves.
use labour_baba_backend.Base.{
  ◌+◌, ◌*◌, ◌&&◌, refl, ℕ, ◌≤◌, ◌≡◌, inl, inr, Bool, true, false, Option, none, some, List, [], ◌∷◌,
  ◌++◌, arith, ok, find?, find?-sound, ◌==◌, ==_iff, Bool-cases, Option-cases, Result-cases,
  update_where, count_where, Keyed, if◌then◌else◌,
}
use mathlib.Core.Path.{subst}
use labour_baba_backend.Access.Role.{Role, worker, customer, admin, system, dispatch_worker, other}
use labour_baba_backend.Session.Table.{active, rotated, Account, SessionRow, SessionDb, is_active}
use labour_baba_backend.Session.Service.{Draw}
use labour_baba_backend.Session.Rotate.{
  RotateSessionResult, has_id, is_current, successor, examine, swap, rotate_session, account_state,
  account_of, worker_state, customer_state,
}
use labour_baba_backend.Base.{All-map, count_where-none, find?-alike}

-- An account in good standing: a worker's is there, neither deleted nor suspended; a customer's is
-- there and not deleted; of other roles nothing is asked.
abbrev pub IsGoodStanding : Role → ℕ → SessionDb → Type 0
IsGoodStanding worker n db =
    (a : Account) × (find? (λ x. x.id == n) db.workers ≡ some a)
    × (a.is_deleted ≡ false)
    × (a.is_suspended ≡ false)
IsGoodStanding customer n db =
    (a : Account) × (find? (λ x. x.id == n) db.customers ≡ some a) × (a.is_deleted ≡ false)
IsGoodStanding _ n db = Unit {0}

standing_at :
    (r : Role) (n : ℕ) (db : SessionDb)
    → elim r [
      | worker ↦ worker_state (account_of n db.workers)
      | customer ↦ customer_state (account_of n db.customers)
      | _ ↦ none
    ]
      ≡ none
    → IsGoodStanding r n db
standing_at worker n db h = elim (Option-cases (find? (λ x. x.id == n) db.workers)) [
  | inl missing ↦ ground arith
  | inr (a, here) ↦ (a, here, ground arith, ground arith)
]
standing_at customer n db h = elim (Option-cases (find? (λ x. x.id == n) db.customers)) [
  | inl missing ↦ ground arith
  | inr (a, here) ↦ (a, here, ground arith)
]
standing_at admin n db h = tt
standing_at system n db h = tt
standing_at dispatch_worker n db h = tt
standing_at (other _) n db h = tt

-- The new session of a rotation: drawn afresh, with the old one's user, family and device.
pub record IsSuccessor (now ttl_days : ℕ) (d : Draw) (s n : SessionRow) : Type 0 where
  pub drawn : (n.id ≡ d.session_id) × (n.token_hash ≡ d.token_hash)
  pub same_user : (n.user_id ≡ s.user_id) × (n.user_role ≡ s.user_role)
  pub same_family : n.family_id ≡ s.family_id
  pub same_device : n.device_id ≡ s.device_id
  pub live : n.status ≡ active
  pub expiry : n.expires_at ≡ now + ttl_days * 86400000
  pub unrotated : (n.rotated_to_id ≡ none) × (n.revoked_at ≡ none)

-- What `examine` has checked of the session that it hands on.
pub record IsChecked (compare : ℕ → ℕ → Bool) (now : ℕ) (token : Option (ℕ × ℕ)) (db : SessionDb)
    (s : SessionRow) : Type 0 where
  pub secret : ℕ
  pub presented : token ≡ some (s.id, secret)
  pub found : find? (has_id s.id) db.sessions ≡ some s
  pub unexpired : now ≤ s.expires_at
  pub matches : compare secret s.token_hash ≡ true
  pub in_good_standing : IsGoodStanding s.user_role s.user_id db

examine-IsChecked :
    (compare : ℕ → ℕ → Bool) (now : ℕ) (token : Option (ℕ × ℕ)) (db db' : SessionDb)
    (s : SessionRow)
    → examine compare now token db ≡ (ok s, db')
    → IsChecked compare now token db s × (db' ≡ db)
unfolding examine
examine-IsChecked compare now none db db' s h = ground arith
examine-IsChecked compare now (some (n, secret)) db db' s h =
    elim (Option-cases (find? (has_id n) db.sessions)) [
      | inl missing ↦ ground arith
      | inr (t, here) ↦ elim (Option-cases (account_state t db)) [
        | inr (e, gone) ↦ ground arith
        | inl good ↦
            let same : t ≡ s = ground arith in
            let id = (==_iff t.id n).0 (find?-sound (has_id n) db.sessions here) in
            (
              record {
                secret = secret;
                presented = ground arith;
                found = ground arith;
                unexpired = ground arith;
                matches = ground arith;
                in_good_standing =
                    subst (λ u. IsGoodStanding u.user_role u.user_id db) same
                      (standing_at t.user_role t.user_id db good);
              },
              ground arith,
            )
      ]
    ]

-- A session that the compare-and-set matched was active when it was read in the same state.
current-active :
    (s : SessionRow) (rows : List SessionRow)
    → Keyed (λ r. r.id) rows
    → find? (has_id s.id) rows ≡ some s
    → (count_where (is_current s.id) rows == 0) ≡ false
    → is_active s.status ≡ true
current-active s rows keyed found won = elim (Bool-cases (is_active s.status)) [
  | inl live ↦ live
  | inr idle ↦
      let alike =
        find?-alike (λ r. r.id) (λ r. if is_active r.status then 1 else 0) s.id rows keyed found in
      let none_left =
        count_where-none (is_current s.id) rows (All-map rows (λ r same. ground arith) alike) in
      absurd (ground arith)
]

-- If `rotateSession` returns, on a table with one row for each id, then the token named a session
-- by its id, with a secret that matches its hash; the session was active and not expired and its
-- account there, not deleted and, of a worker, not suspended; it is now rotated to the one new
-- session, which is active, of the same user, family and device, with the drawn id and hash, and
-- nothing else has changed.
pub rotate_session_returns :
    (compare : ℕ → ℕ → Bool) (now ttl_days : ℕ) (d : Draw) (token : Option (ℕ × ℕ))
    (db db' : SessionDb) (r : RotateSessionResult)
    → Keyed (λ s. s.id) db.sessions
    → rotate_session compare now ttl_days d token db ≡ (ok r, db')
    → (s : SessionRow) × IsChecked compare now token db s
      × (is_active s.status ≡ true)
      × (r.new_session_id ≡ d.session_id)
      × (r.user_id ≡ s.user_id)
      × ((n : SessionRow) × IsSuccessor now ttl_days d s n
          × (db' ≡ record db {
            sessions =
                update_where
                  (λ x. x.id == s.id && is_active x.status)
                  (λ x. record x {
                    status = rotated;
                    rotated_at = some now;
                    rotated_to_id = some d.session_id;
                  })
                  db.sessions
                ++ n ∷ [];
          }))
unfolding rotate_session swap
rotate_session_returns compare now ttl_days d token db db' r keyed h =
    elim (Result-cases (examine compare now token db).0) [
      | inr (e, threw) ↦ ground arith
      | inl (s, passed) ↦
          let (checked, same) =
            examine-IsChecked compare now token db (examine compare now token db).1 s
              (ground arith) in
          elim (Bool-cases (count_where (is_current s.id) db.sessions == 0)) [
            | inl lost ↦ ground arith
            | inr won ↦ (
              s,
              checked,
              current-active s db.sessions keyed checked.found won,
              ground arith,
              ground arith,
              (
                successor now ttl_days d s,
                record {
                  drawn = (refl, refl);
                  same_user = (refl, refl);
                  same_family = refl;
                  same_device = refl;
                  live = refl;
                  expiry = refl;
                  unrotated = (refl, refl);
                },
                ground arith,
              ),
            )
          ]
    ]
