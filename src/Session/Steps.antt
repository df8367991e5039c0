-- ===== src/Session/Steps.antt =====
-- Requests of many clients interleaved over the refresh sessions. A request to rotate reads a
-- session in one step and swaps it in a later one; in between anything may happen.
use labour_baba_backend.Base.{
  ℕ, Bool, false, ◌≡◌, Option, some, List, ◌∷◌, Result, ok, err, find?, ◌==◌, any,
}
use labour_baba_backend.Session.Table.{RevokeReason, SessionRow, Account, SessionDb}
use labour_baba_backend.Session.Service.{
  CreateSessionOptions, Draw, create_session, revoke_session, revoke_all_user_sessions,
  revoke_family_by_family_id, cleanup_expired_sessions,
}
use labour_baba_backend.Session.Rotate.{RotateError, examine, swap}

pub record State : Type 0 where
  pub db : SessionDb
  pub held : List SessionRow  -- sessions as requests under way have read them
  pub drawn : List ℕ  -- the identifiers that `randomUUID` has given out

-- `randomUUID` gives out an identifier once.
abbrev pub is_drawn : ℕ → List ℕ → Bool
is_drawn n drawn = any (λ m. m == n) drawn

abbrev pub with_sessions : List SessionRow → State → State
with_sessions sessions st = record st { db = record st.db { sessions = sessions } }

abbrev pub draw : ℕ → State → State
draw n st = record st { drawn = n ∷ st.drawn }

-- A request holds the session that passed its checks.
abbrev pub hold : Result RotateError SessionRow → List SessionRow → List SessionRow
hold (ok s) held = s ∷ held
hold (err _) held = held

abbrev pub read : (ℕ → ℕ → Bool) → ℕ → Option (ℕ × ℕ) → State → State
read compare now token st = record st {
  db = (examine compare now token st.db).1;
  held = hold (examine compare now token st.db).0 st.held;
}

abbrev pub swapped : ℕ → ℕ → Draw → SessionRow → State → State
swapped now ttl_days d s st = record st { db = (swap now ttl_days d s st.db).1 }

pub data Step (compare : ℕ → ℕ → Bool) : State → State → Type 0 where
  logs_in :
      (now ttl_days : ℕ) (opts : CreateSessionOptions) (d : Draw) {st : State}
      → is_drawn d.family_id st.drawn ≡ false
      → is_drawn d.session_id (d.family_id ∷ st.drawn) ≡ false
      → Step compare st (
          draw d.session_id (
            draw d.family_id
              (with_sessions (create_session now ttl_days opts d st.db.sessions) st)))
  reads :
      (now : ℕ) (token : Option (ℕ × ℕ)) {st : State} → Step compare st (read compare now token st)
  swaps :
      (now ttl_days : ℕ) (d : Draw) (which : SessionRow → Bool) {s : SessionRow} {st : State}
      → find? which st.held ≡ some s
      → is_drawn d.session_id st.drawn ≡ false
      → Step compare st (draw d.session_id (swapped now ttl_days d s st))
  revokes :
      (now session_id user_id : ℕ) (reason : RevokeReason) {st : State}
      → Step compare st
          (with_sessions (revoke_session now session_id user_id reason st.db.sessions).1 st)
  revokes_user :
      (now user_id : ℕ) (reason : RevokeReason) {st : State}
      → Step compare st
          (with_sessions (revoke_all_user_sessions now user_id reason st.db.sessions).1 st)
  revokes_family :
      (now family_id : ℕ) (reason : RevokeReason) {st : State}
      → Step compare st
          (with_sessions (revoke_family_by_family_id now family_id reason st.db.sessions).1 st)
  cleans_up :
      (now retention : ℕ) {st : State}
      → Step compare st (with_sessions (cleanup_expired_sessions now retention st.db.sessions).1 st)
  changes_accounts :
      (workers customers : List Account) {st : State}
      → Step compare st
          (record st { db = record st.db { workers = workers; customers = customers } })

pub data Steps (compare : ℕ → ℕ → Bool) : State → State → Type 0 where
  done : {st : State} → Steps compare st st
  then_ : {a b c : State} → Step compare a b → Steps compare b c → Steps compare a c
