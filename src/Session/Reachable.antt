-- ===== src/Session/Reachable.antt =====
-- The families' invariant over every step, and what follows for any interleaving.
use labour_baba_backend.Base.{
  ℕ, ◌≡◌, refl, ◌⊎◌, inl, inr, Bool, true, false, not, Option, none, some, ◌∷◌, arith, ok, err,
  find?, ltb, ◌==◌, ==_refl, Bool-cases, Option-cases, update_where, count_where, All, All-find?,
}
use labour_baba_backend.Session.Table.{
  RevokeReason, reuse, suspended, SessionRow, SessionDb, is_spent,
}
use labour_baba_backend.Session.Service.{
  Draw, CreateSessionOptions, created, create_session, revoke_session, revoke_all_user_sessions,
  revoke_family_by_family_id, cleanup_expired_sessions, is_outdated, is_of_family, is_own,
  is_of_user,
}
use labour_baba_backend.Session.Rotate.{
  RotateError, has_id, is_current, rotate, successor, examine, swap, account_state,
  revoke_family_of,
}
use labour_baba_backend.Session.Steps.{
  State, is_drawn, read, swapped, Step, logs_in, reads, swaps, revokes, revokes_user,
  revokes_family, cleans_up, changes_accounts, Steps, done, then_,
}
use labour_baba_backend.Base.{All-map, count_where-taken, count_where-none, find?-alike}
use labour_baba_backend.Session.Families.{
  is_live, IsDrawn, IsAlike, IsSound, update-IsSound, revoke-IsSound, filter-IsSound, draw-IsSound,
  append-IsSound, drawn_apart,
}

-- `examine` throws and changes nothing, throws and revokes a family, or hands on a session.
pub examine-cases :
    (compare : ℕ → ℕ → Bool) (now : ℕ) (token : Option (ℕ × ℕ)) (db : SessionDb)
    → ((e : RotateError) × (examine compare now token db ≡ (err e, db)))
      ⊎ (((e : RotateError) × (reason : RevokeReason) × (s : SessionRow) × (examine compare now
                token db
              ≡ (err e, revoke_family_of now reason s db)))
          ⊎ ((s : SessionRow) × (n : ℕ) × (find? (has_id n) db.sessions ≡ some s)
              × (examine compare now token db ≡ (ok s, db))))
unfolding examine
examine-cases compare now none db = inl (_, refl)
examine-cases compare now (some (n, secret)) db =
    elim (Option-cases (find? (has_id n) db.sessions)) [
      | inl missing ↦ inl (RotateError.invalid_refresh_token, ground arith)
      | inr (s, found) ↦ elim (Bool-cases (is_spent s.status)) [
        | inl spent ↦ inr (inl (RotateError.refresh_token_reuse, reuse, s, ground arith))
        | inr fresh ↦ elim (Bool-cases (ltb s.expires_at now)) [
          | inl late ↦ inl (RotateError.refresh_session_expired, ground arith)
          | inr early ↦ elim (Bool-cases (compare secret s.token_hash)) [
            | inr wrong ↦ inl (RotateError.invalid_refresh_token, ground arith)
            | inl right ↦ elim (Option-cases (account_state s db)) [
              | inr (e, gone) ↦ inr (inl (e, suspended, s, ground arith))
              | inl here ↦ inr (inr (s, n, found, ground arith))
            ]
          ]
        ]
      ]
    ]

abbrev pub IsSoundState : State → Type 0
IsSoundState st = IsSound st.db.sessions st.held st.drawn

reads-IsSound :
    (compare : ℕ → ℕ → Bool) (now : ℕ) (token : Option (ℕ × ℕ)) (st : State)
    → IsSoundState st
    → IsSoundState (read compare now token st)
unfolding revoke_family_by_family_id
reads-IsSound compare now token st h = elim (examine-cases compare now token st.db) [
  | inl (e, threw) ↦ rw threw h
  | inr (inl (e, reason, s, revoked)) ↦
      rw revoked
        (revoke-IsSound (is_of_family s.family_id) now reason st.db.sessions st.held st.drawn h)
  | inr (inr (s, n, found, passed)) ↦ rw passed (record {
    keyed = h.keyed;
    single = h.single;
    rows_drawn = h.rows_drawn;
    held_drawn =
        (All-find? (IsDrawn st.drawn) (has_id n) st.db.sessions h.rows_drawn found, h.held_drawn);
    alike = (find?-alike (λ r. r.id) (λ r. r.family_id) n st.db.sessions h.keyed found, h.alike);
  })
]

-- A swap retires the one live session of the family before it adds the next.
swaps-IsSound :
    (now ttl_days : ℕ) (d : Draw) (which : SessionRow → Bool) {s : SessionRow} (st : State)
    → find? which st.held ≡ some s
    → is_drawn d.session_id st.drawn ≡ false
    → IsSoundState st
    → IsSound (swapped now ttl_days d s st).db.sessions st.held (d.session_id ∷ st.drawn)
unfolding swap
swaps-IsSound now ttl_days d which {s} st holds fresh h =
    elim (Bool-cases (count_where (is_current s.id) st.db.sessions == 0)) [
      | inl lost ↦ rw lost (draw-IsSound d.session_id st.db.sessions st.held st.drawn h)
      | inr won ↦
          let rows = st.db.sessions in
          let alike : IsAlike rows s = All-find? (IsAlike rows) which st.held h.alike holds in
          let fits : All (λ r. is_current s.id r ≡ true → is_live s.family_id r ≡ true) rows =
            All-map rows (λ r same current. ground arith) alike in
          let retired =
            count_where-taken (is_current s.id) (is_live s.family_id) (rotate now d.session_id) rows
              (λ r. ground arith) fits in
          rw won (
            append-IsSound (update_where (is_current s.id) (rotate now d.session_id) rows) st.held
              st.drawn (successor now ttl_days d s) fresh
              (ground (arith, retired, h.single s.family_id))
              (ground (arith, All-find? (IsDrawn st.drawn) which st.held h.held_drawn holds))
              (update-IsSound (is_current s.id) (rotate now d.session_id) rows st.held st.drawn
                (λ r. (refl, refl, refl)) h))
    ]

logs_in-IsSound :
    (now ttl_days : ℕ) (opts : CreateSessionOptions) (d : Draw) (st : State)
    → is_drawn d.family_id st.drawn ≡ false
    → is_drawn d.session_id (d.family_id ∷ st.drawn) ≡ false
    → IsSoundState st
    → IsSound
        (create_session now ttl_days opts d st.db.sessions)
        st.held
        (d.session_id ∷ d.family_id ∷ st.drawn)
unfolding create_session
logs_in-IsSound now ttl_days opts d st new_family new_id h =
    append-IsSound st.db.sessions st.held (d.family_id ∷ st.drawn) (created now ttl_days opts d)
      new_id
      (count_where-none (is_live d.family_id) st.db.sessions (
        All-map st.db.sessions
          (λ r old. ground (arith, drawn_apart d.family_id r.family_id st.drawn new_family old.1))
          h.rows_drawn))
      (ground (arith, ==_refl d.family_id))
      (draw-IsSound d.family_id st.db.sessions st.held st.drawn h)

pub Step-IsSound :
    (compare : ℕ → ℕ → Bool) {a b : State} → Step compare a b → IsSoundState a → IsSoundState b
unfolding revoke_session revoke_all_user_sessions revoke_family_by_family_id
    cleanup_expired_sessions
Step-IsSound compare {a} (logs_in now ttl opts d new_family new_id) h =
    logs_in-IsSound now ttl opts d a new_family new_id h
Step-IsSound compare {a} (reads now token) h = reads-IsSound compare now token a h
Step-IsSound compare {a} (swaps now ttl d which holds new_id) h =
    swaps-IsSound now ttl d which a holds new_id h
Step-IsSound compare {a} (revokes now session_id user_id reason) h =
    revoke-IsSound (is_own session_id user_id) now reason a.db.sessions a.held a.drawn h
Step-IsSound compare {a} (revokes_user now user_id reason) h =
    revoke-IsSound (is_of_user user_id) now reason a.db.sessions a.held a.drawn h
Step-IsSound compare {a} (revokes_family now family_id reason) h =
    revoke-IsSound (is_of_family family_id) now reason a.db.sessions a.held a.drawn h
Step-IsSound compare {a} (cleans_up now retention) h =
    filter-IsSound (λ s. not (is_outdated now retention s)) a.db.sessions a.held a.drawn h
Step-IsSound compare (changes_accounts workers customers) h = h

-- Every interleaving keeps the sessions sound: among them, that a family has one live session at
-- most, whichever requests read the same token at the same time.
pub Steps-IsSound :
    (compare : ℕ → ℕ → Bool) {a b : State} → Steps compare a b → IsSoundState a → IsSoundState b
Steps-IsSound compare done h = h
Steps-IsSound compare (then_ s r) h = Steps-IsSound compare r (Step-IsSound compare s h)
