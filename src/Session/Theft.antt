-- ===== src/Session/Theft.antt =====
-- What the rotation of refresh tokens protects from: tokens used twice, and families revoked.
use labour_baba_backend.Base.{
  ℕ, ◌≡◌, inl, inr, Bool, true, false, not, Option, some, List, arith, ok, err, find?, ◌==◌, ==_iff,
  Bool-cases, update_where, count_where, All, All-find?,
}
use labour_baba_backend.Session.Table.{RevokeReason, SessionRow, SessionDb}
use labour_baba_backend.Session.Service.{
  Draw, CreateSessionOptions, created, create_session, revoke, revoke_session,
  revoke_all_user_sessions, revoke_family_by_family_id, cleanup_expired_sessions, revoke_where,
  is_outdated, is_of_family, is_own, is_of_user,
}
use labour_baba_backend.Session.Rotate.{
  concurrent_refresh_conflict, RotateSessionResult, is_current, rotate, successor, swap,
}
use labour_baba_backend.Session.Steps.{
  State, is_drawn, read, swapped, Step, logs_in, reads, swaps, revokes, revokes_user,
  revokes_family, cleans_up, changes_accounts, Steps, done, then_,
}
use labour_baba_backend.Base.{
  All-map, count_where-append, count_where-taken, count_where-unfit, count_where-all,
  count_where-filter_where,
}
use labour_baba_backend.Session.Families.{is_live, IsAlike, drawn_apart}
use labour_baba_backend.Session.Reachable.{examine-cases, IsSoundState, Step-IsSound}

-- A family that was given out, and has no live session.
pub record IsDead (f : ℕ) (st : State) : Type 0 where
  pub vacant : count_where (is_live f) st.db.sessions ≡ 0
  pub was_drawn : is_drawn f st.drawn ≡ true

module _ (f : ℕ) where
  revoke-vacant :
      (p : SessionRow → Bool) (now : ℕ) (reason : RevokeReason) (rows : List SessionRow)
      → count_where (is_live f) rows ≡ 0
      → count_where (is_live f) (revoke_where p now reason rows).1 ≡ 0
  revoke-vacant p now reason rows h =
      omega (arith, h, count_where-unfit p (is_live f) (revoke now reason) rows (λ s. ground arith))

  reads-vacant :
      (compare : ℕ → ℕ → Bool) (now : ℕ) (token : Option (ℕ × ℕ)) (st : State)
      → count_where (is_live f) st.db.sessions ≡ 0
      → count_where (is_live f) (read compare now token st).db.sessions ≡ 0
  unfolding revoke_family_by_family_id
  reads-vacant compare now token st h = elim (examine-cases compare now token st.db) [
    | inl (e, threw) ↦ rw threw h
    | inr (inl (e, reason, s, revoked)) ↦
        rw revoked (revoke-vacant (is_of_family s.family_id) now reason st.db.sessions h)
    | inr (inr (s, n, found, passed)) ↦ rw passed h
  ]

  swaps-vacant :
      (now ttl_days : ℕ) (d : Draw) (which : SessionRow → Bool) {s : SessionRow} (st : State)
      → find? which st.held ≡ some s
      → IsSoundState st
      → count_where (is_live f) st.db.sessions ≡ 0
      → count_where (is_live f) (swapped now ttl_days d s st).db.sessions ≡ 0
  unfolding swap
  swaps-vacant now ttl_days d which {s} st holds sound h =
      elim (Bool-cases (count_where (is_current s.id) st.db.sessions == 0)) [
        | inl lost ↦ rw lost h
        | inr won ↦
            let rows = st.db.sessions in
            let alike : IsAlike rows s = All-find? (IsAlike rows) which st.held sound.alike holds in
            let count =
              count_where-append (is_live f)
                (update_where (is_current s.id) (rotate now d.session_id) rows)
                (successor now ttl_days d s) in
            let less =
              count_where-unfit (is_current s.id) (is_live f) (rotate now d.session_id) rows
                (λ r. ground arith) in
            rw won (elim (Bool-cases (s.family_id == f)) [
              | inr other ↦ ground (arith, count, less)
              | inl this ↦
                  let same = (==_iff s.family_id f).0 this in
                  let fits : All (λ r. is_current s.id r ≡ true → is_live f r ≡ true) rows =
                    All-map rows (λ r equal current. ground arith) alike in
                  absurd (
                    ground (
                      arith,
                      count_where-taken (is_current s.id) (is_live f) (rotate now d.session_id) rows
                          (λ r. ground arith) fits,
                    ))
            ])
      ]

logs_in-vacant :
    (f now ttl_days : ℕ) (opts : CreateSessionOptions) (d : Draw) (st : State)
    → is_drawn d.family_id st.drawn ≡ false
    → IsDead f st
    → count_where (is_live f) (create_session now ttl_days opts d st.db.sessions) ≡ 0
unfolding create_session
logs_in-vacant f now ttl_days opts d st new_family h = ground (
  arith,
  h.vacant,
  count_where-append (is_live f) st.db.sessions (created now ttl_days opts d),
  drawn_apart d.family_id f st.drawn new_family h.was_drawn,
)

Step-IsDead :
    (compare : ℕ → ℕ → Bool) (f : ℕ) {a b : State}
    → Step compare a b
    → IsSoundState a
    → IsDead f a
    → IsDead f b
unfolding revoke_session revoke_all_user_sessions revoke_family_by_family_id
    cleanup_expired_sessions
Step-IsDead compare f {a} (logs_in now ttl opts d new_family new_id) sound h = record {
  vacant = logs_in-vacant f now ttl opts d a new_family h;
  was_drawn = ground (arith, h.was_drawn);
}
Step-IsDead compare f {a} (reads now token) sound h = record {
  vacant = reads-vacant f compare now token a h.vacant;
  was_drawn = h.was_drawn;
}
Step-IsDead compare f {a} (swaps now ttl d which holds new_id) sound h = record {
  vacant = swaps-vacant f now ttl d which a holds sound h.vacant;
  was_drawn = ground (arith, h.was_drawn);
}
Step-IsDead compare f {a} (revokes now session_id user_id reason) sound h = record {
  vacant = revoke-vacant f (is_own session_id user_id) now reason a.db.sessions h.vacant;
  was_drawn = h.was_drawn;
}
Step-IsDead compare f {a} (revokes_user now user_id reason) sound h = record {
  vacant = revoke-vacant f (is_of_user user_id) now reason a.db.sessions h.vacant;
  was_drawn = h.was_drawn;
}
Step-IsDead compare f {a} (revokes_family now family_id reason) sound h = record {
  vacant = revoke-vacant f (is_of_family family_id) now reason a.db.sessions h.vacant;
  was_drawn = h.was_drawn;
}
Step-IsDead compare f {a} (cleans_up now retention) sound h = record {
  vacant = omega (
    arith,
    h.vacant,
    count_where-filter_where (is_live f) (λ s. not (is_outdated now retention s)) a.db.sessions,
  );
  was_drawn = h.was_drawn;
}
Step-IsDead compare f (changes_accounts workers customers) sound h = record {
  vacant = h.vacant;
  was_drawn = h.was_drawn;
}

-- A family without a live session never has one again, whatever happens.
pub Steps-IsDead :
    (compare : ℕ → ℕ → Bool) (f : ℕ) {a b : State}
    → Steps compare a b
    → IsSoundState a
    → IsDead f a
    → IsDead f b
Steps-IsDead compare f done sound h = h
Steps-IsDead compare f (then_ s r) sound h =
    Steps-IsDead compare f r (Step-IsSound compare s sound) (Step-IsDead compare f s sound h)

-- Of two requests that hold the same session, the one that comes second is told so; it changes
-- nothing, so the successor that the first one made stays.
pub second_swap_loses :
    (now ttl_days now' ttl_days' : ℕ) (d d' : Draw) (s : SessionRow) (db db' : SessionDb)
    (r : RotateSessionResult)
    → (d.session_id == s.id) ≡ false
    → swap now ttl_days d s db ≡ (ok r, db')
    → swap now' ttl_days' d' s db' ≡ (err concurrent_refresh_conflict, db')
unfolding swap
second_swap_loses now ttl_days now' ttl_days' d d' s db db' r other won =
    let gone =
      count_where-all (is_current s.id) (rotate now d.session_id) (is_current s.id) db.sessions
        (λ x. ground arith) (λ x h. h) in
    let count =
      count_where-append (is_current s.id)
        (update_where (is_current s.id) (rotate now d.session_id) db.sessions)
        (successor now ttl_days d s) in
    ground (arith, gone, count)
