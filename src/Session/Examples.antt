-- ===== src/Session/Examples.antt =====
-- The theorems on refresh sessions at concrete inputs.
use labour_baba_backend.Base.{
  ◌&&◌, ℕ, ◌+◌, ◌*◌, ◌≡◌, refl, Bool, true, false, none, some, [], ◌∷◌, ◌++◌, arith, ok, ◌==◌,
  update_where,
}
use labour_baba_backend.Access.Role.{customer}
use labour_baba_backend.Session.Table.{
  SessionStatus, active, rotated, SessionRow, SessionDb, is_active,
}
use labour_baba_backend.Session.Service.{Draw}
use labour_baba_backend.Session.Rotate.{
  RotateSessionResult, rotate, successor, examine, swap, rotate_session,
}
use labour_baba_backend.Session.Steps.{State, draw, swapped, Steps, swaps, done, then_}
use labour_baba_backend.Session.Reachable.{IsSoundState, Steps-IsSound}
use labour_baba_backend.Session.Success.{IsSuccessor, IsChecked, rotate_session_returns}

abbrev session : SessionStatus → SessionRow
session status = record {
  id = 1;
  user_id = 12;
  user_role = customer;
  token_hash = 77;
  family_id = 2;
  device_id = none;
  user_agent = none;
  ip_address = none;
  status = status;
  expires_at = 1000;
  last_used_at = none;
  rotated_at = none;
  rotated_to_id = none;
  revoked_at = none;
  revoked_reason = none;
}

abbrev at : SessionStatus → SessionDb
at status = record {
  sessions = session status ∷ [];
  workers = [];
  customers = record { id = 12; is_deleted = false; is_suspended = false } ∷ [];
}

-- A request holds the session as it was when it was active.
abbrev state : SessionStatus → State
state status = record { db = at status; held = session active ∷ []; drawn = 1 ∷ 2 ∷ [] }

-- a hash that is the secret
abbrev same_secret : ℕ → ℕ → Bool
same_secret secret hash = secret == hash

abbrev fresh : Draw
fresh = record { session_id = 3; family_id = 4; token_hash = 78 }

state-IsSound : (status : SessionStatus) → IsSoundState (state status)
state-IsSound status = record {
  keyed = (refl, tt);
  single = λ f. ground arith;
  rows_drawn = ((refl, refl), tt);
  held_drawn = ((refl, refl), tt);
  alike = ((λ _. refl, tt), tt);
}

-- The request that holds the session swaps it.
swap_step :
    (status : SessionStatus)
    → Steps same_secret
        (state status)
        (draw 3 (swapped 100 30 fresh (session active) (state status)))
swap_step status = then_ (swaps 100 30 fresh (λ _. true) {st = state status} refl refl) done

Steps-IsSound_example : IsSoundState (draw 3 (swapped 100 30 fresh (session active) (state active)))
Steps-IsSound_example = Steps-IsSound same_secret (swap_step active) (state-IsSound active)

abbrev rotation : RotateSessionResult
rotation = record {
  new_session_id = 3;
  expires_at = 100 + 30 * (24 * 60 * 60 * 1000);
  user_id = 12;
  user_role = customer;
}

abbrev later : SessionDb
later = record (at active) {
  sessions = rotate 100 3 (session active) ∷ successor 100 30 fresh (session active) ∷ [];
}

swap_result : swap 100 30 fresh (session active) (at active) ≡ (ok rotation, later)
unfolding swap
swap_result = refl

rotation_result :
    rotate_session same_secret 100 30 fresh (some (1, 77)) (at active) ≡ (ok rotation, later)
unfolding rotate_session examine swap
rotation_result = refl

rotate_session_returns_example :
    (s : SessionRow) × IsChecked same_secret 100 (some (1, 77)) (at active) s
    × (is_active s.status ≡ true)
    × (rotation.new_session_id ≡ fresh.session_id)
    × (rotation.user_id ≡ s.user_id)
    × ((n : SessionRow) × IsSuccessor 100 30 fresh s n
        × (later ≡ record (at active) {
          sessions =
              update_where
                (λ x. x.id == s.id && is_active x.status)
                (λ x. record x { status = rotated; rotated_at = some 100; rotated_to_id = some 3 })
                (session active ∷ [])
              ++ n ∷ [];
        }))
rotate_session_returns_example =
    rotate_session_returns same_secret 100 30 fresh (some (1, 77)) (at active) later rotation
      (refl, tt) rotation_result
