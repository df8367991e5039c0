-- ===== src/Booking/Laws.antt =====
-- The booking transition table and service against the diagram.
use labour_baba_backend.Base.{◌≡◌, refl, ◌↔◌, true, Option, none, some, arith}
use labour_baba_backend.Booking.Status.{
  BookingStatus, BookingAction, normalize_status, is_canonical,
}
use labour_baba_backend.Booking.Diagram.{
  Edge, start, request, confirm, call_off, break_off, reject, role_may, is_party,
}
use labour_baba_backend.Booking.Table.{BookingTransitionRule, rule_for}
use labour_baba_backend.Booking.Machine.{allowed, can_transition}
use labour_baba_backend.Store.Rows.{TransitionActor, BookingRow}

ruleset edges = (start, request, confirm, call_off, break_off, reject)

abbrev target_of : Option BookingTransitionRule → Option BookingStatus
target_of none = none
target_of (some r) = some r.target_status

target-Edge :
    (s : BookingStatus) (a : BookingAction) {t : BookingStatus}
    → target_of (rule_for s a) ≡ some t
    → Edge s a t
unfolding rule_for
target-Edge s a h = grind (arith, edges)

Edge-target :
    {s t : BookingStatus} {a : BookingAction} → Edge s a t → target_of (rule_for s a) ≡ some t
unfolding rule_for
Edge-target start = refl
Edge-target request = refl
Edge-target confirm = refl
Edge-target call_off = refl
Edge-target break_off = refl
Edge-target reject = refl

allowed_target :
    (s : BookingStatus) (a : BookingAction) (actor : TransitionActor) (b : BookingRow)
    {t : BookingStatus}
    → is_canonical s ≡ true
    → (can_transition s a actor b ≡ allowed t) ↔ (
        (target_of (rule_for s a) ≡ some t)
        × (role_may actor.role a s ≡ true)
        × (is_party actor a b ≡ true))
unfolding can_transition rule_for normalize_status
allowed_target s a actor b {t} c = (λ h. ground arith, λ h. ground arith)

-- On a canonical status `canTransition` allows an action with a target exactly when the diagram
-- has the edge, the actor's role may take it, and the booking is the actor's where it must be; to cancel it
-- need not be.
pub booking_allowed_iff :
    (s : BookingStatus) (a : BookingAction) (actor : TransitionActor) (b : BookingRow)
    (t : BookingStatus)
    → is_canonical s ≡ true
    → (can_transition s a actor b ≡ allowed t)
      ↔ (Edge s a t × (role_may actor.role a s ≡ true) × (is_party actor a b ≡ true))
booking_allowed_iff s a actor b t c = (
  λ h. let (e, may, own) = (allowed_target s a actor b c).0 h in (target-Edge s a e, may, own),
  λ h. (allowed_target s a actor b c).1 (Edge-target h.0, h.1, h.2),
)
