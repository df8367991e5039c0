-- ===== src/Requirement/Places.antt =====
-- How many places of a requirement are taken, and what reconciling it does.
use labour_baba_backend.Base.{
  ◌==◌, if◌then◌else◌, count_where, text, text_eq, ℕ, ◌+◌, ◌≡◌, refl, Bool, true, false, ◌&&◌, List,
  [], ◌∷◌, arith,
}
use labour_baba_backend.Booking.Status.{BookingStatus}
use labour_baba_backend.Requirement.Status.{cancelled}
use labour_baba_backend.Requirement.Reconcile.{is_active_for}
use labour_baba_backend.Store.Rows.{BookingRow}

-- A booking keeps its place until it is cancelled, whatever else becomes of it; of the texts that
-- are no status of the machine, the legacy "confirmed" has one.
abbrev pub holds_place : BookingStatus → Bool
holds_place BookingStatus.cancelled = false
holds_place (BookingStatus.other t) = text_eq t (text "confirmed")
holds_place _ = true

unfoldable pub places_taken : ℕ → List BookingRow → ℕ
places_taken id [] = 0
places_taken id (b ∷ bs) =
    if b.requirement_id == id && holds_place b.status
    then 1 + places_taken id bs
    else places_taken id bs

pub taken-active :
    (id : ℕ) (bookings : List BookingRow)
    → count_where (is_active_for id) bookings ≡ places_taken id bookings
unfolding places_taken
taken-active id [] = refl
taken-active id (b ∷ bs) = ground (arith, taken-active id bs)
