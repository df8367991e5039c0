-- ===== src/Outbox/Examples.antt =====
-- The outbox on concrete tables.
use labour_baba_backend.Base.{
  any, find?, text, ◌≡◌, refl, Bool, true, false, none, some, List, [], ◌∷◌, map, arith,
}
use labour_baba_backend.Access.Role.{customer}
use labour_baba_backend.Outbox.Table.{
  OutboxRecord, OutboxDb, payment_completed, payment, failed, same_key, socket,
}
use labour_baba_backend.Outbox.Service.{
  CreateOutboxEventDto, enqueued, create_outbox_event, has_id, claimable, claim_pending_events,
  mark_event_success, backoff_seconds, mark_event_failure,
}
use labour_baba_backend.Outbox.Lease.{claims_disjoint}
use labour_baba_backend.Outbox.Steps.{enqueues, done, then_}
use labour_baba_backend.Outbox.Sound.{IsSound}
use labour_baba_backend.Outbox.Reachable.{outbox-IsSound}
use labour_baba_backend.Outbox.Lost.{lost_lease, delivery_ends_lease}
use labour_baba_backend.Outbox.Channels.{record_channel_success}
use labour_baba_backend.Outbox.Retry.{Attempt, fail_all, failures_end}

abbrev dto : CreateOutboxEventDto
dto = record {
  event_type = payment_completed;
  aggregate_type = payment;
  aggregate_id = 7;
  recipient_type = customer;
  recipient_id = 3;
  idempotency_key = none;
}

abbrev empty : OutboxDb
empty = record { events = []; deliveries = [] }

abbrev never : OutboxRecord → Bool
never _ = false

abbrev at_rest : List OutboxRecord
at_rest = enqueued 10 1 dto ∷ []

at_rest-IsSound : IsSound at_rest
at_rest-IsSound = record {
  ids = (refl, tt);
  keys = (refl, tt);
  attempts = ((λ _. ground arith, ground arith), tt);
}

twice_enqueued :
    (create_outbox_event 20 2 dto (create_outbox_event 10 1 dto empty).1).1
    ≡ (create_outbox_event 10 1 dto empty).1
unfolding create_outbox_event same_key
twice_enqueued = refl

backoffs : map backoff_seconds (1 ∷ 2 ∷ 3 ∷ 4 ∷ []) ≡ 15 ∷ 45 ∷ 135 ∷ 300 ∷ []
unfolding backoff_seconds
backoffs = refl

claimed_first : any (has_id 1) (claim_pending_events never 20 5 20 at_rest).0 ≡ true
unfolding claim_pending_events claimable
claimed_first = refl

-- After six minutes the lease of the first worker has timed out.
claimed_again :
    any
      (has_id 1)
      (claim_pending_events never 360020 5 20 (claim_pending_events never 20 5 20 at_rest).1).0
    ≡ true
unfolding claim_pending_events claimable
claimed_again = refl

claims_disjoint_example :
    any
      (has_id 1)
      (claim_pending_events never 30 5 20 (claim_pending_events never 20 5 20 at_rest).1).0
    ≡ false
claims_disjoint_example =
    claims_disjoint never never 20 30 5 20 20 1 at_rest (ground arith) claimed_first

abbrev first_claim : OutboxDb
first_claim = record { events = (claim_pending_events never 20 5 20 at_rest).1; deliveries = [] }

abbrev second_claim : OutboxDb
second_claim = record {
  events = (claim_pending_events never 360020 5 20 first_claim.events).1;
  deliveries = [];
}

lost_lease_example :
    (mark_event_success 360040 1 (some 20) second_claim.events ≡ (false, second_claim.events))
    × (mark_event_failure 360040 1 (text "timeout") false (some 20) second_claim.events
        ≡ (false, second_claim.events))
lost_lease_example =
    lost_lease never 20 360020 5 20 1 360040 (text "timeout") false first_claim (ground arith)
      claimed_again done

delivery_ends_lease_example :
    (mark_event_success 60 1 (some 20) (record_channel_success 40 1 3 socket 40 first_claim).events
      ≡ (false, (record_channel_success 40 1 3 socket 40 first_claim).events))
    × (mark_event_failure 60 1
          (text "timeout")
          false
          (some 20)
          (record_channel_success 40 1 3 socket 40 first_claim).events
        ≡ (false, (record_channel_success 40 1 3 socket 40 first_claim).events))
delivery_ends_lease_example =
    delivery_ends_lease 1 3 socket 20 40 40 60 (text "timeout") false first_claim (ground arith)
      done

outbox-IsSound_example : IsSound (create_outbox_event 10 1 dto empty).1.events
outbox-IsSound_example =
    outbox-IsSound 0 (then_ (enqueues 10 1 dto {db = empty} (ground arith) refl) done)
      (record { ids = tt; keys = tt; attempts = tt })

abbrev failures : List Attempt
failures = map (λ n. record { at = n; error = text "timeout" }) (20 ∷ 40 ∷ 60 ∷ 80 ∷ 100 ∷ [])

failures_end_example :
    (d : OutboxRecord) × (find? (has_id 1) (fail_all 1 failures at_rest) ≡ some d)
    × (d.status ≡ failed)
    × (d.attempts ≡ 5)
failures_end_example =
    failures_end 1 failures at_rest {e = enqueued 10 1 dto} at_rest-IsSound refl refl refl
