-- ===== src/Outbox/Service.antt =====
-- The operations of `outboxService`, src/services/outboxService.ts. Times are in milliseconds;
-- a call reads the clock once.
use labour_baba_backend.Base.{
  ℕ, zero, suc, ◌+◌, ◌*◌, min, Bool, true, false, not, ◌&&◌, ◌||◌, Option, none, some, List, [],
  ◌∷◌, ◌++◌, Text, leb, ◌==◌, if◌then◌else◌, any, find?, update_where, count_where, filter_where,
}
use labour_baba_backend.Access.Role.{Role}
use labour_baba_backend.Outbox.Table.{
  EventType, AggregateType, pending, processing, sent, failed, channel_pending, Channel, socket,
  derived, custom, fcm, Key, OutboxRecord, DeliveryRow, OutboxDb, same_channel, same_key,
  is_pending, is_processing, is_open,
}

pub record CreateOutboxEventDto : Type 0 where
  pub event_type : EventType
  pub aggregate_type : AggregateType
  pub aggregate_id : ℕ
  pub recipient_type : Role
  pub recipient_id : ℕ
  pub idempotency_key : Option Key

abbrev pub derived_key : CreateOutboxEventDto → Key
derived_key dto = derived (record {
  event_type = dto.event_type;
  aggregate_type = dto.aggregate_type;
  aggregate_id = dto.aggregate_id;
  recipient_id = dto.recipient_id;
})

-- `dto.idempotencyKey || ...`: the empty string is no key.
abbrev key_or : Option Key → Key → Key
key_or none k = k
key_or (some (custom [])) k = k
key_or (some l) k = l

abbrev pub key_of : CreateOutboxEventDto → Key
key_of dto = key_or dto.idempotency_key (derived_key dto)

abbrev pub has_key : Key → OutboxRecord → Bool
has_key k e = same_key k e.idempotency_key

-- The new row; what the call does not set has the column's default.
abbrev pub enqueued : ℕ → ℕ → CreateOutboxEventDto → OutboxRecord
enqueued now id dto = record {
  id = id;
  event_type = dto.event_type;
  aggregate_type = dto.aggregate_type;
  aggregate_id = dto.aggregate_id;
  recipient_type = dto.recipient_type;
  recipient_id = dto.recipient_id;
  status = pending;
  socket_status = channel_pending;
  socket_sent_at = none;
  socket_error = none;
  fcm_status = channel_pending;
  fcm_sent_at = none;
  fcm_error = none;
  attempts = 0;
  max_attempts = 5;
  available_at = now;
  processed_at = none;
  failed_at = none;
  last_error = none;
  idempotency_key = key_of dto;
  acknowledged_at = none;
  created_at = now;
  updated_at = now;
}

abbrev pub tracked : ℕ → ℕ → CreateOutboxEventDto → Channel → DeliveryRow
tracked now id dto c = record {
  event_id = id;
  recipient_id = dto.recipient_id;
  channel = c;
  status = channel_pending;
  attempt_count = 0;
  last_error = none;
  delivered_at = none;
  updated_at = now;
}

-- `UNIQUE(event_id, recipient_id, channel)`
abbrev pub is_delivery : ℕ → ℕ → Channel → DeliveryRow → Bool
is_delivery event_id recipient_id c d =
    d.event_id == event_id && (d.recipient_id == recipient_id && same_channel d.channel c)

-- one row of `createMany` with `skipDuplicates`
abbrev pub add_delivery : DeliveryRow → List DeliveryRow → List DeliveryRow
add_delivery d ds =
    if any (is_delivery d.event_id d.recipient_id d.channel) ds then ds else ds ++ d ∷ []

-- `createOutboxEvent`: `id` is the identifier that the database gives the row
unfoldable pub create_outbox_event :
    ℕ → ℕ → CreateOutboxEventDto → OutboxDb → Option OutboxRecord × OutboxDb
create_outbox_event now id dto db = elim (find? (has_key (key_of dto)) db.events) [
  | some existing ↦ (some existing, db)
  | none ↦ (
    some (enqueued now id dto),
    record {
      events = db.events ++ enqueued now id dto ∷ [];
      deliveries =
          add_delivery (tracked now id dto fcm)
            (add_delivery (tracked now id dto socket) db.deliveries);
    },
  )
]

-- minutes in milliseconds
abbrev pub minutes : ℕ → ℕ
minutes n = n * 60 * 1000

-- `updated_at <= now - threshold`, the difference being taken to the other side
abbrev pub is_stale : ℕ → ℕ → OutboxRecord → Bool
is_stale now threshold e = is_processing e.status && leb (e.updated_at + minutes threshold) now

abbrev pub is_eligible : ℕ → ℕ → OutboxRecord → Bool
is_eligible now threshold e =
    (is_pending e.status && leb e.available_at now) || is_stale now threshold e

-- `ORDER BY created_at ASC`
abbrev pub insert_by_age : OutboxRecord → List OutboxRecord → List OutboxRecord
insert_by_age e [] = e ∷ []
insert_by_age e (x ∷ xs) =
    if leb e.created_at x.created_at then e ∷ x ∷ xs else x ∷ insert_by_age e xs

abbrev pub order_by_age : List OutboxRecord → List OutboxRecord
order_by_age [] = []
order_by_age (x ∷ xs) = insert_by_age x (order_by_age xs)

-- `LIMIT n`
abbrev pub take : ℕ → List OutboxRecord → List OutboxRecord
take zero xs = []
take (suc n) [] = []
take (suc n) (x ∷ xs) = x ∷ take n xs

abbrev pub has_id : ℕ → OutboxRecord → Bool
has_id n e = e.id == n

-- `"notification_outbox".id = claimable.id`
abbrev pub is_among : List OutboxRecord → OutboxRecord → Bool
is_among chosen e = any (has_id e.id) chosen

abbrev pub leased : ℕ → OutboxRecord → OutboxRecord
leased now e = record e { status = processing; updated_at = now }

abbrev pub is_free : (OutboxRecord → Bool) → ℕ → ℕ → OutboxRecord → Bool
is_free locked now threshold e = is_eligible now threshold e && not (locked e)

-- the common table expression; `FOR UPDATE SKIP LOCKED` passes over the rows that other
-- transactions hold
unfoldable pub claimable : (OutboxRecord → Bool) → ℕ → ℕ → ℕ → List OutboxRecord → List OutboxRecord
claimable locked now threshold batch events =
    take batch (order_by_age (filter_where (is_free locked now threshold) events))

-- `claimPendingEvents`: the rows it returns, and the table
unfoldable pub claim_pending_events :
    (OutboxRecord → Bool) → ℕ → ℕ → ℕ → List OutboxRecord → List OutboxRecord × List OutboxRecord
claim_pending_events locked now threshold batch events =
    let chosen = claimable locked now threshold batch events in
    let written = update_where (is_among chosen) (leased now) events in
    (filter_where (is_among chosen) written, written)

-- `where` of the two settlements: open, and with the lease if one is given
abbrev pub is_held : ℕ → Option ℕ → OutboxRecord → Bool
is_held id lease e =
    e.id == id && (is_open e.status && elim lease [ none ↦ true | some t ↦ e.updated_at == t ])

abbrev pub delivered : ℕ → OutboxRecord → OutboxRecord
delivered now e = record e { status = sent; processed_at = some now; updated_at = now }

unfoldable pub mark_event_success : ℕ → ℕ → Option ℕ → List OutboxRecord → Bool × List OutboxRecord
mark_event_success now id lease events = (
  not (count_where (is_held id lease) events == 0),
  update_where (is_held id lease) (delivered now) events,
)

abbrev pub power : ℕ → ℕ → ℕ
power b zero = 1
power b (suc n) = b * power b n

-- `Math.min(300, Math.pow(3, nextAttempt) * 5)`
unfoldable pub backoff_seconds : ℕ → ℕ
backoff_seconds next_attempt = min 300 (power 3 next_attempt * 5)

abbrev pub given_up : ℕ → ℕ → Text → OutboxRecord → OutboxRecord
given_up now next_attempt error e = record e {
  status = failed;
  attempts = next_attempt;
  failed_at = some now;
  last_error = some error;
  updated_at = now;
}

abbrev pub put_back : ℕ → ℕ → Text → OutboxRecord → OutboxRecord
put_back now next_attempt error e = record e {
  status = pending;
  attempts = next_attempt;
  available_at = now + backoff_seconds next_attempt * 1000;
  last_error = some error;
  updated_at = now;
}

-- what the failure writes, by the row that was read
abbrev pub after_failure : ℕ → Text → Bool → OutboxRecord → OutboxRecord → OutboxRecord
after_failure now error is_permanent read =
    if is_permanent || leb read.max_attempts (suc read.attempts)
    then given_up now (suc read.attempts) error
    else put_back now (suc read.attempts) error

unfoldable pub mark_event_failure :
    ℕ → ℕ → Text → Bool → Option ℕ → List OutboxRecord → Bool × List OutboxRecord
mark_event_failure now id error is_permanent lease events = elim (find? (is_held id lease) events) [
  | none ↦ (false, events)
  | some read ↦
      (true, update_where (is_held id lease) (after_failure now error is_permanent read) events)
]

abbrev pub recovered : ℕ → OutboxRecord → OutboxRecord
recovered now e = record e { status = pending; updated_at = now }

unfoldable pub reconcile_stale_events : ℕ → ℕ → List OutboxRecord → ℕ × List OutboxRecord
reconcile_stale_events now threshold events = (
  count_where (is_stale now threshold) events,
  update_where (is_stale now threshold) (recovered now) events,
)
