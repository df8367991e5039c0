-- ===== src/Outbox/Channels.antt =====
-- The delivery by channel and the pruning of `outboxService`, src/services/outboxService.ts.
use labour_baba_backend.Base.{
  ℕ, suc, ◌+◌, ◌*◌, Bool, false, not, ◌&&◌, ◌||◌, Option, none, some, List, [], ◌∷◌, ◌++◌, Text,
  leb, ◌==◌, if◌then◌else◌, any, find?, update_where, count_where, filter_where,
}
use labour_baba_backend.Outbox.Table.{
  ChannelStatus, channel_sent, channel_failed, failed_permanent, Channel, socket, fcm, OutboxRecord,
  DeliveryRow, OutboxDb, is_sent, is_failed,
}
use labour_baba_backend.Outbox.Service.{is_delivery, has_id}

-- `upsert`
abbrev pub upsert :
    ℕ
    → ℕ
    → Channel
    → (DeliveryRow → DeliveryRow)
    → DeliveryRow
    → List DeliveryRow
    → List DeliveryRow
upsert event_id recipient_id c change new ds =
    if any (is_delivery event_id recipient_id c) ds
    then update_where (is_delivery event_id recipient_id c) change ds
    else ds ++ new ∷ []

-- The update of the event's row. Prisma sets a column that is `@updatedAt` in every update that does
-- not name it, so the call stamps `updated_at` with its own time.
abbrev pub channel_sent_at : ℕ → ℕ → Channel → OutboxRecord → OutboxRecord
channel_sent_at now at socket e = record e {
  socket_status = channel_sent;
  socket_sent_at = some at;
  socket_error = none;
  updated_at = now;
}
channel_sent_at now at fcm e = record e {
  fcm_status = channel_sent;
  fcm_sent_at = some at;
  fcm_error = none;
  updated_at = now;
}

abbrev pub channel_failed_with : ℕ → Text → Channel → OutboxRecord → OutboxRecord
channel_failed_with now error socket e = record e {
  socket_status = channel_failed;
  socket_error = some error;
  updated_at = now;
}
channel_failed_with now error fcm e = record e {
  fcm_status = channel_failed;
  fcm_error = some error;
  updated_at = now;
}

unfoldable pub record_channel_success : ℕ → ℕ → ℕ → Channel → ℕ → OutboxDb → OutboxDb
record_channel_success now event_id recipient_id c delivered_at db = record {
  events = update_where (has_id event_id) (channel_sent_at now delivered_at c) db.events;
  deliveries =
      upsert event_id recipient_id c
        (λ d. record d {
          status = channel_sent;
          delivered_at = some delivered_at;
          attempt_count = suc d.attempt_count;
          last_error = none;
          updated_at = now;
        })
        (record {
          event_id = event_id;
          recipient_id = recipient_id;
          channel = c;
          status = channel_sent;
          attempt_count = 1;
          last_error = none;
          delivered_at = some delivered_at;
          updated_at = now;
        })
        db.deliveries;
}

abbrev pub failure_status : Bool → ChannelStatus
failure_status is_permanent = if is_permanent then failed_permanent else channel_failed

unfoldable pub record_channel_failure : ℕ → ℕ → ℕ → Channel → Text → Bool → OutboxDb → OutboxDb
record_channel_failure now event_id recipient_id c error is_permanent db = record {
  events = update_where (has_id event_id) (channel_failed_with now error c) db.events;
  deliveries =
      upsert event_id recipient_id c
        (λ d. record d {
          status = failure_status is_permanent;
          last_error = some error;
          attempt_count = suc d.attempt_count;
          updated_at = now;
        })
        (record {
          event_id = event_id;
          recipient_id = recipient_id;
          channel = c;
          status = failure_status is_permanent;
          attempt_count = 1;
          last_error = some error;
          delivered_at = none;
          updated_at = now;
        })
        db.deliveries;
}

unfoldable pub get_event_delivery_state : ℕ → OutboxDb → Option OutboxRecord × List DeliveryRow
get_event_delivery_state event_id db =
    (find? (has_id event_id) db.events, filter_where (λ d. d.event_id == event_id) db.deliveries)

abbrev days : ℕ → ℕ
days n = n * (24 * 60 * 60 * 1000)

-- `{ not: null, lte: now - days }`
abbrev pub is_before : ℕ → ℕ → Option ℕ → Bool
is_before now n none = false
is_before now n (some t) = leb (t + days n) now

abbrev is_absent : Option ℕ → Bool
is_absent none = Bool.true
is_absent (some _) = false

-- The retention in days of acknowledged, unacknowledged and failed rows; 30, 90 and 30 unless
-- the caller says otherwise.
pub record Retention : Type 0 where
  pub acknowledged : ℕ
  pub unacknowledged : ℕ
  pub failed : ℕ

abbrev pub is_aged : ℕ → Retention → OutboxRecord → Bool
is_aged now r e =
    (is_sent e.status && is_before now r.acknowledged e.acknowledged_at)
    || ((is_sent e.status
          && (is_absent e.acknowledged_at && leb (e.created_at + days r.unacknowledged) now))
        || (is_failed e.status && is_before now r.failed e.failed_at))

unfoldable pub cleanup_aged_events : ℕ → Retention → List OutboxRecord → ℕ × List OutboxRecord
cleanup_aged_events now r events =
    (count_where (is_aged now r) events, filter_where (λ e. not (is_aged now r e)) events)
