-- ===== src/Outbox/Steps.antt =====
-- The calls of the outbox's producers and workers, in any order, on a clock that runs on.
use labour_baba_backend.Base.{any, Text, ℕ, ◌<◌, ◌≡◌, Bool, false, Option}
use labour_baba_backend.Outbox.Table.{Channel, OutboxRecord, OutboxDb}
use labour_baba_backend.Outbox.Service.{
  CreateOutboxEventDto, create_outbox_event, has_id, claim_pending_events, mark_event_success,
  mark_event_failure, reconcile_stale_events,
}
use labour_baba_backend.Outbox.Channels.{
  Retention, record_channel_success, record_channel_failure, cleanup_aged_events,
}

-- One call at a time after `since`; the database gives a new row an unused identifier.
pub data Step (since : ℕ) : OutboxDb → OutboxDb → Type 0 where
  enqueues :
      (now id : ℕ) (dto : CreateOutboxEventDto) {db : OutboxDb}
      → since < now
      → any (has_id id) db.events ≡ false
      → Step since db (create_outbox_event now id dto db).1
  claims :
      (locked : OutboxRecord → Bool) (now threshold batch : ℕ) {db : OutboxDb}
      → since < now
      → Step since db
          (record db { events = (claim_pending_events locked now threshold batch db.events).1 })
  succeeds :
      (now id : ℕ) (lease : Option ℕ) {db : OutboxDb}
      → since < now
      → Step since db (record db { events = (mark_event_success now id lease db.events).1 })
  fails :
      (now id : ℕ) (error : Text) (is_permanent : Bool) (lease : Option ℕ) {db : OutboxDb}
      → since < now
      → Step since db
          (record db { events = (mark_event_failure now id error is_permanent lease db.events).1 })
  recovers :
      (now threshold : ℕ) {db : OutboxDb}
      → since < now
      → Step since db (record db { events = (reconcile_stale_events now threshold db.events).1 })
  delivers :
      (now id recipient : ℕ) (c : Channel) (at : ℕ) {db : OutboxDb}
      → since < now
      → Step since db (record_channel_success now id recipient c at db)
  misses :
      (now id recipient : ℕ) (c : Channel) (error : Text) (is_permanent : Bool) {db : OutboxDb}
      → since < now
      → Step since db (record_channel_failure now id recipient c error is_permanent db)
  prunes :
      (now : ℕ) (r : Retention) {db : OutboxDb}
      → Step since db (record db { events = (cleanup_aged_events now r db.events).1 })

pub data Steps (since : ℕ) : OutboxDb → OutboxDb → Type 0 where
  done : {db : OutboxDb} → Steps since db db
  then_ : {a b c : OutboxDb} → Step since a b → Steps since b c → Steps since a c
