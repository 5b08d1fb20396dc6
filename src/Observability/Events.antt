-- ===== src/Observability/Events.antt =====
-- src/shortfire/observability/events.py: the registry of the names of events.
use shortfire.Prelude.{String, List, [], ◌∷◌, ◌++◌, Checked, require, value_error}
use shortfire.Prelude.Keys.{contains, eq_string}

abbrev phase0_events : List String
phase0_events =
    "service.startup" ∷ "service.settings.loaded" ∷ "service.settings.failed" ∷ "service.shutdown"
    ∷ "service.health_check" ∷ "db.engine.created" ∷ "db.migration.applied" ∷ "request.received"
    ∷ "request.completed" ∷ "request.failed" ∷ "service_event.emitted" ∷ "secret.guard.tripped" ∷ []

abbrev ingest_events : List String
ingest_events =
    "ingest.started" ∷ "ingest.completed" ∷ "ingest.failed" ∷ "ingest.rate_limited"
    ∷ "ingest.dead_letter" ∷ []

abbrev universe_events : List String
universe_events =
    "universe.snapshot.created" ∷ "universe.symbol.new" ∷ "universe.symbol.delisted" ∷ []

abbrev freshness_events : List String
freshness_events = "freshness.degraded" ∷ "freshness.recovered" ∷ []

abbrev backup_events : List String
backup_events = "backup.started" ∷ "backup.completed" ∷ "backup.failed" ∷ []

abbrev websocket_events : List String
websocket_events = "ws.connected" ∷ "ws.disconnected" ∷ "ws.reconnect" ∷ "ws.stale" ∷ []

-- EVENTS
unfoldable pub event_names : List String
event_names =
    phase0_events
    ++ (ingest_events
        ++ (universe_events ++ (freshness_events ++ (backup_events ++ websocket_events))))

unfoldable pub assert_event_registered : String → Checked
assert_event_registered name = require (contains name event_names) value_error
