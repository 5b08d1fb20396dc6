-- ===== src/Mexc/Streams.antt =====
-- ingest/mexc/streams.py: the heartbeat watchdog and the tasks of mexc_ws_streams. A gauge is as in
-- ingest/freshness: the time of the last write, in microseconds. The check against the REST candles
-- is in the child Divergence. The task group itself is asyncio's.
pub mod Divergence
pub mod Watchdog
pub mod Flags
pub mod Turns
mod Tests
use shortfire.Prelude.{
  ℕ, ◌-◌, ◌*◌, ◌/◌, String, Bool, true, false, ◌&&◌, Option, none, some, List, [], ◌∷◌, ◌++◌, map,
  ltb, leb, if◌then◌else◌,
}
use shortfire.Prelude.Keys.{◌==◌, eq_string, contains}
use shortfire.Prelude.Times.{Time}
use shortfire.Freshness.{Sample, microseconds}

-- HEARTBEAT_TIMEOUT_S
abbrev pub heartbeat_timeout : Time
heartbeat_timeout = 60 * microseconds

abbrev pub stream_names : List String
stream_names = "candles_1m" ∷ "funding" ∷ "trades" ∷ "l2_top20" ∷ "liquidations" ∷ []

abbrev pub is_native : Option String → Bool
is_native none = false
is_native (some source) = source == "mexc_native"

abbrev pub in_streams : List String → Option String → Bool
in_streams names none = false
in_streams names (some dataset) = contains dataset names

-- The tests of the loop over the samples: three `continue`s and the test of the lag.
unfoldable pub is_stale : List String → Time → Sample → Bool
is_stale names now sample =
    if is_native sample.source
    then if in_streams names sample.dataset
      then if leb sample.value 0 then false else ltb heartbeat_timeout (now - sample.value)
      else false
    else false

-- The sample that ends the loop.
unfoldable pub first_stale : List String → Time → List Sample → Option Sample
first_stale names now [] = none
first_stale names now (sample ∷ samples) =
    let rest = first_stale names now samples in
    if is_stale names now sample then some sample else rest

-- What the watchdog has done after some rounds: it goes on, it has returned, or it has raised
-- RuntimeError about a dataset, with its lag in seconds.
pub data Watch : Type 0 where
  running stopped : Watch
  respawn : Option String → ℕ → Watch

-- A round: whether the event is set at its start, and the clock and the gauge after the sleep.
pub record Tick : Type 0 where
  pub is_set : Bool
  pub now : Time
  pub samples : List Sample

abbrev pub after_check : Time → Option Sample → Watch → Watch
after_check now none rest = rest
after_check now (some sample) rest = respawn sample.dataset ((now - sample.value) / microseconds)

unfoldable pub heartbeat_watchdog : List String → List Tick → Watch
heartbeat_watchdog names [] = running
heartbeat_watchdog names (t ∷ ticks) =
    let rest = heartbeat_watchdog names ticks in
    if t.is_set then stopped else after_check t.now (first_stale names t.now t.samples) rest

-- A coroutine that mexc_ws_streams starts; the cadence is in seconds.
pub data Task : Type 0 where
  trades_aggregator_loop funding_live_loop trades_persist_loop : List String → Task
  liquidations_dual_source_loop : List String → Task
  l2_sample_loop : String → (cadence : ℕ) → Task
  watchdog : List String → Task
  divergence_check : List String → Task

abbrev pub l2_task : List String → String → Task
l2_task tier1_symbols sym = l2_sample_loop sym (if contains sym tier1_symbols then 5 else 10)

-- The tasks in the order of their start.
abbrev pub mexc_ws_streams : (symbols tier1_symbols : List String) → List Task
mexc_ws_streams symbols tier1_symbols =
    (trades_aggregator_loop symbols
      ∷ funding_live_loop symbols
      ∷ trades_persist_loop symbols
      ∷ liquidations_dual_source_loop symbols
      ∷ [])
    ++ map (l2_task tier1_symbols) symbols
    ++ (watchdog stream_names ∷ divergence_check tier1_symbols ∷ [])
