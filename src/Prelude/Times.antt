-- ===== src/Prelude/Times.antt =====
-- `datetime` values: microseconds since 1970 in UTC, and whether a time zone is attached.
use Prim.Native.Nat.{ℕ, ◌-◌, ◌*◌, ◌/◌, ◌%◌}
use mathlib.Core.Bool.{Bool, true}

pub record DateTime : Type 0 where
  pub micros : ℕ
  pub has_tz : Bool

-- A tz-aware datetime by its microseconds.
abbrev pub Time : Type 0
Time = ℕ

-- `datetime.fromtimestamp(ms / 1000, tz=UTC)`
abbrev pub from_ms : ℕ → Time
from_ms ms = ms * 1000

-- `int(t.timestamp() * 1000)`
abbrev pub to_ms : Time → ℕ
to_ms t = t / 1000

abbrev pub micros_per_minute : ℕ
micros_per_minute = 60_000_000

-- `t.replace(second=0, microsecond=0)`
abbrev pub minute_floor : Time → Time
minute_floor t = t - t % micros_per_minute

abbrev pub aware : Time → DateTime
aware t = record { micros = t; has_tz = true }
