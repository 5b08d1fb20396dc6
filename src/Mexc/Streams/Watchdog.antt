-- ===== src/Mexc/Streams/Watchdog.antt =====
-- When the heartbeat watchdog ends the streams.
use shortfire.Prelude.{
  ℕ, ◌+◌, ◌*◌, ◌<◌, ◌≤◌, String, true, false, Option, none, some, List, [], ◌∷◌, Holds, ◌≡◌, ◌↔◌,
  ◌⊎◌, inl, inr, refl, sym, ap, arith, Bool-cases, Option-cases,
}
use shortfire.Prelude.Keys.{eq_string, contains-Holds, contains_iff}
use shortfire.Prelude.Times.{Time}
use shortfire.Freshness.{Sample, microseconds, threshold, expected, degraded_key}
use shortfire.Freshness.Alerts.{gauge_of, degraded_key-none}
use shortfire.Prelude.Dicts.{lookup}
use shortfire.Mexc.Streams.{
  heartbeat_timeout, stream_names, is_native, in_streams, is_stale, first_stale, Watch, respawn,
  Tick, heartbeat_watchdog,
}
use mathlib.Core.Path.{subst}
use mathlib.Core.Option.{some-injective}

-- A gauge of a stream that was set, more than a minute ago.
abbrev pub IsStale : List String → Time → Sample → Type 0
IsStale names now sample =
    (sample.source ≡ some "mexc_native")
    × (((dataset : String) × ((sample.dataset ≡ some dataset) × Holds dataset names))
        × ((0 < sample.value) × (sample.value + heartbeat_timeout < now)))

is_native_iff : (source : Option String) → (is_native source ≡ true) ↔ (source ≡ some "mexc_native")
is_native_iff none = (λ h. cc, λ h. cc)
is_native_iff (some source) =
    let test = eq_string.eq_test_iff source "mexc_native" in
    (λ h. ap some (test.0 h), λ h. test.1 (some-injective _ _ h))

in_streams_iff :
    (names : List String) (d : Option String)
    → (in_streams names d ≡ true)
      ↔ ((dataset : String) × ((d ≡ some dataset) × Holds dataset names))
in_streams_iff names none = (λ h. cc, λ (x, (h, m)). cc)
in_streams_iff names (some d) = (
  λ h. (d, (refl, contains-Holds d names h)),
  λ (x, (h, m)).
      (contains_iff d names).1 (subst (λ y. Holds y names) (sym (some-injective _ _ h)) m),
)

is_stale_iff :
    (names : List String) (now : Time) (sample : Sample)
    → (is_stale names now sample ≡ true) ↔ IsStale names now sample
unfolding is_stale
is_stale_iff names now sample =
    let native = is_native_iff sample.source in
    let stream = in_streams_iff names sample.dataset in
    elim (Bool-cases (is_native sample.source)) [
      | inr f ↦ rw f (λ h. cc, λ (a, rest). cc (f, native.1 a))
      | inl t ↦ rw t (elim (Bool-cases (in_streams names sample.dataset)) [
        | inr f ↦ rw f (λ h. cc, λ (a, (d, rest)). cc (f, stream.1 d))
        | inl u ↦
            rw u
              (λ h. (native.0 t, (stream.0 u, ground arith)), λ (a, (d, (set, old))). ground arith)
      ])
    ]

-- A stale gauge of the list.
abbrev pub AnyStale : List String → Time → List Sample → Type 0
AnyStale names now samples = (sample : Sample) × (Holds sample samples × IsStale names now sample)

first_stale_iff :
    (names : List String) (now : Time) (samples : List Sample)
    → ((sample : Sample) × (first_stale names now samples ≡ some sample))
      ↔ AnyStale names now samples
unfolding first_stale
first_stale_iff names now [] = (λ (x, h). cc, λ (x, (m, h)). absurd m)
first_stale_iff names now (sample ∷ samples) =
    let here = is_stale_iff names now sample in
    let (found, stale) = first_stale_iff names now samples in
    elim (Bool-cases (is_stale names now sample)) [
      | inl t ↦ rw t (λ h. (sample, (inl refl, here.0 t)), λ h. (sample, refl))
      | inr f ↦ rw f (
        λ h. let (x, (m, s)) = found h in (x, (inr m, s)),
        λ (x, (m, s)). elim m [
          | inl e ↦ absurd (let g = here.1 (subst (IsStale names now) (sym e) s) in cc)
          | inr n ↦ stale (x, (n, s))
        ],
      )
    ]

-- The watchdog has raised.
abbrev pub IsRespawn : Watch → Type 0
IsRespawn w = (dataset : Option String) × ((lag : ℕ) × (w ≡ respawn dataset lag))

-- Before the event is set, some round finds a stale gauge.
abbrev pub Reached : List String → List Tick → Type 0
Reached names [] = ⊥
Reached names (t ∷ ticks) =
    (t.is_set ≡ false) × (AnyStale names t.now t.samples ⊎ Reached names ticks)

-- The watchdog raises exactly if some round before the shutdown finds a gauge of a stream of
-- mexc_native that was set, more than 60 seconds ago, for whichever symbol.
pub watchdog_iff :
    (names : List String) (ticks : List Tick)
    → IsRespawn (heartbeat_watchdog names ticks) ↔ Reached names ticks
unfolding heartbeat_watchdog
watchdog_iff names [] = (λ (d, (lag, e)). cc, λ h. absurd h)
watchdog_iff names (t ∷ ticks) =
    let found = first_stale_iff names t.now t.samples in
    let ih = watchdog_iff names ticks in
    elim (Bool-cases t.is_set) [
      | inl set ↦ rw set (λ (d, (lag, e)). cc, λ (e, rest). cc)
      | inr on ↦ rw on (elim (Option-cases (first_stale names t.now t.samples)) [
        | inl e ↦ rw e (
          λ h. (refl, inr (ih.0 h)),
          λ (g, h). elim h [
            | inl stale ↦ absurd (let (x, f) = found.1 stale in cc)
            | inr later ↦ ih.1 later
          ],
        )
        | inr (x, e) ↦ rw e (λ h. (refl, inl (found.0 (x, e))), λ h. (_, (_, refl)))
      ])
    ]

-- The streams whose gauges are alerted about later than the watchdog raises.
abbrev pub slow_streams : List String
slow_streams = "candles_1m" ∷ "funding" ∷ "trades" ∷ "liquidations" ∷ []

abbrev IsSlow : String → Type 0
IsSlow d = Holds d stream_names × (180 * microseconds ≤ threshold "mexc_native" d)

late_threshold : (d : String) → Holds d slow_streams → IsSlow d
unfolding threshold expected lookup
late_threshold d (inl e) = subst IsSlow e (inl refl, omega arith)
late_threshold d (inr (inl e)) = subst IsSlow e (inr (inl refl), omega arith)
late_threshold d (inr (inr (inl e))) = subst IsSlow e (inr (inr (inl refl)), omega arith)
late_threshold d (inr (inr (inr (inl e)))) =
    subst IsSlow e (inr (inr (inr (inr (inl refl)))), omega arith)
late_threshold d (inr (inr (inr (inr m)))) = absurd m

-- A gauge of candles, funding, trades or liquidations that was set more than one and not more than
-- three minutes ago is not degraded for the alerter, but one such gauge, of whichever symbol, makes
-- the watchdog raise at its next round.
pub watchdog_outruns_alerter :
    (d symbol : String) (value now : Time) (samples : List Sample) (ticks : List Tick)
    → Holds d slow_streams
    → 0 < value
    → value + 60 * microseconds < now
    → now ≤ value + 180 * microseconds
    → Holds (gauge_of "mexc_native" d symbol value) samples
    → (degraded_key now (gauge_of "mexc_native" d symbol value) ≡ none)
      × IsRespawn (
          heartbeat_watchdog stream_names
            (record { is_set = false; now = now; samples = samples } ∷ ticks))
watchdog_outruns_alerter d symbol value now samples ticks slow set old fresh m =
    let (stream, late) = late_threshold d slow in
    (
      degraded_key-none now "mexc_native" d symbol value (omega arith),
      (watchdog_iff stream_names _).1
          (refl, inl (_, (m, (refl, ((d, (refl, stream)), (set, old)))))),
    )
