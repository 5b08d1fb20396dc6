-- ===== src/Freshness/Alerts.antt =====
-- Which keys the job keeps, alerts about and reports as recovered.
use shortfire.Prelude.{
  ◌+◌, ◌<◌, ◌≤◌, String, ◌≡◌, refl, sym, ap, ◌∙◌, ◌↔◌, inl, inr, Bool, true, false, not, Option,
  none, some, List, [], ◌∷◌, ◌++◌, ◌&&◌, ◌||◌, Holds, arith, Bool-cases,
}
use shortfire.Prelude.Keys.{
  Equality, ◌==◌, eq_string, eq_pair, contains, contains-add, contains-difference,
}
use shortfire.Prelude.Times.{Time}
use mathlib.Core.Bool.{false≢true}
use mathlib.Core.Path.{subst}
use mathlib.Core.Option.{some-injective}
use shortfire.Freshness.{
  Key, Sample, labels, gauge_name, threshold, lagging, degraded_key, Scan, note, scan_samples,
  nothing, freshness_check_job,
}

-- A gauge of the key that was set, longer ago than twice the expected lag.
pub record IsDegraded (now : Time) (key : Key) (sample : Sample) : Type 0 where
  pub is_gauge : sample.name ≡ gauge_name
  pub labelled : labels sample.source sample.dataset sample.symbol ≡ some key
  pub was_set : 0 < sample.value
  pub too_old : sample.value + threshold key.0 (key.1).0 < now

lagging_iff :
    (now value : Time) (o : Option Key) (key : Key)
    → (lagging now value o ≡ some key)
      ↔ ((o ≡ some key) × (0 < value) × (value + threshold key.0 (key.1).0 < now))
unfolding lagging
lagging_iff now value none key = ground arith
lagging_iff now value (some (a, (b, c))) (d, (f, g)) = ground arith

degraded_key_iff :
    (now : Time) (key : Key) (sample : Sample)
    → (degraded_key now sample ≡ some key) ↔ IsDegraded now key sample
unfolding degraded_key
degraded_key_iff now key sample =
    let found =
      lagging_iff now sample.value (labels sample.source sample.dataset sample.symbol) key in
    let name = eq_string.eq_test_iff sample.name gauge_name in
    elim (Bool-cases (sample.name == gauge_name)) [
      | inr e ↦ rw e (λ h. cc, λ d. absurd (false≢true (sym e ∙ name.1 d.is_gauge)))
      | inl e ↦ rw e (
        λ h.
            let (l, v, t) = found.0 h in
            record { is_gauge = name.0 e; labelled = l; was_set = v; too_old = t },
        λ d. found.1 (d.labelled, d.was_set, d.too_old),
      )
    ]

abbrev is_key : Option Key → Key → Bool
is_key none k = false
is_key (some j) k = j == k

-- Some sample is degraded with this key.
any_degraded : Time → Key → List Sample → Bool
any_degraded now key [] = false
any_degraded now key (sample ∷ samples) =
    is_key (degraded_key now sample) key || any_degraded now key samples

abbrev eq_key : Equality Key
eq_key = eq_pair

is_key_iff : (o : Option Key) (k : Key) → (is_key o k ≡ true) ↔ (o ≡ some k)
is_key_iff none k = ground arith
is_key_iff (some j) k = (
  λ h. ap some ((eq_key.eq_test_iff j k).0 h),
  λ h. (eq_key.eq_test_iff j k).1 (some-injective _ _ h),
)

any_degraded_iff :
    (now : Time) (key : Key) (samples : List Sample)
    → (any_degraded now key samples ≡ true)
      ↔ ((sample : Sample) × Holds sample samples × IsDegraded now key sample)
unfolding any_degraded
any_degraded_iff now key [] = (λ h. cc, λ (x, m, d). absurd m)
any_degraded_iff now key (sample ∷ samples) =
    let here = degraded_key_iff now key sample in
    let there = any_degraded_iff now key samples in
    let test = is_key_iff (degraded_key now sample) key in
    (
      λ h. elim (Bool-cases (is_key (degraded_key now sample) key)) [
        | inl e ↦ (sample, inl refl, here.0 (test.0 e))
        | inr e ↦ let (x, m, d) = there.0 (rw e at h) in (x, inr m, d)
      ],
      λ (x, m, d). elim m [
        | inl e ↦
            let hit : is_key (degraded_key now sample) key ≡ true =
              test.1 (here.1 (subst (IsDegraded now key) (sym e) d)) in
            rw hit
        | inr later ↦
            let hit : any_degraded now key samples ≡ true = there.1 (x, later, d) in ground arith
      ],
    )

-- The loop adds the degraded keys to its first set, and those that are new to its second.
module _ (degraded_set : List Key) (now : Time) (key : Key) where
  note-degraded :
      (o : Option Key) (scan : Scan)
      → contains key (note degraded_set o scan).currently_degraded
        ≡ (is_key o key || contains key scan.currently_degraded)
  note-degraded none scan = refl
  note-degraded (some j) scan = contains-add j key scan.currently_degraded

  contains-snoc :
      (xs : List Key) (j : Key) → contains key (xs ++ j ∷ []) ≡ (j == key || contains key xs)
  contains-snoc [] j = refl
  contains-snoc (x ∷ xs) j = ground (arith, contains-snoc xs j)

  note-alerts :
      (o : Option Key) (scan : Scan)
      → contains key (note degraded_set o scan).alerts
        ≡ (is_key o key && not (contains key degraded_set) || contains key scan.alerts)
  note-alerts none scan = refl
  note-alerts (some j) scan = elim (Bool-cases (j == key)) [
    | inl same ↦
        let known : contains j degraded_set ≡ contains key degraded_set =
          ap (λ x. contains x degraded_set) ((eq_key.eq_test_iff j key).0 same) in
        rw (known, same)
          (elim (Bool-cases (contains key degraded_set)) [
            | inl e ↦ rw e
            | inr e ↦ rw e (contains-snoc scan.alerts j ∙ (rw same))
          ])
    | inr other ↦ rw other (elim (Bool-cases (contains j degraded_set)) [
      | inl e ↦ rw e
      | inr e ↦ rw e (contains-snoc scan.alerts j ∙ (rw other))
    ])
  ]

  scan-degraded :
      (samples : List Sample) (scan : Scan)
      → contains key (scan_samples degraded_set now scan samples).currently_degraded
        ≡ (any_degraded now key samples || contains key scan.currently_degraded)
  unfolding scan_samples any_degraded
  scan-degraded [] scan = refl
  scan-degraded (sample ∷ samples) scan =
      scan-degraded samples (note degraded_set (degraded_key now sample) scan)
      ∙ ap (λ t. any_degraded now key samples || t) (note-degraded (degraded_key now sample) scan)
      ∙ ground arith

  scan-alerts :
      (samples : List Sample) (scan : Scan)
      → contains key (scan_samples degraded_set now scan samples).alerts ≡ (
          any_degraded now key samples && not (contains key degraded_set)
          || contains key scan.alerts)
  unfolding scan_samples any_degraded
  scan-alerts [] scan = refl
  scan-alerts (sample ∷ samples) scan =
      scan-alerts samples (note degraded_set (degraded_key now sample) scan)
      ∙ ap (λ t. any_degraded now key samples && not (contains key degraded_set) || t)
          (note-alerts (degraded_key now sample) scan)
      ∙ ground arith

-- Some gauge of the key was set, and too long ago.
abbrev pub IsStale : Time → List Sample → Key → Type 0
IsStale now samples key = (sample : Sample) × Holds sample samples × IsDegraded now key sample

module _ (degraded_set : List Key) (now : Time) (samples : List Sample) (key : Key) where
  -- After a run the set holds exactly the stale keys; alerts were sent exactly about the stale keys
  -- that were not in the set before; and the keys reported as recovered are exactly those that
  -- were in the set and are not stale.
  pub freshness_exact :
      let report = freshness_check_job degraded_set now samples in
      ((contains key report.degraded_set ≡ true) ↔ IsStale now samples key)
      × ((contains key report.alerts ≡ true)
          ↔ (IsStale now samples key × (contains key degraded_set ≡ false)))
      × ((contains key report.recovered ≡ true)
          ↔ ((contains key degraded_set ≡ true) × ¬ IsStale now samples key))
  unfolding freshness_check_job
  freshness_exact =
      let stale = any_degraded_iff now key samples in
      let set = scan-degraded degraded_set now key samples nothing in
      let sent = scan-alerts degraded_set now key samples nothing in
      let gone =
        contains-difference key degraded_set
          (scan_samples degraded_set now nothing samples).currently_degraded in
      (
        (λ h. stale.0 (ground arith), λ h. let t = stale.1 h in ground arith),
        (λ h. (stale.0 (ground arith), ground arith), λ (h, f). let t = stale.1 h in ground arith),
        (
          λ h. (ground arith, λ st. let t = stale.1 st in ground arith),
          λ (h, f). elim (Bool-cases (any_degraded now key samples)) [
            | inl t ↦ absurd (f (stale.0 t))
            | inr t ↦ ground arith
          ],
        ),
      )

  -- A key of which every sample has the value 0 is not alerted about.
  pub unset_gauge-no_alert :
      ((sample : Sample)
        → Holds sample samples
        → labels sample.source sample.dataset sample.symbol ≡ some key
        → sample.value ≡ 0)
      → contains key (freshness_check_job degraded_set now samples).alerts ≡ false
  unset_gauge-no_alert unset =
      elim (Bool-cases (contains key (freshness_check_job degraded_set now samples).alerts)) [
        | inr quiet ↦ quiet
        | inl loud ↦
            let ((sample, m, d), _) = freshness_exact.1.0 loud in
            let zero_value = unset sample m d.labelled in
            let was_set = d.was_set in absurd (omega arith)
      ]

-- A key that stays stale from one run to the next is alerted about only once.
pub alert_once :
    (degraded_set : List Key) (now later : Time) (samples samples' : List Sample) (key : Key)
    → IsStale now samples key
    → contains key
        (freshness_check_job
          (freshness_check_job degraded_set now samples).degraded_set
          later
          samples').alerts
      ≡ false
alert_once degraded_set now later samples samples' key stale =
    let before = (freshness_exact degraded_set now samples key).0.1 stale in
    let set = (freshness_check_job degraded_set now samples).degraded_set in
    elim (Bool-cases (contains key (freshness_check_job set later samples').alerts)) [
      | inr quiet ↦ quiet
      | inl loud ↦ cc (before, ((freshness_exact set later samples' key).1.0 loud).1)
    ]

abbrev pub gauge_of : (source dataset symbol : String) → Time → Sample
gauge_of source dataset symbol value = record {
  name = gauge_name;
  source = some source;
  dataset = some dataset;
  symbol = some symbol;
  value = value;
}

-- A gauge within its threshold is not degraded.
pub degraded_key-none :
    (now : Time) (source dataset symbol : String) (value : Time)
    → now ≤ value + threshold source dataset
    → degraded_key now (gauge_of source dataset symbol value) ≡ none
unfolding degraded_key lagging
degraded_key-none now source dataset symbol value h = ground arith
