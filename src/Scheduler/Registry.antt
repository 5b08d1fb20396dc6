-- ===== src/Scheduler/Registry.antt =====
-- `register_all_jobs`: the schedules, and what happens where they are there already.
-- APScheduler's store is a parameter, with what it documents of `add_schedule` under the conflict
-- policy do_nothing, the default: a schedule whose id is there is left as it is.
use shortfire.Prelude.{
  ℕ, ◌*◌, String, ◌≡◌, refl, sym, ap, ◌∙◌, inl, inr, List, [], ◌∷◌, ◌++◌, Holds, map,
  Holds-append_left, Holds-append_right,
}
use shortfire.Prelude.Keys.{Holds-decided, eq_string}
use mathlib.Core.Path.{subst}

-- IntervalTrigger, with its interval in minutes, and CronTrigger(hour, minute, timezone="UTC").
pub data Trigger : Type 0 where
  interval : (minutes : ℕ) → Trigger
  cron : (hour minute : ℕ) → Trigger

-- Every schedule has coalesce=CoalescePolicy.latest.
pub record Schedule : Type 0 where
  pub callable : String
  pub trigger : Trigger
  pub id : String
  pub misfire_grace_time : ℕ

abbrev pub schedule : String → Trigger → String → ℕ → Schedule
schedule callable trigger id misfire_grace_time = record {
  callable = callable;
  trigger = trigger;
  id = id;
  misfire_grace_time = misfire_grace_time;
}

-- The schedules in the order of the calls.
abbrev pub job_graph : List Schedule
job_graph =
    schedule "coinglass_funding_agg_job_callable" (interval 5) "coinglass.funding_agg" 300
    ∷ schedule "coinglass_oi_job_callable" (interval 5) "coinglass.oi" 300
    ∷ schedule "coinglass_liq_job_callable" (interval 10) "coinglass.liq" 600
    ∷ schedule "coinglass_lsr_job_callable" (interval 15) "coinglass.lsr" 900
    ∷ schedule "mexc_oi_poll_job_callable" (interval 5) "mexc.oi.poll" 300
    ∷ schedule "freshness_check_job_callable" (interval 1) "freshness.check" 60
    ∷ schedule "dead_letter_alert_job_callable" (interval 5) "dead_letter.alert" 300
    ∷ schedule "mexc_candles_backfill_1d_job_callable" (interval (24 * 60))
        "mexc.candles.backfill.1d" 3600
    ∷ schedule "universe_snapshot_job_callable" (cron 0 5) "universe.snapshot" 3600
    ∷ schedule "coingecko_universe_job_callable" (cron 0 30) "coingecko.universe" 3600
    ∷ schedule "backup_pg_dump_job_callable" (cron 1 0) "backup.pg_dump" 3600
    ∷ []

abbrev pub ids : List Schedule → List String
ids xs = map (λ x. x.id) xs

pub record DataStore : Type 1 where
  pub State : Type 0
  pub schedules : State → List Schedule
  pub add_schedule : Schedule → State → State
  pub add-existing :
      (x : Schedule) (s : State)
      → Holds x.id (ids (schedules s))
      → schedules (add_schedule x s) ≡ schedules s
  pub add-new :
      (x : Schedule) (s : State)
      → ¬ Holds x.id (ids (schedules s))
      → schedules (add_schedule x s) ≡ schedules s ++ x ∷ []

module _ (store : DataStore) where
  unfoldable pub add_all : List Schedule → store.State → store.State
  add_all [] s = s
  add_all (x ∷ xs) s = add_all xs (store.add_schedule x s)

  abbrev pub register_all_jobs : store.State → store.State
  register_all_jobs s = add_all job_graph s

  abbrev IsScheduled : String → store.State → Type 0
  IsScheduled i s = Holds i (ids (store.schedules s))

  ids-append : (xs ys : List Schedule) → ids (xs ++ ys) ≡ ids xs ++ ids ys
  ids-append [] ys = refl
  ids-append (x ∷ xs) ys = ap (◌∷◌ x.id) (ids-append xs ys)

  add-keeps :
      (i : String) (x : Schedule) (s : store.State)
      → IsScheduled i s
      → IsScheduled i (store.add_schedule x s)
  add-keeps i x s m = elim (Holds-decided x.id (ids (store.schedules s))) [
    | inl old ↦ subst (λ l. Holds i (ids l)) (sym (store.add-existing x s old)) m
    | inr fresh ↦
        subst (λ l. Holds i (ids l)) (sym (store.add-new x s fresh))
          (subst (Holds i) (sym (ids-append (store.schedules s) (x ∷ [])))
            (Holds-append_left i (ids (store.schedules s)) _ m))
  ]

  add-IsScheduled : (x : Schedule) (s : store.State) → IsScheduled x.id (store.add_schedule x s)
  add-IsScheduled x s = elim (Holds-decided x.id (ids (store.schedules s))) [
    | inl old ↦ add-keeps x.id x s old
    | inr fresh ↦
        subst (λ l. Holds x.id (ids l)) (sym (store.add-new x s fresh))
          (subst (Holds x.id) (sym (ids-append (store.schedules s) (x ∷ [])))
            (Holds-append_right x.id (ids (store.schedules s)) _ (inl refl)))
  ]

  add_all-keeps :
      (i : String) (xs : List Schedule) (s : store.State)
      → IsScheduled i s
      → IsScheduled i (add_all xs s)
  unfolding add_all
  add_all-keeps i [] s m = m
  add_all-keeps i (x ∷ xs) s m = add_all-keeps i xs (store.add_schedule x s) (add-keeps i x s m)

  add_all-IsScheduled :
      (i : String) (xs : List Schedule) (s : store.State)
      → Holds i (ids xs)
      → IsScheduled i (add_all xs s)
  unfolding add_all
  add_all-IsScheduled i [] s m = absurd m
  add_all-IsScheduled i (x ∷ xs) s (inl e) =
      add_all-keeps i xs (store.add_schedule x s)
        (subst (λ j. IsScheduled j (store.add_schedule x s)) e (add-IsScheduled x s))
  add_all-IsScheduled i (x ∷ xs) s (inr m) = add_all-IsScheduled i xs (store.add_schedule x s) m

  add_all-again :
      (xs : List Schedule) (s : store.State)
      → ((i : String) → Holds i (ids xs) → IsScheduled i s)
      → store.schedules (add_all xs s) ≡ store.schedules s
  unfolding add_all
  add_all-again [] s h = refl
  add_all-again (x ∷ xs) s h =
      add_all-again xs (store.add_schedule x s) (λ i m. add-keeps i x s (h i (inr m)))
      ∙ store.add-existing x s (h x.id (inl refl))

  -- Registering the jobs again, as after a restart, leaves the schedules as they are, and after any
  -- registration each of the eleven ids is there.
  pub register_again :
      (s : store.State)
      → (store.schedules (register_all_jobs (register_all_jobs s))
          ≡ store.schedules (register_all_jobs s))
        × ((i : String)
            → Holds i (ids job_graph)
            → Holds i (ids (store.schedules (register_all_jobs s))))
  register_again s = (
    add_all-again job_graph (register_all_jobs s) (λ i m. add_all-IsScheduled i job_graph s m),
    λ i m. add_all-IsScheduled i job_graph s m,
  )
