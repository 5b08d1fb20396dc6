-- ===== src/Backup.antt =====
-- ingest/backup/pg_dump_r2.py: the daily dump and the retention sweep.
-- The bucket of the object store, pg_dump and datetime are parameters. Parsing the DSN, the command
-- line, the client's configuration and log lines are not modelled.
pub mod Order
pub mod Keeps
pub mod Retention
pub mod Memory
mod Tests
use Prim.Native.String.{◌++◌ as append}
use shortfire.Prelude.{
  ℕ, String, Bool, true, false, ◌&&◌, ◌≡◌, ◌≢◌, ◌↔◌, Option, none, some, List, [], ◌∷◌, drop, Holds,
  IsDistinct, Result, Error, ok, raised, runtime_error, nat_eq, if◌then◌else◌,
}
use shortfire.Prelude.Texts.{str_lt, has_prefix, before, after_last}
use shortfire.Prelude.Times.{Time}

-- The calls of the S3 client on one bucket. `list_objects` is all pages of a listing. A call that
-- raises may have had its effect or not.
-- A listing by a whole key, as before a copy, is taken to be complete too.
pub record Bucket : Type 1 where
  pub State : Type 0
  pub Content : Type 0
  pub object : State → String → Option Content
  pub list_objects : String → State → Result (List String)
  pub upload : String → Content → State → Result (Unit {0}) × State
  pub copy_object : (target source : String) → State → Result (Unit {0}) × State
  pub delete_object : String → State → Result (Unit {0}) × State
  pub list-exact :
      (p : String) (s : State) (ks : List String)
      → list_objects p s ≡ ok ks
      → (k : String) → Holds k ks ↔ ((has_prefix p k ≡ true) × (object s k ≢ none))
  pub list-IsDistinct :
      (p : String) (s : State) (ks : List String) → list_objects p s ≡ ok ks → IsDistinct ks
  pub upload-key :
      (k : String) (c : Content) (s s' : State) → upload k c s ≡ (ok tt, s') → object s' k ≡ some c
  pub upload-other :
      (k j : String) (c : Content) (s : State) → j ≢ k → object (upload k c s).1 j ≡ object s j
  pub copy-target :
      (t k : String) (s s' : State) → copy_object t k s ≡ (ok tt, s') → object s' t ≡ object s k
  pub copy-other :
      (t k j : String) (s : State) → j ≢ t → object (copy_object t k s).1 j ≡ object s j
  pub delete-key :
      (k : String) (s s' : State) → delete_object k s ≡ (ok tt, s') → object s' k ≡ none
  pub delete-other :
      (k j : String) (s : State) → j ≢ k → object (delete_object k s).1 j ≡ object s j

-- datetime: `strptime` and `strftime` with the format %Y%m%dT%H%M%SZ, and the calendar in UTC.
pub record Calendar : Type 0 where
  pub strptime : String → Option Time
  pub strftime : Time → String
  pub weekday : Time → ℕ
  pub month : Time → ℕ
  pub day : Time → ℕ

-- key.rsplit("/", 1)[-1]
abbrev pub basename : String → String
basename key = last (after_last 47 key)
  where
    last : Option String → String
    last none = key
    last (some rest) = rest

unfoldable pub parse_key_dt : Calendar → String → Option Time
parse_key_dt cal key = cal.strptime (before 46 (basename key))

-- sorted(…, reverse=True), of keys that are all different
unfoldable pub insert_desc : String → List String → List String
insert_desc k [] = k ∷ []
insert_desc k (x ∷ xs) = let rest = insert_desc k xs in if str_lt k x then x ∷ rest else k ∷ x ∷ xs

unfoldable pub sort_desc : List String → List String
sort_desc [] = []
sort_desc (x ∷ xs) = insert_desc x (sort_desc xs)

abbrev pub retention_counts : List (String × ℕ)
retention_counts = ("daily/", 7) ∷ ("weekly/", 4) ∷ ("monthly/", 6) ∷ []

abbrev pub daily_key : String → String
daily_key stamp = append "daily/" (append stamp ".dump.zst")

module _ (s3 : Bucket) where
  -- A computation on the bucket: an exception keeps what was done before.
  abbrev pub B : Type 0 → Type 0
  B A = s3.State → Result A × s3.State

  abbrev pub return : {A : Type 0} → A → B A
  return a s = (ok a, s)

  infixl 5 ◌>>=◌ ◌>>◌
  abbrev pub bind_result : {A C : Type 0} → Result A × s3.State → (A → B C) → Result C × s3.State
  bind_result (ok a, s) f = f a s
  bind_result (raised e, s) f = (raised e, s)

  abbrev pub ◌>>=◌ : {A C : Type 0} → B A → (A → B C) → B C
  ◌>>=◌ m f s = bind_result (m s) f

  abbrev pub ◌>>◌ : {C : Type 0} → B (Unit {0}) → B C → B C
  ◌>>◌ m k = m >>= λ _. k

  -- `if b: m`
  abbrev pub when : Bool → B (Unit {0}) → B (Unit {0})
  when true m = m
  when false m = return tt

  abbrev pub list_keys : String → B (List String)
  list_keys prefix s = (s3.list_objects prefix s, s)

  unfoldable pub list_sorted_desc : String → B (List String)
  list_sorted_desc prefix = do keys ← list_keys prefix; return (sort_desc keys)

  -- `if not existing.get("Contents"): s3.copy_object(…)`
  abbrev pub copy_if_new : (target source : String) → List String → B (Unit {0})
  copy_if_new target source [] = s3.copy_object target source
  copy_if_new target source (k ∷ existing) = return tt

  unfoldable pub delete_all : List String → B (Unit {0})
  delete_all [] = return tt
  delete_all (k ∷ keys) = do s3.delete_object k; delete_all keys

  -- objs[keep_n:] of one prefix
  unfoldable pub sweep : String → ℕ → B (Unit {0})
  sweep prefix keep_n = do objs ← list_sorted_desc prefix; delete_all (drop keep_n objs)

  unfoldable pub sweep_all : List (String × ℕ) → B (Unit {0})
  sweep_all [] = return tt
  sweep_all ((prefix, keep_n) ∷ counts) = do sweep prefix keep_n; sweep_all counts

  module _ (cal : Calendar) where
    abbrev pub target_key : String → Time → String
    target_key prefix dt = append prefix (append (cal.strftime dt) ".dump.zst")

    unfoldable pub copy_to : (newest_key : String) → Time → (prefix : String) → B (Unit {0})
    copy_to newest_key dt prefix = do
      existing ← list_keys (target_key prefix dt)
      copy_if_new (target_key prefix dt) newest_key existing

    unfoldable pub promote : (newest_key : String) → Time → B (Unit {0})
    promote newest_key dt = do
      when (nat_eq (cal.weekday dt) 0) (copy_to newest_key dt "weekly/")
      when (nat_eq (cal.day dt) 1) (copy_to newest_key dt "monthly/")
      when (nat_eq (cal.month dt) 1 && nat_eq (cal.day dt) 1) (copy_to newest_key dt "annual/")

    -- `if dt is None: return`
    abbrev pub promote_and_sweep : (newest_key : String) → Option Time → B (Unit {0})
    promote_and_sweep newest_key none = return tt
    promote_and_sweep newest_key (some dt) = do promote newest_key dt; sweep_all retention_counts

    -- `if not daily_objs: return`
    abbrev pub with_daily : List String → B (Unit {0})
    with_daily [] = return tt
    with_daily (newest_key ∷ older) = promote_and_sweep newest_key (parse_key_dt cal newest_key)

    unfoldable pub sundown_sweep : B (Unit {0})
    sundown_sweep = do daily_objs ← list_sorted_desc "daily/"; with_daily daily_objs

    -- pg_dump: what it writes to its pipe, and its exit code, or the exception of the wait.
    module _ (output : s3.Content) (exit_code : Result ℕ) where
      -- The run of the process and the upload of its pipe.
      abbrev pub check_exit : Result ℕ → Result (Unit {0})
      check_exit (raised e) = raised e
      check_exit (ok ret) = if nat_eq ret 0 then ok tt else raised runtime_error

      abbrev pub wait : B (Unit {0})
      wait s = (check_exit exit_code, s)

      unfoldable pub run_pg_dump_sync : (key : String) → B (Unit {0})
      run_pg_dump_sync key = do s3.upload key output; wait

      -- `try: _sundown_sweep(…) except Exception`, after the gauge is set.
      abbrev pub after_dump :
          Option ℕ → Result (Unit {0}) × s3.State → Result ℕ × (s3.State × Option ℕ)
      after_dump age (raised e, s) = (raised e, (s, age))
      after_dump age (ok u, s) = (ok 1, ((sundown_sweep s).1, some 0))

      -- `configured`: whether settings.r2_backup is set. The second state is backup_age_seconds.
      unfoldable pub daily_pg_dump_to_r2 :
          (configured : Bool) (now : Time) → s3.State × Option ℕ → Result ℕ × (s3.State × Option ℕ)
      daily_pg_dump_to_r2 false now (s, age) = (ok 0, (s, age))
      daily_pg_dump_to_r2 true now (s, age) =
          after_dump age (run_pg_dump_sync (daily_key (cal.strftime now)) s)
