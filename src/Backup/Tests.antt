-- ===== src/Backup/Tests.antt =====
-- A bucket with eight daily dumps and an old annual one; the newest dump is of the 1st of January.
use shortfire.Prelude.{
  ◌≡◌, refl, none, some, [], ◌∷◌, ok, raised, runtime_error, arith, true, ◌&&◌, leb, if◌then◌else◌,
}
use shortfire.Prelude.Keys.{eq_string}
use shortfire.Prelude.Dicts.{lookup}
use shortfire.Prelude.Texts.{has_prefix, str_lt, before, after_last}
use shortfire.Backup.{
  Calendar, sundown_sweep, sweep, list_sorted_desc, insert_desc, sort_desc, delete_all, sweep_all,
  promote, copy_to, parse_key_dt, daily_key, daily_pg_dump_to_r2,
}
use shortfire.Backup.Order.{newer}
use shortfire.Backup.Retention.{sweep_exact, failed_dump_stays}
use shortfire.Backup.Memory.{Entries, entry_list, without, keys, erase}

abbrev bucket : Entries
bucket =
    ("daily/20251225T010000Z.dump.zst", 1)
    ∷ ("annual/20250101T010000Z.dump.zst", 2)
    ∷ ("daily/20260101T010000Z.dump.zst", 3)
    ∷ ("daily/20251226T010000Z.dump.zst", 4)
    ∷ ("daily/20251227T010000Z.dump.zst", 5)
    ∷ ("daily/20251228T010000Z.dump.zst", 6)
    ∷ ("daily/20251229T010000Z.dump.zst", 7)
    ∷ ("daily/20251230T010000Z.dump.zst", 8)
    ∷ ("daily/20251231T010000Z.dump.zst", 9)
    ∷ []

-- A Thursday.
abbrev cal : Calendar
cal = record {
  strptime = λ t. some 0;
  strftime = λ t. "20260101T010000Z";
  weekday = λ t. 3;
  month = λ t. 1;
  day = λ t. 1;
}

abbrev swept : Entries
swept = (sundown_sweep entry_list cal bucket).1

parses : before 46 "20260101T010000Z.dump.zst" ≡ "20260101T010000Z"
unfolding before
parses = refl

oldest_goes : lookup "daily/20251225T010000Z.dump.zst" swept ≡ none
unfolding sundown_sweep list_sorted_desc sort_desc insert_desc str_lt keys has_prefix without
    promote copy_to sweep_all sweep delete_all erase lookup parse_key_dt after_last before
oldest_goes = refl

promoted : lookup "annual/20260101T010000Z.dump.zst" swept ≡ some 3
unfolding sundown_sweep list_sorted_desc sort_desc insert_desc str_lt keys has_prefix without
    promote copy_to sweep_all sweep delete_all erase lookup parse_key_dt after_last before
promoted = refl

annual : has_prefix "annual/" "annual/20250101T010000Z.dump.zst" ≡ true
unfolding has_prefix
annual = refl

there : lookup "annual/20250101T010000Z.dump.zst" bucket ≡ some 2
unfolding lookup
there = refl

abbrev daily_swept : Entries
daily_swept = (sweep entry_list "daily/" 7 bucket).1

sweep_returns : sweep entry_list "daily/" 7 bucket ≡ (ok tt, daily_swept)
unfolding sweep list_sorted_desc sort_desc insert_desc str_lt keys has_prefix without delete_all
sweep_returns = refl

sweep_exact_example : lookup "daily/20251225T010000Z.dump.zst" daily_swept ≡ (
    if has_prefix "daily/" "daily/20251225T010000Z.dump.zst"
      && leb 7 (newer "daily/20251225T010000Z.dump.zst" (keys "daily/" bucket))
    then none
    else lookup "daily/20251225T010000Z.dump.zst" bucket)
sweep_exact_example =
    sweep_exact entry_list "daily/" 7 bucket daily_swept (keys "daily/" bucket) refl sweep_returns
      "daily/20251225T010000Z.dump.zst"

abbrev cut_off : Entries
cut_off = ("daily/20260101T010000Z.dump.zst", 99) ∷ []

failed_dump_stays_example :
    (daily_pg_dump_to_r2 entry_list cal 99 (ok 1) true 0 ([], none)
      ≡ (raised runtime_error, (cut_off, none)))
    × ((lookup (daily_key (cal.strftime 0)) cut_off ≡ some 99)
        × (has_prefix "daily/" (daily_key (cal.strftime 0)) ≡ true))
failed_dump_stays_example =
    failed_dump_stays entry_list cal 99 1 0 [] cut_off none refl (λ e. omega (arith, e))
