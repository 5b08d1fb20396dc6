-- ===== src/Backup/Retention.antt =====
-- What a sweep of one prefix deletes, and what becomes of a dump that fails.
use shortfire.Prelude.{
  ℕ, ◌≤◌, String, true, false, ◌&&◌, ◌≡◌, ◌≢◌, ◌↔◌, refl, sym, ◌∙◌, ap, inl, inr, Option, none,
  some, List, [], ◌∷◌, drop, Holds, Result, ok, raised, runtime_error, nat_eq, leb, arith,
  if◌then◌else◌, Bool-cases, Option-cases,
}
use shortfire.Prelude.Keys.{eq_string, Holds-decided}
use shortfire.Prelude.Texts.{has_prefix, has_prefix-append}
use shortfire.Prelude.Times.{Time}
use shortfire.Backup.{
  Bucket, Calendar, B, bind_result, sort_desc, list_sorted_desc, delete_all, sweep, daily_key,
  run_pg_dump_sync, daily_pg_dump_to_r2,
}
use shortfire.Backup.Order.{newer, sort-newer, sort-Holds, sort-IsDescending, drop_iff, Holds-drop}
use shortfire.Backup.Keeps.{delete_all-Keeps}
use mathlib.Core.Path.{subst}

module _ (s3 : Bucket) where
  bind_result-ok :
      {A C : Type 0} (r : Result A × s3.State) (f : A → B s3 C) (b : C) (s : s3.State)
      → bind_result s3 r f ≡ (ok b, s)
      → (a : A) × (s' : s3.State) × (r ≡ (ok a, s')) × (f a s' ≡ (ok b, s))
  bind_result-ok (ok a, s') f b s h = (a, s', refl, h)
  bind_result-ok (raised e, s') f b s h = cc

  delete_all-gone :
      (keys : List String) (k : String) (s s' : s3.State)
      → delete_all s3 keys s ≡ (ok tt, s')
      → Holds k keys
      → s3.object s' k ≡ none
  unfolding delete_all
  delete_all-gone [] k s s' h m = absurd m
  delete_all-gone (x ∷ keys) k s s' h m =
      let (u, s₁, deleted, rest) =
        bind_result-ok (s3.delete_object x s) (λ _. delete_all s3 keys) tt s' h in
      elim (Holds-decided k keys) [
        | inl later ↦ delete_all-gone keys k s₁ s' rest later
        | inr away ↦ elim m [
          | inl here ↦
              let gone : s3.object s₁ k ≡ none =
                subst (λ j. s3.object s₁ j ≡ none) here (s3.delete-key x s s₁ deleted) in
              ap (λ (r : Result (Unit {0}) × s3.State). s3.object r.1 k) (sym rest)
              ∙ delete_all-Keeps s3 k none keys away s₁ gone
          | inr later ↦ absurd (away later)
        ]
      ]

  sweep-delete_all :
      (p : String) (keep_n : ℕ) (s : s3.State) (ks : List String)
      → s3.list_objects p s ≡ ok ks
      → sweep s3 p keep_n s ≡ delete_all s3 (drop keep_n (sort_desc ks)) s
  unfolding sweep list_sorted_desc
  sweep-delete_all p keep_n s ks listed = rw listed refl

  module _ (p : String) (keep_n : ℕ) (s : s3.State) (ks : List String)
      (listed : s3.list_objects p s ≡ ok ks) (k : String) where
    abbrev old : List String
    old = drop keep_n (sort_desc ks)

    old_iff : Holds k ks → Holds k old ↔ (keep_n ≤ newer k ks)
    old_iff m =
        subst (λ n. Holds k old ↔ (keep_n ≤ n)) (sort-newer k ks)
          (drop_iff k keep_n (sort_desc ks)
            (sort-IsDescending ks (s3.list-IsDistinct p s ks listed)) ((sort-Holds k ks).1 m))

    old-true : Holds k old → (has_prefix p k && leb keep_n (newer k ks)) ≡ true
    old-true m =
        let there = (sort-Holds k ks).0 (Holds-drop k keep_n (sort_desc ks) m) in
        let under = ((s3.list-exact p s ks listed k).0 there).0 in
        let many = (old_iff there).0 m in ground arith

    absent :
        (¬ Holds k old) → (has_prefix p k && leb keep_n (newer k ks)) ≡ true → s3.object s k ≡ none
    absent away t = elim (Option-cases (s3.object s k)) [
      | inl e ↦ e
      | inr (c, e) ↦
          let under : has_prefix p k ≡ true = ground arith in
          let there = (s3.list-exact p s ks listed k).1 (under, λ e'. cc) in
          absurd (away ((old_iff there).1 (ground arith)))
    ]

  -- A sweep that returns deletes a key of the prefix exactly if `keep_n` or more keys of the listing
  -- come after it, and leaves every other key as it was.
  pub sweep_exact :
      (p : String) (keep_n : ℕ) (s s' : s3.State) (ks : List String)
      → s3.list_objects p s ≡ ok ks
      → sweep s3 p keep_n s ≡ (ok tt, s')
      → (k : String)
      → s3.object s' k ≡ (if has_prefix p k && leb keep_n (newer k ks) then none else s3.object s k)
  sweep_exact p keep_n s s' ks listed h k =
      let keys = drop keep_n (sort_desc ks) in
      let ran : delete_all s3 keys s ≡ (ok tt, s') =
        sym (sweep-delete_all p keep_n s ks listed) ∙ h in
      elim (Holds-decided k keys) [
        | inl m ↦ rw (old-true p keep_n s ks listed k m) (delete_all-gone keys k s s' ran m)
        | inr away ↦
            ap (λ (r : Result (Unit {0}) × s3.State). s3.object r.1 k) (sym ran)
            ∙ delete_all-Keeps s3 k (s3.object s k) keys away s refl
            ∙ elim (Bool-cases (has_prefix p k && leb keep_n (newer k ks))) [
              | inl t ↦ rw t (absent p keep_n s ks listed k away t)
              | inr f ↦ rw f refl
            ]
      ]

  module _ (cal : Calendar) where
    -- If the upload goes through and pg_dump ends with another code than 0, the job raises and
    -- leaves the age of the backup as it was, but what pg_dump had written stays in the bucket under
    -- daily/, as a dump like the others.
    pub failed_dump_stays :
        (output : s3.Content) (ret : ℕ) (now : Time) (s s₁ : s3.State) (age : Option ℕ)
        → s3.upload (daily_key (cal.strftime now)) output s ≡ (ok tt, s₁)
        → ret ≢ 0
        → (daily_pg_dump_to_r2 s3 cal output (ok ret) true now (s, age)
            ≡ (raised runtime_error, (s₁, age)))
          × ((s3.object s₁ (daily_key (cal.strftime now)) ≡ some output)
              × (has_prefix "daily/" (daily_key (cal.strftime now)) ≡ true))
    unfolding daily_pg_dump_to_r2 run_pg_dump_sync
    failed_dump_stays output ret now s s₁ age up bad =
        let nonzero : nat_eq ret 0 ≡ false = ground arith in
        (
          rw (up, nonzero) refl,
          (
            s3.upload-key (daily_key (cal.strftime now)) output s s₁ up,
            has_prefix-append "daily/" _,
          ),
        )
