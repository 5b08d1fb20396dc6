-- ===== src/Backup/Keeps.antt =====
-- ingest/backup/pg_dump_r2.py: the objects that stand under none of the swept prefixes.
use Prim.Native.Char.{Char, code}
use shortfire.Prelude.{
  ℕ, String, true, false, ◌≡◌, ◌≢◌, sym, ◌∙◌, inl, inr, Option, none, some, List, [], ◌∷◌, drop,
  Holds, All, Result, ok, raised, arith, Bool, Result-cases, nat_eq, ◌&&◌,
}
use shortfire.Prelude.Keys.{eq_string, same_or_apart}
use shortfire.Prelude.Texts.{has_prefix, has_prefix-apart, has_prefix_refl}
use shortfire.Prelude.Times.{Time}
use shortfire.Backup.{
  sort_desc, Bucket, Calendar, B, bind_result, when, list_sorted_desc, copy_if_new, delete_all,
  sweep, sweep_all, retention_counts, target_key, copy_to, promote, promote_and_sweep, parse_key_dt,
  with_daily, sundown_sweep,
}
use shortfire.Backup.Order.{sort-Holds, Holds-drop}

-- None of the prefixes is one of the key.
abbrev pub IsOutside : String → List (String × ℕ) → Type 0
IsOutside k = All (λ count. has_prefix count.0 k ≡ false)

module _ (s3 : Bucket) (k : String) (o : Option s3.Content) where
  -- What stands at the key stays, whatever the outcome.
  abbrev pub Keeps : {A : Type 0} → B s3 A → Type 0
  Keeps m = (s : s3.State) → s3.object s k ≡ o → s3.object (m s).1 k ≡ o

  bind_result-Keeps :
      {A C : Type 0} (r : Result A × s3.State) (f : A → B s3 C)
      → ((a : A) → Keeps (f a))
      → s3.object r.1 k ≡ o
      → s3.object (bind_result s3 r f).1 k ≡ o
  bind_result-Keeps (ok a, s) f h there = h a s there
  bind_result-Keeps (raised e, s) f h there = there

  pub bind-Keeps :
      {A C : Type 0} (m : B s3 A) (f : A → B s3 C)
      → Keeps m
      → ((a : A) → Keeps (f a))
      → Keeps (λ s. bind_result s3 (m s) f)
  bind-Keeps m f h g s there = bind_result-Keeps (m s) f g (h s there)

  pub when-Keeps : (b : Bool) (m : B s3 (Unit {0})) → Keeps m → Keeps (when s3 b m)
  when-Keeps true m h = h
  when-Keeps false m h = λ s there. there

  pub delete_all-Keeps : (keys : List String) → (¬ Holds k keys) → Keeps (delete_all s3 keys)
  unfolding delete_all
  delete_all-Keeps [] apart = λ s there. there
  delete_all-Keeps (x ∷ keys) apart =
      bind-Keeps (s3.delete_object x) (λ _. delete_all s3 keys)
        (λ s there. s3.delete-other x k s (λ e. apart (inl (sym e))) ∙ there)
        (λ _. delete_all-Keeps keys (λ m. apart (inr m)))

  -- A sweep of other prefixes.
  sweep-Keeps : (p : String) (n : ℕ) → has_prefix p k ≡ false → Keeps (sweep s3 p n)
  unfolding sweep list_sorted_desc
  sweep-Keeps p n other s there = elim (Result-cases (s3.list_objects p s)) [
    | inl (ks, listed) ↦
        let outside : ¬ Holds k (drop n (sort_desc ks)) = λ m.
          let t =
            (s3.list-exact p s ks listed k).0
              ((sort-Holds k ks).0 (Holds-drop k n (sort_desc ks) m)) in
          cc (t.0, other) in
        rw listed (delete_all-Keeps (drop n (sort_desc ks)) outside s there)
    | inr (e, failed) ↦ rw failed there
  ]

  sweep_all-Keeps : (counts : List (String × ℕ)) → IsOutside k counts → Keeps (sweep_all s3 counts)
  unfolding sweep_all
  sweep_all-Keeps [] outside = λ s there. there
  sweep_all-Keeps ((p, n) ∷ counts) outside =
      bind-Keeps (sweep s3 p n) (λ _. sweep_all s3 counts) (sweep-Keeps p n outside.0)
        (λ _. sweep_all-Keeps counts outside.1)

module _ (s3 : Bucket) (k : String) (c : s3.Content) where
  -- A promotion writes only where there is nothing.
  copy_if_new-Keeps :
      (t source : String) (s : s3.State) (found : List String)
      → s3.list_objects t s ≡ ok found
      → s3.object s k ≡ some c
      → s3.object (copy_if_new s3 t source found s).1 k ≡ some c
  copy_if_new-Keeps t source s (x ∷ found) listed there = there
  copy_if_new-Keeps t source s [] listed there = elim (same_or_apart k t) [
    | inl same ↦
        let here : s3.object s t ≢ none = λ e. cc (e, there, same) in
        absurd ((s3.list-exact t s [] listed t).1 (has_prefix_refl t, here))
    | inr apart ↦ s3.copy-other t source k s apart ∙ there
  ]

  module _ (cal : Calendar) where
    copy_to-Keeps :
        (source : String) (dt : Time) (prefix : String)
        → Keeps s3 k (some c) (copy_to s3 cal source dt prefix)
    unfolding copy_to
    copy_to-Keeps source dt prefix s there =
        let t = target_key s3 cal prefix dt in
        elim (Result-cases (s3.list_objects t s)) [
          | inl (found, listed) ↦ rw listed (copy_if_new-Keeps t source s found listed there)
          | inr (e, failed) ↦ rw failed there
        ]

    module _ (source : String) (dt : Time) where
      abbrev tier : Bool → String → B s3 (Unit {0})
      tier b prefix = when s3 b (copy_to s3 cal source dt prefix)

      tier-Keeps : (b : Bool) (prefix : String) → Keeps s3 k (some c) (tier b prefix)
      tier-Keeps b prefix =
          when-Keeps s3 k (some c) b (copy_to s3 cal source dt prefix)
            (copy_to-Keeps source dt prefix)

      promote-Keeps : Keeps s3 k (some c) (promote s3 cal source dt)
      unfolding promote
      promote-Keeps =
          let monthly = tier (nat_eq (cal.day dt) 1) "monthly/" in
          let annual = tier (nat_eq (cal.month dt) 1 && nat_eq (cal.day dt) 1) "annual/" in
          bind-Keeps s3 k (some c) (tier (nat_eq (cal.weekday dt) 0) "weekly/")
            (λ _ s. bind_result s3 (monthly s) (λ _. annual)) (tier-Keeps _ "weekly/")
            (λ _.
              bind-Keeps s3 k (some c) monthly (λ _. annual) (tier-Keeps _ "monthly/")
                (λ _. tier-Keeps _ "annual/"))

  module _ (cal : Calendar) (outside : IsOutside k retention_counts) where
    promote_and_sweep-Keeps :
        (key : String) (o : Option Time) → Keeps s3 k (some c) (promote_and_sweep s3 cal key o)
    promote_and_sweep-Keeps key none = λ s there. there
    promote_and_sweep-Keeps key (some dt) =
        bind-Keeps s3 k (some c) (promote s3 cal key dt) (λ _. sweep_all s3 retention_counts)
          (promote-Keeps cal key dt) (λ _. sweep_all-Keeps s3 k (some c) retention_counts outside)

    with_daily-Keeps : (keys : List String) → Keeps s3 k (some c) (with_daily s3 cal keys)
    with_daily-Keeps [] = λ s there. there
    with_daily-Keeps (key ∷ older) = promote_and_sweep-Keeps key (parse_key_dt cal key)

    pub sundown_sweep-Keeps : Keeps s3 k (some c) (sundown_sweep s3 cal)
    unfolding sundown_sweep list_sorted_desc
    sundown_sweep-Keeps s there = elim (Result-cases (s3.list_objects "daily/" s)) [
      | inl (ks, listed) ↦ rw listed (with_daily-Keeps (sort_desc ks) s there)
      | inr (e, failed) ↦ rw failed there
    ]

-- Whatever fails on the way, the sweep neither deletes nor overwrites an object under annual/.
pub annual_kept :
    (s3 : Bucket) (cal : Calendar) (k : String) (s : s3.State) (c : s3.Content)
    → has_prefix "annual/" k ≡ true
    → s3.object s k ≡ some c
    → s3.object (sundown_sweep s3 cal s).1 k ≡ some c
annual_kept s3 cal k s c annual there =
    sundown_sweep-Keeps s3 k c cal
      (
        apart "d" "aily/" (λ e. omega (arith, e)),
        (
          apart "w" "eekly/" (λ e. omega (arith, e)),
          (apart "m" "onthly/" (λ e. omega (arith, e)), tt),
        ),
      )
      s there
  where
    apart : (d : Char) (q : String) → code "a" ≢ code d → has_prefix (String.◌∷◌ d q) k ≡ false
    apart d q h = has_prefix-apart "a" d "nnual/" q k h annual
