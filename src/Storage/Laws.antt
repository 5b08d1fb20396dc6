-- ===== src/Storage/Laws.antt =====
-- What a caller of `copy_into_hypertable` may rely on.
use shortfire.Prelude.{
  ℕ, String, ◌≡◌, refl, sym, ap, ◌∙◌, ◌≢◌, ◌⊎◌, inl, inr, Option, none, some, List, [], ◌∷◌, Result,
  ok, raised, database_error, length, Holds, All-Holds, Option-cases, Bool-cases,
}
use shortfire.Prelude.Keys.{◌==◌, eq_string}
use mathlib.Core.Bool.{false≢true}
use mathlib.Core.Path.{subst}
use shortfire.Storage.{Database, Inserted, ◌>>=◌, statements, copy_into_hypertable}

pub >>=-eq-some {α β} :
    {State : Type α} {Out : Type β} (m : Option State) (f : State → Option Out) (b : Out)
    → (m >>= f) ≡ some b
    → (a : State) × (m ≡ some a) × (f a ≡ some b)
>>=-eq-some none f b h = cc
>>=-eq-some (some a) f b h = (a, refl, h)

module _ {Row Key : Type 0} {key : Row → Key} (db : Database key) where
  open db use {Conn, find, staged, create_staging, truncate, copy_records, insert_staged}

  -- A committed transaction inserts its own records only, whatever the staging table held before.
  abbrev pub Committed : String → List Row → Conn → Conn → Type 0
  Committed t records s s' =
      ((k : Key) → Inserted key records k (find s t k) (find s' t k))
      × ((u : String) (k : Key) → t ≢ u → find s' u k ≡ find s u k)

  statements-Committed :
      (t : String) (rs : List Row) (s s' : Conn)
      → statements db t rs s ≡ some s'
      → Committed t rs s s'
  unfolding statements
  statements-Committed t rs s s' h =
      let (s₁, e₁, h₁) = >>=-eq-some (create_staging t s) _ s' h in
      let (s₂, e₂, h₂) = >>=-eq-some (truncate t s₁) _ s' h₁ in
      let (s₃, e₃, h₃) = >>=-eq-some (copy_records t rs s₂) _ s' h₂ in
      let same : (u : String) (k : Key) → find s₃ u k ≡ find s u k = λ u k.
        db.find-copy t rs s₂ s₃ e₃ u k
        ∙ db.find-truncate t s₁ s₂ e₂ u k
        ∙ db.find-create t s s₁ e₁ u k in
      let staging : staged s₃ t ≡ some rs =
        db.staged-copy t rs [] s₂ s₃ e₃ (db.staged-truncate t s₁ s₂ e₂) in
      (
        λ k.
            subst (λ o. Inserted key rs k o (find s' t k)) (same t k)
              (db.find-insert t rs s₃ s' h₃ staging k),
        λ u k ne. db.find-insert_ne t u s₃ s' h₃ ne k ∙ same u k,
      )

  Inserted-nil : (k : Key) (o : Option Row) → Inserted key [] k o o
  Inserted-nil k none = tt
  Inserted-nil k (some r) = refl

  -- Either the call returns the size of its batch and the batch is in the table, or the database
  -- raised and the connection is as it was.
  pub copy_outcome :
      (t : String) (rs : List Row) (s : Conn)
      → ((s' : Conn) × (copy_into_hypertable db t rs s ≡ (ok (length rs), s'))
          × Committed t rs s s')
        ⊎ (copy_into_hypertable db t rs s ≡ (raised database_error, s))
  unfolding copy_into_hypertable
  copy_outcome t [] s = inl (s, refl, (λ k. Inserted-nil k (find s t k), λ u k ne. refl))
  copy_outcome t (r ∷ rs) s = elim (Option-cases (statements db t (r ∷ rs) s)) [
    | inl e ↦ inr (rw e)
    | inr (s', e) ↦ inl (s', (rw e), statements-Committed t (r ∷ rs) s s' e)
  ]

  -- A row that is in a table stays, whatever is written to any table and whether or not the write
  -- succeeds.
  pub first_write_wins :
      (t u : String) (rs : List Row) (s : Conn) (k : Key) (r : Row)
      → find s u k ≡ some r
      → find (copy_into_hypertable db t rs s).1 u k ≡ some r
  first_write_wins t u rs s k r there = elim (copy_outcome t rs s) [
    | inr e ↦ rw e there
    | inl (s', e, done) ↦ rw e (elim (Bool-cases (t == u)) [
      | inl p ↦
          let same : t ≡ u = (eq_string.eq_test_iff t u).0 p in
          let at_t : find s t k ≡ some r = rw same there in
          subst (λ v. find s' v k ≡ some r) same
            (subst (λ o. Inserted key rs k o (find s' t k)) at_t (done.0 k))
      | inr p ↦ done.1 u k (λ q. false≢true (sym p ∙ (eq_string.eq_test_iff t u).1 q)) ∙ there
    ])
  ]

  Inserted-again :
      (rs : List Row) (k : Key) (a b c : Option Row)
      → Inserted key rs k a b
      → Inserted key rs k b c
      → c ≡ b
  Inserted-again rs k a (some r) c h h' = h'
  Inserted-again rs k (some r) none c h h' = cc
  Inserted-again rs k none none none h h' = refl
  Inserted-again rs k none none (some r) h h' = absurd (All-Holds (λ x. key x ≢ k) r rs h h'.0 h'.1)

  -- Writing a batch again, after it was written once, changes no row of the table: neither when
  -- the second write succeeds nor when it raises.
  pub copy_again :
      (t : String) (rs : List Row) (s : Conn) (n : ℕ) (k : Key)
      → (copy_into_hypertable db t rs s).0 ≡ ok n
      → let s' = (copy_into_hypertable db t rs s).1 in
        find (copy_into_hypertable db t rs s').1 t k ≡ find s' t k
  copy_again t rs s n k done = elim (copy_outcome t rs s) [
    | inr e ↦ cc
    | inl (s', e, first) ↦ rw e (elim (copy_outcome t rs s') [
      | inr e' ↦ rw e' refl
      | inl (s'', e', second) ↦
          rw e'
            (Inserted-again rs k (find s t k) (find s' t k) (find s'' t k) (first.0 k) (second.0 k))
    ])
  ]

  Inserted-Holds :
      (rs : List Row) (r : Row) (a b : Option Row)
      → Holds r rs
      → Inserted key rs (key r) a b
      → (r' : Row) × (b ≡ some r')
  Inserted-Holds rs r (some r') b m h = (r', h)
  Inserted-Holds rs r none (some r') m h = (r', refl)
  Inserted-Holds rs r none none m h = absurd (All-Holds (λ x. key x ≢ key r) r rs h m refl)

  -- After a write that returned, there is a row at the key of each record of the batch.
  pub copy-stored :
      (t : String) (rs : List Row) (s : Conn) (n : ℕ) (r : Row)
      → (copy_into_hypertable db t rs s).0 ≡ ok n
      → Holds r rs
      → (r' : Row) × (find (copy_into_hypertable db t rs s).1 t (key r) ≡ some r')
  copy-stored t rs s n r done m = elim (copy_outcome t rs s) [
    | inr e ↦ cc (ap (λ (p : Result ℕ × Conn). p.0) e)
    | inl (s', e, first) ↦
        rw e (Inserted-Holds rs r (find s t (key r)) (find s' t (key r)) m (first.0 (key r)))
  ]

  -- The server answers: no statement of the code raises for a reason of the server's own.
  pub record IsUp : Type 0 where
    pub creates : (t : String) (s : Conn) → (s' : Conn) × (create_staging t s ≡ some s')
    pub truncates :
        (t : String) (s : Conn) (xs : List Row)
        → staged s t ≡ some xs
        → (s' : Conn) × (truncate t s ≡ some s')
    pub copies :
        (t : String) (rs : List Row) (s : Conn) (xs : List Row)
        → staged s t ≡ some xs
        → (s' : Conn) × (copy_records t rs s ≡ some s')
    pub inserts :
        (t : String) (s : Conn) (xs : List Row)
        → staged s t ≡ some xs
        → (s' : Conn) × (insert_staged t s ≡ some s')

  statements_total :
      (up : IsUp) (t : String) (rs : List Row) (s : Conn)
      → (s' : Conn) × (statements db t rs s ≡ some s')
  unfolding statements
  statements_total up t rs s =
      let (s₁, e₁) = up.creates t s in
      let x₁ = db.staged-create t s s₁ e₁ in
      let (s₂, e₂) = up.truncates t s₁ _ x₁ in
      let x₂ = db.staged-truncate t s₁ s₂ e₂ in
      let (s₃, e₃) = up.copies t rs s₂ [] x₂ in
      let x₃ = db.staged-copy t rs [] s₂ s₃ e₃ x₂ in
      let (s₄, e₄) = up.inserts t s₃ rs x₃ in (s₄, (rw (e₁, ◌>>=◌, e₂, ◌>>=◌, e₃, ◌>>=◌) e₄))

  -- With the server up every write returns the size of its batch: also where all rows conflict.
  pub copy_total :
      (up : IsUp) (t : String) (rs : List Row) (s : Conn)
      → (copy_into_hypertable db t rs s).0 ≡ ok (length rs)
  unfolding copy_into_hypertable
  copy_total up t [] s = refl
  copy_total up t (r ∷ rs) s = let (s', e) = statements_total up t (r ∷ rs) s in rw e
