-- ===== src/Storage/Listed.antt =====
-- A database in memory that keeps its tables as lists: an instance of the interface, for the clients
-- whose queries go through a table. Of two rows with one key the first counts.
use shortfire.Prelude.{
  String, ◌≡◌, ◌≢◌, refl, sym, ap, ◌∙◌, Option, none, some, List, [], ◌∷◌, ◌++◌, Bool-cases, inl,
  inr,
}
use shortfire.Prelude.Keys.{Equality, ◌==◌, eq_string}
use shortfire.Storage.{Database, Inserted}
use shortfire.Storage.Memory.{put, put_self, put_ne, pick, or_pick, or_pick-Inserted}
use mathlib.Core.Option.{get_or, some-injective}
use mathlib.Core.Path.{subst}

pub record Lists (Row : Type 0) : Type 0 where
  pub tables : String → List Row
  pub staging : String → Option (List Row)

module _ {Row : Type 0} where
  abbrev pub no_rows : Lists Row
  no_rows = record { tables = λ t. []; staging = λ t. none }

  abbrev pub on_staged : Option (List Row) → (List Row → Lists Row) → Option (Lists Row)
  on_staged none f = none
  on_staged (some xs) f = some (f xs)

  abbrev pub restage : String → List Row → Lists Row → Lists Row
  restage t xs s = record s { staging = put t (some xs) s.staging }

  on_staged-eq_some :
      (o : Option (List Row)) (f : List Row → Lists Row) (s' : Lists Row)
      → on_staged o f ≡ some s'
      → (xs : List Row) × (o ≡ some xs) × (f xs ≡ s')
  on_staged-eq_some none f s' h = cc
  on_staged-eq_some (some xs) f s' h = (xs, refl, some-injective _ _ h)

module _ {Row Key : Type 0} ⦃e : Equality Key⦄ (key : Row → Key) where
  abbrev pub create : String → Lists Row → Option (Lists Row)
  create t s = some (restage t (get_or (s.staging t) []) s)

  abbrev pub truncate : String → Lists Row → Option (Lists Row)
  truncate t s = on_staged (s.staging t) (λ xs. restage t [] s)

  abbrev pub copy : String → List Row → Lists Row → Option (Lists Row)
  copy t rs s = on_staged (s.staging t) (λ xs. restage t (xs ++ rs) s)

  abbrev pub insert : String → Lists Row → Option (Lists Row)
  insert t s =
      on_staged (s.staging t) (λ xs. record s { tables = put t (s.tables t ++ xs) s.tables })

  abbrev pub find : Lists Row → String → Key → Option Row
  find s t k = pick key k (s.tables t)

  pick-append :
      (k : Key) (xs ys : List Row) → pick key k (xs ++ ys) ≡ or_pick key k ys (pick key k xs)
  pick-append k [] ys = refl
  pick-append k (x ∷ xs) ys = elim (Bool-cases (key x == k)) [
    | inl t ↦ rw t refl
    | inr f ↦ rw f (pick-append k xs ys)
  ]

  pub find-create :
      (t : String) (s s' : Lists Row)
      → create t s ≡ some s'
      → (u : String) (k : Key) → find s' u k ≡ find s u k
  find-create t s s' h u k = subst (λ x. find x u k ≡ find s u k) (some-injective _ _ h) refl

  pub staging-create :
      (t : String) (s s' : Lists Row)
      → create t s ≡ some s'
      → s'.staging t ≡ some (get_or (s.staging t) [])
  staging-create t s s' h =
      subst (λ x. x.staging t ≡ some (get_or (s.staging t) [])) (some-injective _ _ h)
        (put_self t _ s.staging)

  -- A change of a staging table leaves the tables alone.
  find-restage :
      (t : String) (f : List Row → List Row) (s s' : Lists Row)
      → on_staged (s.staging t) (λ xs. restage t (f xs) s) ≡ some s'
      → (u : String) (k : Key) → find s' u k ≡ find s u k
  find-restage t f s s' h u k =
      let (xs, q, p) = on_staged-eq_some (s.staging t) _ s' h in
      subst (λ x. find x u k ≡ find s u k) p refl

  staging-restage :
      (t : String) (f : List Row → List Row) (xs : List Row) (s s' : Lists Row)
      → on_staged (s.staging t) (λ xs. restage t (f xs) s) ≡ some s'
      → s.staging t ≡ some xs
      → s'.staging t ≡ some (f xs)
  staging-restage t f xs s s' h g =
      let (ys, q, p) = on_staged-eq_some (s.staging t) _ s' h in
      let same : ys ≡ xs = some-injective _ _ (sym q ∙ g) in
      subst (λ x. x.staging t ≡ some (f xs)) p
        (ap (λ l. put t (some (f l)) s.staging t) same ∙ put_self t (some (f xs)) s.staging)

  pub find-truncate :
      (t : String) (s s' : Lists Row)
      → truncate t s ≡ some s'
      → (u : String) (k : Key) → find s' u k ≡ find s u k
  find-truncate t = find-restage t (λ xs. [])

  pub staging-truncate :
      (t : String) (s s' : Lists Row) → truncate t s ≡ some s' → s'.staging t ≡ some []
  staging-truncate t s s' h =
      let (xs, q, p) = on_staged-eq_some (s.staging t) _ s' h in
      staging-restage t (λ xs. []) xs s s' h q

  pub find-copy :
      (t : String) (rs : List Row) (s s' : Lists Row)
      → copy t rs s ≡ some s'
      → (u : String) (k : Key) → find s' u k ≡ find s u k
  find-copy t rs = find-restage t (λ xs. xs ++ rs)

  pub staging-copy :
      (t : String) (rs xs : List Row) (s s' : Lists Row)
      → copy t rs s ≡ some s'
      → s.staging t ≡ some xs
      → s'.staging t ≡ some (xs ++ rs)
  staging-copy t rs xs s s' h g = staging-restage t (λ xs. xs ++ rs) xs s s' h g

  pub find-insert :
      (t : String) (xs : List Row) (s s' : Lists Row)
      → insert t s ≡ some s'
      → s.staging t ≡ some xs
      → (k : Key) → Inserted key xs k (find s t k) (find s' t k)
  find-insert t xs s s' h g k =
      let (ys, q, p) = on_staged-eq_some (s.staging t) _ s' h in
      let same : ys ≡ xs = some-injective _ _ (sym q ∙ g) in
      let after : find s' t k ≡ or_pick key k xs (find s t k) =
        ap (λ (x : Lists Row). find x t k) (sym p)
        ∙ ap (pick key k) (put_self t (s.tables t ++ ys) s.tables)
        ∙ pick-append k (s.tables t) ys
        ∙ ap (λ l. or_pick key k l (find s t k)) same in
      rw after (or_pick-Inserted key k xs (find s t k))

  pub find-insert_ne :
      (t u : String) (s s' : Lists Row)
      → insert t s ≡ some s'
      → t ≢ u
      → (k : Key) → find s' u k ≡ find s u k
  find-insert_ne t u s s' h ne k =
      let (ys, q, p) = on_staged-eq_some (s.staging t) _ s' h in
      ap (λ (x : Lists Row). find x u k) (sym p) ∙ ap (pick key k) (put_ne t u _ s.tables ne)

  abbrev pub listed : Database key
  listed = record {
    Conn = Lists Row;
    find = find;
    staged = λ s t. s.staging t;
    create_staging = create;
    truncate = truncate;
    copy_records = copy;
    insert_staged = insert;
    find-create = find-create;
    staged-create = staging-create;
    find-truncate = find-truncate;
    staged-truncate = staging-truncate;
    find-copy = find-copy;
    staged-copy = staging-copy;
    find-insert = find-insert;
    find-insert_ne = find-insert_ne;
  }
