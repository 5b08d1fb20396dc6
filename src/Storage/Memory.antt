-- ===== src/Storage/Memory.antt =====
-- A database in memory: an instance of the interface, on which the tests run.
use shortfire.Prelude.{
  String, ◌≡◌, refl, sym, ap, ◌∙◌, ◌≢◌, inl, inr, Option, none, some, List, [], ◌∷◌, ◌++◌,
  if◌then◌else◌, Bool-cases,
}
use shortfire.Prelude.Keys.{Equality, ◌==◌, eq_string}
use shortfire.Storage.{Database, Picked, Inserted}
use shortfire.Storage.Laws.{IsUp}
use mathlib.Core.Option.{get_or, some-injective}
use mathlib.Core.Path.{subst}
use mathlib.Core.Bool.{false≢true}

pub record Server (Row Key : Type 0) : Type 0 where
  pub rows : String → Key → Option Row
  pub staging : String → Option (List Row)

abbrev pub put {ℓ} : {V : Type ℓ} → String → V → (String → V) → String → V
put t v f u = if t == u then v else f u

pub put_self {ℓ} : {V : Type ℓ} (t : String) (v : V) (f : String → V) → put t v f t ≡ v
put_self t v f = rw ((eq_string.eq_test_iff t t).1 refl)

pub put_ne {ℓ} : {V : Type ℓ} (t u : String) (v : V) (f : String → V) → t ≢ u → put t v f u ≡ f u
put_ne t u v f ne = elim (Bool-cases (t == u)) [
  | inl e ↦ absurd (ne ((eq_string.eq_test_iff t u).0 e))
  | inr e ↦ rw e
]

module _ {Row Key : Type 0} where
  abbrev pub empty : Server Row Key
  empty = record { rows = λ t k. none; staging = λ t. none }

  abbrev pub create : String → Server Row Key → Option (Server Row Key)
  create t s = some (record s { staging = put t (some (get_or (s.staging t) [])) s.staging })

  abbrev pub if_staged : Option (List Row) → (List Row → Server Row Key) → Option (Server Row Key)
  if_staged none f = none
  if_staged (some xs) f = some (f xs)

  abbrev pub truncate : String → Server Row Key → Option (Server Row Key)
  truncate t s = if_staged (s.staging t) (λ xs. record s { staging = put t (some []) s.staging })

  abbrev pub copy : String → List Row → Server Row Key → Option (Server Row Key)
  copy t rs s =
      if_staged (s.staging t) (λ xs. record s { staging = put t (some (xs ++ rs)) s.staging })

module _ {Row Key : Type 0} ⦃e : Equality Key⦄ (key : Row → Key) where
  -- The first of the rows with the key `k`.
  abbrev pub pick : Key → List Row → Option Row
  pick k [] = none
  pick k (r ∷ rs) = if key r == k then some r else pick k rs

  abbrev pub or_pick : Key → List Row → Option Row → Option Row
  or_pick k rs (some r) = some r
  or_pick k rs none = pick k rs

  abbrev pub insert : String → Server Row Key → Option (Server Row Key)
  insert t s =
      if_staged (s.staging t)
        (λ xs. record s { rows = put t (λ k. or_pick k xs (s.rows t k)) s.rows })

  pick-Picked : (k : Key) (rs : List Row) → Picked key rs k (pick k rs)
  pick-Picked k [] = tt
  pick-Picked k (r ∷ rs) = elim (Bool-cases (key r == k)) [
    | inl p ↦ rw p (inl refl, (e.eq_test_iff (key r) k).0 p)
    | inr p ↦ rw p (
        weaken (pick k rs) (pick-Picked k rs)
          (λ q. false≢true (sym p ∙ (e.eq_test_iff (key r) k).1 q)))
  ]
    where
      weaken : (o : Option Row) → Picked key rs k o → key r ≢ k → Picked key (r ∷ rs) k o
      weaken none h ne = (ne, h)
      weaken (some x) h ne = (inr h.0, h.1)

  pub or_pick-Inserted :
      (k : Key) (rs : List Row) (o : Option Row) → Inserted key rs k o (or_pick k rs o)
  or_pick-Inserted k rs (some r) = refl
  or_pick-Inserted k rs none = pick-Picked k rs

module _ {Row Key : Type 0} where
  if_staged-eq_some :
      (o : Option (List Row)) (f : List Row → Server Row Key) (s' : Server Row Key)
      → if_staged o f ≡ some s'
      → (xs : List Row) × (o ≡ some xs) × (f xs ≡ s')
  if_staged-eq_some none f s' h = cc
  if_staged-eq_some (some xs) f s' h = (xs, refl, some-injective _ _ h)

  if_staged-some :
      (o : Option (List Row)) (f : List Row → Server Row Key) (xs : List Row)
      → o ≡ some xs
      → (s' : Server Row Key) × (if_staged o f ≡ some s')
  if_staged-some o f xs h = (f xs, (rw h))

module _ {Row Key : Type 0} ⦃e : Equality Key⦄ (key : Row → Key) where
  pub rows-create :
      (t : String) (s s' : Server Row Key)
      → create t s ≡ some s'
      → (u : String) (k : Key) → s'.rows u k ≡ s.rows u k
  rows-create t s s' h u k = subst (λ x. x.rows u k ≡ s.rows u k) (some-injective _ _ h) refl

  pub staging-create :
      (t : String) (s s' : Server Row Key)
      → create t s ≡ some s'
      → s'.staging t ≡ some (get_or (s.staging t) [])
  staging-create t s s' h =
      subst (λ x. x.staging t ≡ some (get_or (s.staging t) [])) (some-injective _ _ h)
        (put_self t _ s.staging)

  pub rows-truncate :
      (t : String) (s s' : Server Row Key)
      → truncate t s ≡ some s'
      → (u : String) (k : Key) → s'.rows u k ≡ s.rows u k
  rows-truncate t s s' h u k =
      let (xs, _, p) = if_staged-eq_some (s.staging t) _ s' h in
      subst (λ x. x.rows u k ≡ s.rows u k) p refl

  pub staging-truncate :
      (t : String) (s s' : Server Row Key) → truncate t s ≡ some s' → s'.staging t ≡ some []
  staging-truncate t s s' h =
      let (xs, _, p) = if_staged-eq_some (s.staging t) _ s' h in
      subst (λ x. x.staging t ≡ some []) p (put_self t _ s.staging)

  pub rows-copy :
      (t : String) (rs : List Row) (s s' : Server Row Key)
      → copy t rs s ≡ some s'
      → (u : String) (k : Key) → s'.rows u k ≡ s.rows u k
  rows-copy t rs s s' h u k =
      let (xs, _, p) = if_staged-eq_some (s.staging t) _ s' h in
      subst (λ x. x.rows u k ≡ s.rows u k) p refl

  pub staging-copy :
      (t : String) (rs xs : List Row) (s s' : Server Row Key)
      → copy t rs s ≡ some s'
      → s.staging t ≡ some xs
      → s'.staging t ≡ some (xs ++ rs)
  staging-copy t rs xs s s' h g =
      let (ys, q, p) = if_staged-eq_some (s.staging t) _ s' h in
      let same : ys ≡ xs = some-injective _ _ (sym q ∙ g) in
      subst (λ x. x.staging t ≡ some (xs ++ rs)) p
        (rw same (put_self t (some (xs ++ rs)) s.staging))

  pub rows-insert :
      (t : String) (xs : List Row) (s s' : Server Row Key)
      → insert key t s ≡ some s'
      → s.staging t ≡ some xs
      → (k : Key) → Inserted key xs k (s.rows t k) (s'.rows t k)
  rows-insert t xs s s' h g k =
      let (ys, q, p) = if_staged-eq_some (s.staging t) _ s' h in
      let same : ys ≡ xs = some-injective _ _ (sym q ∙ g) in
      subst (λ x. Inserted key xs k (s.rows t k) (x.rows t k)) p
        (subst
          (λ zs.
            Inserted key xs k (s.rows t k) (put t (λ j. or_pick key j zs (s.rows t j)) s.rows t k))
          (sym same)
          (rw ((eq_string.eq_test_iff t t).1 refl) (or_pick-Inserted key k xs (s.rows t k))))

  pub rows-insert_ne :
      (t u : String) (s s' : Server Row Key)
      → insert key t s ≡ some s'
      → t ≢ u
      → (k : Key) → s'.rows u k ≡ s.rows u k
  rows-insert_ne t u s s' h ne k =
      let (ys, _, p) = if_staged-eq_some (s.staging t) _ s' h in
      subst (λ x. x.rows u k ≡ s.rows u k) p (ap (λ f. f k) (put_ne t u _ s.rows ne))

  abbrev pub memory : Database key
  memory = record {
    Conn = Server Row Key;
    find = λ s t k. s.rows t k;
    staged = λ s t. s.staging t;
    create_staging = create;
    truncate = truncate;
    copy_records = copy;
    insert_staged = insert key;
    find-create = rows-create;
    staged-create = staging-create;
    find-truncate = rows-truncate;
    staged-truncate = staging-truncate;
    find-copy = rows-copy;
    staged-copy = staging-copy;
    find-insert = rows-insert;
    find-insert_ne = rows-insert_ne;
  }

  pub memory-IsUp : IsUp memory
  memory-IsUp = record {
    creates = λ t s. (_, refl);
    truncates = λ t s xs h. if_staged-some (s.staging t) _ xs h;
    copies = λ t rs s xs h. if_staged-some (s.staging t) _ xs h;
    inserts = λ t s xs h. if_staged-some (s.staging t) _ xs h;
  }
