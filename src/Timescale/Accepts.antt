-- ===== src/Timescale/Accepts.antt =====
-- src/shortfire/db/timescale.py: which texts the validators accept, without the patterns.
use shortfire.Prelude.{
  ◌≤◌, ◌≡◌, refl, sym, ap, ◌∙◌, true, ◌⊎◌, inl, inr, ◌↔◌, [], ◌∷◌, ◌++◌, All, length, arith, ok,
  value_error, require,
}
use mathlib.Core.Path.{subst}
use shortfire.Prelude.Texts.{Text, codes}
use shortfire.Timescale.Patterns.{Pattern, matches, is_end}
use shortfire.Timescale.Matching.{Denotes, Match-sound, Match-complete}
use shortfire.Timescale.Statements.{
  is_name_start, is_name_char, is_interval_char, safe_ident, safe_interval, safe_order_by,
  validate_identifier, validate_interval, validate_order_by,
}

-- A letter or underscore, and at most 62 letters, digits and underscores.
unfoldable pub IsName : Text → Type 0
IsName [] = ⊥
IsName (c ∷ t) = (is_name_start c ≡ true) × All (λ d. is_name_char d ≡ true) t × (length t ≤ 62)

-- Letters, digits, spaces, colons, commas and dots, at least one.
unfoldable pub IsInterval : Text → Type 0
IsInterval t = All (λ d. is_interval_char d ≡ true) t × (1 ≤ length t)

-- The text, or the text and a newline.
unfoldable pub Ends : Text → Text → Type 0
Ends body t = (t ≡ body) ⊎ (t ≡ body ++ (b'\n' ∷ []))

rest_cases : (u : Text) → is_end u ≡ true → (u ≡ []) ⊎ (u ≡ b'\n' ∷ [])
unfolding is_end
rest_cases [] h = inl refl
rest_cases (c ∷ []) h = let same : c ≡ b'\n' = ground arith in inr (ap (λ c. c ∷ []) same)
rest_cases (c ∷ d ∷ u) h = cc

append_nil : (t : Text) → t ++ [] ≡ t
append_nil [] = refl
append_nil (c ∷ t) = ap (◌∷◌ c) (append_nil t)

-- A check by a pattern, from what the pattern means.
accepts_iff :
    (p : Pattern) (t : Text) (P : Text → Type 0)
    → ((w u : Text) → Denotes p w u → (body : Text) × P body × Ends body (w ++ u))
    → ((body u : Text) → P body → is_end u ≡ true → Denotes p body u)
    → (require (matches p t) value_error ≡ ok tt) ↔ ((body : Text) × P body × Ends body t)
unfolding Ends is_end
accepts_iff p t P from to = (there, back)
  where
    there : require (matches p t) value_error ≡ ok tt → (body : Text) × P body × Ends body t
    there h =
        let found : matches p t ≡ true = ground arith in
        let (w, u, e, d, rest) = Match-sound p t (λ u. true) found in
        let (body, has, ends) = from w u d in (body, has, subst (Ends body) (sym e) ends)

    at : (body u : Text) → P body → is_end u ≡ true → matches p (body ++ u) ≡ true
    at body u has ended = Match-complete p body u (λ u. true) (to body u has ended) refl

    back : ((body : Text) × P body × Ends body t) → require (matches p t) value_error ≡ ok tt
    back (body, has, inl e) =
        let found =
          subst (λ t. matches p t ≡ true) (append_nil body ∙ sym e) (at body [] has refl) in
        ap (λ b. require b value_error) found
    back (body, has, inr e) =
        let found = subst (λ t. matches p t ≡ true) (sym e) (at body (b'\n' ∷ []) has refl) in
        ap (λ b. require b value_error) found

-- What `$` leaves of the text.
Ends-of : (w u : Text) → is_end u ≡ true → Ends w (w ++ u)
unfolding Ends
Ends-of w u h = elim (rest_cases u h) [
  | inl e ↦ inl (ap (λ u. w ++ u) e ∙ append_nil w)
  | inr e ↦ inr (ap (λ u. w ++ u) e)
]

-- An interval is accepted exactly if it is an interval text, or one and a newline.
pub IsInterval-iff :
    (t : Text) → (validate_interval t ≡ ok tt) ↔ ((body : Text) × IsInterval body × Ends body t)
unfolding validate_interval safe_interval Denotes IsInterval
IsInterval-iff t = accepts_iff safe_interval t IsInterval from to
  where
    from :
        (w u : Text)
        → Denotes safe_interval w u
        → (body : Text) × IsInterval body × Ends body (w ++ u)
    from w u (v, v', e, d, (last, ended)) =
        let same : w ≡ v = e ∙ (ap (λ r. v ++ r) last ∙ append_nil v) in
        (w, subst IsInterval (sym same) d, Ends-of w u ended)

    to : (body u : Text) → IsInterval body → is_end u ≡ true → Denotes safe_interval body u
    to body u d ended = (body, [], sym (append_nil body), d, (refl, ended))

-- A text is accepted as an identifier exactly if it is a letter or underscore and at most 62 letters,
-- digits and underscores, or such a name and a newline.
pub identifier_iff :
    (t : Text) → (validate_identifier t ≡ ok tt) ↔ ((body : Text) × IsName body × Ends body t)
unfolding validate_identifier safe_ident Denotes IsName
identifier_iff t = accepts_iff safe_ident t IsName from to
  where
    from : (w u : Text) → Denotes safe_ident w u → (body : Text) × IsName body × Ends body (w ++ u)
    from w u (v, v', e, (c, e', first), (x, x', e'', d, (last, ended))) =
        let tail : v' ≡ x = e'' ∙ (ap (λ r. x ++ r) last ∙ append_nil x) in
        let same : w ≡ c ∷ x = e ∙ (ap (λ r. r ++ v') e' ∙ ap (◌∷◌ c) tail) in
        (w, subst IsName (sym same) (first, d.0, d.1), Ends-of w u ended)

    to : (body u : Text) → IsName body → is_end u ≡ true → Denotes safe_ident body u
    to [] u has ended = absurd has
    to (c ∷ x) u (first, all, short) ended = (
      c ∷ [],
      x,
      refl,
      (c, refl, first),
      (x, [], sym (append_nil x), (all, short), (refl, ended)),
    )

-- A name, and ASC or DESC after a space, if anything.
unfoldable pub IsOrderBy : Text → Type 0
IsOrderBy t =
    (name : Text) × (order : Text) × (t ≡ name ++ order)
    × IsName name
    × ((order ≡ codes " ASC") ⊎ (order ≡ codes " DESC") ⊎ (order ≡ []))

-- An order is accepted exactly if it is a name with ASC or DESC, if anything, or that and a newline.
pub IsOrderBy-iff :
    (t : Text) → (validate_order_by t ≡ ok tt) ↔ ((body : Text) × IsOrderBy body × Ends body t)
unfolding validate_order_by safe_order_by Denotes IsName IsOrderBy
IsOrderBy-iff t = accepts_iff safe_order_by t IsOrderBy from to
  where
    from :
        (w u : Text)
        → Denotes safe_order_by w u
        → (body : Text) × IsOrderBy body × Ends body (w ++ u)
    from w u (v, v', e, (c, e', first), (x, x', e'', d, (y, y', e3, o, (last, ended)))) =
        let order : x' ≡ y = e3 ∙ (ap (λ r. y ++ r) last ∙ append_nil y) in
        let same : w ≡ (c ∷ x) ++ y =
          e ∙ (ap (λ r. r ++ v') e' ∙ ap (◌∷◌ c) (e'' ∙ ap (λ r. x ++ r) order)) in
        (w, (c ∷ x, y, same, (first, d.0, d.1), direction y o), Ends-of w u ended)
      where
        direction :
            (y : Text)
            → ((z : Text) × (z' : Text) × (y ≡ z ++ z')
                × (z ≡ codes " ")
                × ((z' ≡ codes "ASC") ⊎ (z' ≡ codes "DESC")))
              ⊎ (y ≡ [])
            → (y ≡ codes " ASC") ⊎ (y ≡ codes " DESC") ⊎ (y ≡ [])
        direction y (inl (z, z', e, s, inl a)) =
            inl (e ∙ (ap (λ r. r ++ z') s ∙ ap (λ r. codes " " ++ r) a))
        direction y (inl (z, z', e, s, inr a)) =
            inr (inl (e ∙ (ap (λ r. r ++ z') s ∙ ap (λ r. codes " " ++ r) a)))
        direction y (inr e) = inr (inr e)

    to : (body u : Text) → IsOrderBy body → is_end u ≡ true → Denotes safe_order_by body u
    to body u ([], order, e, has, o) ended = absurd has
    to body u (c ∷ x, order, e, (first, all, short), o) ended = (
      c ∷ [],
      x ++ order,
      e,
      (c, refl, first),
      (x, order, refl, (all, short), (order, [], sym (append_nil order), spell o, (refl, ended))),
    )
      where
        spell :
            (order ≡ codes " ASC") ⊎ (order ≡ codes " DESC") ⊎ (order ≡ [])
            → ((z : Text) × (z' : Text) × (order ≡ z ++ z')
                × (z ≡ codes " ")
                × ((z' ≡ codes "ASC") ⊎ (z' ≡ codes "DESC")))
              ⊎ (order ≡ [])
        spell (inl a) = inl (codes " ", codes "ASC", a, refl, inl refl)
        spell (inr (inl a)) = inl (codes " ", codes "DESC", a, refl, inr refl)
        spell (inr (inr a)) = inr a
