-- ===== src/Timescale/Guards.antt =====
-- src/shortfire/db/timescale.py: what the arguments of a wrapper can put into a statement.
use shortfire.Prelude.{
  ℕ, ◌+◌, ◌≤◌, ◌≡◌, ◌∙◌, sym, refl, ap, Bool, true, false, ◌||◌, Option, none, some, ◌⊎◌, inl, inr,
  List, [], ◌∷◌, All, length, String, arith, nat_eq, ok, raised, value_error, Checked, require,
  ◌>>◌,
}
use mathlib.Core.Path.{subst}
use shortfire.Prelude.Texts.{Text, count, count-append}
use shortfire.Timescale.Patterns.{is_letter, is_digit, count-format, count-format-total, format}
use shortfire.Timescale.Statements.{
  Operations, is_name_start, is_name_char, is_interval_char, validate_identifier, validate_interval,
  validate_order_by, upper_str, guarded, and_then, create_hypertable, enable_compression,
  add_compression_policy, create_continuous_aggregate, add_retention_policy, hypertable_sql,
  compression_sql, compression_policy_sql, aggregate_sql, aggregate_policy_sql,
  retention_policy_sql, default_group_by, group_by_or,
}
use shortfire.Timescale.Accepts.{
  IsName, IsInterval, Ends, IsOrderBy, identifier_iff, IsInterval-iff, IsOrderBy-iff,
}

-- The characters of names, intervals and orders, and the newline that `$` lets through.
unfoldable pub is_plain : ℕ → Bool
is_plain c = is_interval_char c || nat_eq c b'_' || nat_eq c b'\n'

-- The call raises and leaves the connection alone, or executes one statement, with the character
-- as often in it as in the template.
unfoldable pub Guarded :
    (op : Operations) → (op.Conn → Checked × op.Conn) → List String → ℕ → op.Conn → Type 0
Guarded op run template c conn =
    (run conn ≡ (raised value_error, conn))
    ⊎ ((s : Text) × (run conn ≡ op.execute s conn) × (count c s ≡ count c (format template [])))

module _ (c : ℕ) (special : is_plain c ≡ false) where
  count-class : (p : ℕ → Bool) (t : Text) → p c ≡ false → All (λ d. p d ≡ true) t → count c t ≡ 0
  count-class p [] h all = refl
  count-class p (d ∷ t) h all =
      let rest = count-class p t h all.1 in
      let apart : c ≡ d → true ≡ false = λ e. cc (e, h, all.0) in ground (arith, rest)

  not_name : is_name_char c ≡ false
  unfolding is_plain is_name_char is_interval_char
  not_name = ground (arith, special)

  not_start : is_name_start c ≡ false
  unfolding is_plain is_name_start is_interval_char
  not_start = ground (arith, special)

  not_interval : is_interval_char c ≡ false
  unfolding is_plain
  not_interval = ground (arith, special)

  count-Name : (t : Text) → IsName t → count c t ≡ 0
  unfolding IsName
  count-Name [] has = absurd has
  count-Name (d ∷ t) (first, all, short) =
      let rest = count-class is_name_char t not_name all in
      let apart : c ≡ d → true ≡ false = λ e. cc (e, not_start, first) in ground (arith, rest)

  count-Ends : (body t : Text) → Ends body t → count c body ≡ 0 → count c t ≡ 0
  unfolding Ends is_plain
  count-Ends body t (inl e) h = subst (λ t. count c t ≡ 0) (sym e) h
  count-Ends body t (inr e) h =
      let last : count c (b'\n' ∷ []) ≡ 0 = ground (arith, special) in
      subst (λ t. count c t ≡ 0) (sym e) (omega (arith, count-append c body (b'\n' ∷ []), h, last))

-- A check that passes with a property, or raises ValueError.
abbrev Checks : Checked → Type 0 → Type 0
Checks r P = ((r ≡ ok tt) × P) ⊎ (r ≡ raised value_error)

Checks-then : {P Q : Type 0} (r s : Checked) → Checks r P → Checks s Q → Checks (r >> s) (P × Q)
Checks-then r s (inr e) d = inr (ap (λ r. r >> s) e)
Checks-then r s (inl (e, p)) (inl (e', q)) = inl (ap (λ r. r >> s) e ∙ e', (p, q))
Checks-then r s (inl (e, p)) (inr e') = inr (ap (λ r. r >> s) e ∙ e')

Checks-map : {P Q : Type 0} (r : Checked) → (P → Q) → Checks r P → Checks r Q
Checks-map r f (inl (e, p)) = inl (e, f p)
Checks-map r f (inr e) = inr e

Checks-require :
    {P : Type 0} (b : Bool) → (require b value_error ≡ ok tt → P) → Checks (require b value_error) P
Checks-require true h = inl (refl, h refl)
Checks-require false h = inr refl

module _ (c : ℕ) (special : is_plain c ≡ false) where
  Checks-identifier : (t : Text) → Checks (validate_identifier t) (count c t ≡ 0)
  unfolding validate_identifier
  Checks-identifier t = Checks-require _ λ h.
      let (body, has, ends) = (identifier_iff t).0 h in
      count-Ends c special body t ends (count-Name c special body has)

  Checks-interval : (t : Text) → Checks (validate_interval t) (count c t ≡ 0)
  unfolding validate_interval IsInterval
  Checks-interval t = Checks-require _ λ h.
      let (body, has, ends) = (IsInterval-iff t).0 h in
      count-Ends c special body t ends
        (count-class c special is_interval_char body (not_interval c special) has.0)

  count-OrderBy : (t : Text) → IsOrderBy t → count c t ≡ 0
  unfolding IsOrderBy is_plain is_interval_char is_letter is_digit
  count-OrderBy t (name, order, e, has, o) =
      let none_in_order : count c order ≡ 0 = elim o [
        | inl a ↦ subst (λ t. count c t ≡ 0) (sym a) (ground (arith, special))
        | inr (inl d) ↦ subst (λ t. count c t ≡ 0) (sym d) (ground (arith, special))
        | inr (inr n) ↦ subst (λ t. count c t ≡ 0) (sym n) refl
      ] in
      subst (λ t. count c t ≡ 0) (sym e)
        (omega (arith, count-append c name order, count-Name c special name has, none_in_order))

  Checks-order_by : (t : Text) → Checks (validate_order_by t) (count c t ≡ 0)
  unfolding validate_order_by
  Checks-order_by t = Checks-require _ λ h.
      let (body, has, ends) = (IsOrderBy-iff t).0 h in
      count-Ends c special body t ends (count-OrderBy body has)

  count-upper_str : (b : Bool) → count c (upper_str b) ≡ 0
  unfolding upper_str is_plain is_interval_char is_letter is_digit
  count-upper_str true = ground (arith, special)
  count-upper_str false = ground (arith, special)

  guarded_of :
      (op : Operations) (r : Checked) (template : List String) (arguments : List Text)
      (conn : op.Conn)
      → Checks r (All (λ a. count c a ≡ 0) arguments)
      → Guarded op (guarded op r (op.execute (format template arguments))) template c conn
  unfolding Guarded
  guarded_of op r template arguments conn (inl (e, zeros)) = inr (
    format template arguments,
    ap (λ r. guarded op r (op.execute (format template arguments)) conn) e,
    count-format c template arguments zeros,
  )
  guarded_of op r template arguments conn (inr e) =
      inl (ap (λ r. guarded op r (op.execute (format template arguments)) conn) e)

  -- Four wrappers, whatever their arguments: each raises ValueError and executes nothing, or executes
  -- one statement in which a character that no argument may have is just as often as in the template.
  pub statements-Guarded :
      (op : Operations) (table column chunk order : Text) (flag : Bool) (conn : op.Conn)
      → Guarded op (create_hypertable op table column chunk flag) hypertable_sql c conn
        × Guarded op (enable_compression op table column order) compression_sql c conn
        × Guarded op (add_compression_policy op table chunk flag) compression_policy_sql c conn
        × Guarded op (add_retention_policy op table chunk flag) retention_policy_sql c conn
  unfolding create_hypertable enable_compression add_compression_policy add_retention_policy
  statements-Guarded op table column chunk order flag conn =
      let name = Checks-identifier table in
      let part = Checks-identifier column in
      let span = Checks-interval chunk in
      let boolean = count-upper_str flag in
      let named = Checks-then _ _ name part in
      let timed = Checks-map _ (λ z. (z.0, (z.1, (boolean, tt)))) (Checks-then _ _ name span) in
      (
        guarded_of op _ hypertable_sql (table ∷ column ∷ chunk ∷ upper_str flag ∷ []) conn (
            Checks-map _ (λ z. (z.0.0, (z.0.1, (z.1, (boolean, tt)))))
              (Checks-then _ _ named span)),
        guarded_of op _ compression_sql (table ∷ column ∷ order ∷ []) conn (
            Checks-map _ (λ z. (z.0.0, (z.0.1, (z.1, tt))))
              (Checks-then _ _ named (Checks-order_by order))),
        guarded_of op _ compression_policy_sql (table ∷ chunk ∷ upper_str flag ∷ []) conn timed,
        guarded_of op _ retention_policy_sql (table ∷ chunk ∷ upper_str flag ∷ []) conn timed,
      )

  count-group_by_or :
      (bucket : Text) (group_by : Option Text)
      → count c bucket ≡ 0
      → count c (group_by_or bucket group_by) ≡ count c (group_by_or [] group_by)
  unfolding group_by_or
  count-group_by_or bucket none h =
      count-format c default_group_by (bucket ∷ []) (h, tt)
      ∙ sym (count-format c default_group_by ([] ∷ []) (refl, tt))
  count-group_by_or bucket (some group_by) h = refl

  aggregate_sql-length : 4 ≤ length aggregate_sql
  unfolding aggregate_sql
  aggregate_sql-length = omega arith

  count-aggregate :
      (view source bucket columns : Text) (group_by : Option Text)
      → count c view ≡ 0
      → count c source ≡ 0
      → count c bucket ≡ 0
      → count c (format aggregate_sql (view ∷ columns ∷ source ∷ group_by_or bucket group_by ∷ []))
        ≡ count c (format aggregate_sql []) + count c columns + count c (group_by_or [] group_by)
  count-aggregate view source bucket columns group_by v s b =
      let parts = view ∷ columns ∷ source ∷ group_by_or bucket group_by ∷ [] in
      let fits : length parts ≤ length aggregate_sql = aggregate_sql-length in
      omega (
        arith,
        v,
        s,
        count-group_by_or bucket group_by b,
        count-format-total c aggregate_sql parts fits,
      )

  -- A continuous aggregate: ValueError and nothing executed, or two statements, the second only if the
  -- first did not raise. The columns and the grouping of the caller are in the first as they are; no
  -- other argument adds a character that it may not have.
  pub aggregate_guarded :
      (op : Operations) (view source bucket columns : Text) (group_by : Option Text)
      (from to every : Text) (conn : op.Conn)
      → (create_continuous_aggregate op view source bucket columns group_by from to every conn
          ≡ (raised value_error, conn))
        ⊎ ((s : Text) × (s' : Text) × (create_continuous_aggregate op view source bucket columns
                group_by from to every conn
              ≡ and_then op (op.execute s conn) (op.execute s'))
            × (count c s
                ≡ count c (format aggregate_sql [])
                  + count c columns
                  + count c (group_by_or [] group_by))
            × (count c s' ≡ count c (format aggregate_policy_sql [])))
  unfolding create_continuous_aggregate
  aggregate_guarded op view source bucket columns group_by from to every conn =
      let names = Checks-then _ _ (Checks-identifier view) (Checks-identifier source) in
      let checked =
        Checks-then _ _
          (Checks-then _ _
            (Checks-then _ _ (Checks-then _ _ names (Checks-interval bucket))
              (Checks-interval from))
            (Checks-interval to))
          (Checks-interval every) in
      elim checked [
        | inr e ↦ inl (ap (λ r. guarded op r run conn) e)
        | inl (e, z) ↦ inr (
          format aggregate_sql (view ∷ columns ∷ source ∷ group_by_or bucket group_by ∷ []),
          format aggregate_policy_sql (view ∷ from ∷ to ∷ every ∷ []),
          ap (λ r. guarded op r run conn) e,
          count-aggregate view source bucket columns group_by z.0.0.0.0.0 z.0.0.0.0.1 z.0.0.0.1,
          count-format c aggregate_policy_sql (view ∷ from ∷ to ∷ every ∷ [])
              (z.0.0.0.0.0, (z.0.0.1, (z.0.1, (z.1, tt)))),
        )
      ]
    where
      run : op.Conn → Checked × op.Conn
      run conn =
          and_then op
            (op.execute
              (format aggregate_sql (view ∷ columns ∷ source ∷ group_by_or bucket group_by ∷ []))
              conn)
            (op.execute (format aggregate_policy_sql (view ∷ from ∷ to ∷ every ∷ [])))
