-- ===== src/Timescale/Tests.antt =====
-- A connection that keeps the statements, and the arguments of one table.
use shortfire.Prelude.{
  ◌≡◌, refl, true, some, List, [], ◌∷◌, ◌++◌, ok, raised, value_error, ◌↔◌, ◌+◌, ◌⊎◌,
}
use shortfire.Prelude.Texts.{Text, codes, count}
use shortfire.Timescale.Patterns.{
  is_end, match_one, match_up_to, match_literal, match_then, is_letter, is_digit, format,
}
use shortfire.Timescale.Statements.{
  is_name_start, is_name_char, is_interval_char, safe_ident, safe_order_by, validate_identifier,
  validate_order_by, hypertable_sql, compression_sql, compression_policy_sql, aggregate_sql,
  aggregate_policy_sql, retention_policy_sql, group_by_or, Operations, and_then, create_hypertable,
  enable_compression, add_compression_policy, create_continuous_aggregate, add_retention_policy,
}
use shortfire.Timescale.Accepts.{IsName, Ends, identifier_iff}
use shortfire.Timescale.Guards.{is_plain, Guarded, statements-Guarded, aggregate_guarded}

abbrev statement_list : Operations
statement_list = record { Conn = List Text; execute = λ s executed. (ok tt, executed ++ (s ∷ [])) }

accepted : validate_identifier (codes "raw_mexc_l2_top20") ≡ ok tt
unfolding validate_identifier safe_ident match_then match_one match_up_to is_end is_name_start
    is_name_char is_letter is_digit
accepted = refl

newline_accepted : validate_identifier (codes "ts\n") ≡ ok tt
unfolding validate_identifier safe_ident match_then match_one match_up_to is_end is_name_start
    is_name_char is_letter is_digit
newline_accepted = refl

quote_rejected : validate_identifier (codes "ts'") ≡ raised value_error
unfolding validate_identifier safe_ident match_then match_one match_up_to is_end is_name_start
    is_name_char is_letter is_digit
quote_rejected = refl

order_accepted : validate_order_by (codes "ts DESC") ≡ ok tt
unfolding validate_order_by safe_order_by match_then match_one match_up_to match_literal is_end
    is_name_start is_name_char is_letter is_digit
order_accepted = refl

identifier_iff_example :
    (validate_identifier (codes "ts\n") ≡ ok tt)
    ↔ ((body : Text) × IsName body × Ends body (codes "ts\n"))
identifier_iff_example = identifier_iff (codes "ts\n")

statements-Guarded_example :
    Guarded statement_list
      (create_hypertable statement_list (codes "raw") (codes "ts") (codes "7 days") true)
      hypertable_sql
      b'\''
      []
    × Guarded statement_list
        (enable_compression statement_list (codes "raw") (codes "ts") (codes "ts DESC"))
        compression_sql
        b'\''
        []
    × Guarded statement_list
        (add_compression_policy statement_list (codes "raw") (codes "7 days") true)
        compression_policy_sql
        b'\''
        []
    × Guarded statement_list
        (add_retention_policy statement_list (codes "raw") (codes "7 days") true)
        retention_policy_sql
        b'\''
        []
unfolding is_plain is_interval_char is_letter is_digit
statements-Guarded_example =
    statements-Guarded b'\'' refl statement_list (codes "raw") (codes "ts") (codes "7 days")
      (codes "ts DESC") true []

aggregate_guarded_example :
    (create_continuous_aggregate statement_list
        (codes "v")
        (codes "raw")
        (codes "1 hour")
        (codes "symbol")
        (some (codes "symbol"))
        (codes "12 hours")
        (codes "1 hour")
        (codes "1 hour")
        []
      ≡ (raised value_error, []))
    ⊎ ((s : Text) × (s' : Text) × (create_continuous_aggregate statement_list
            (codes "v")
            (codes "raw")
            (codes "1 hour")
            (codes "symbol")
            (some (codes "symbol"))
            (codes "12 hours")
            (codes "1 hour")
            (codes "1 hour")
            []
          ≡ and_then statement_list (statement_list.execute s []) (statement_list.execute s'))
        × (count b'\'' s
            ≡ count b'\'' (format aggregate_sql [])
              + count b'\'' (codes "symbol")
              + count b'\'' (group_by_or [] (some (codes "symbol"))))
        × (count b'\'' s' ≡ count b'\'' (format aggregate_policy_sql [])))
unfolding is_plain is_interval_char is_letter is_digit
aggregate_guarded_example =
    aggregate_guarded b'\'' refl statement_list (codes "v") (codes "raw") (codes "1 hour")
      (codes "symbol") (some (codes "symbol")) (codes "12 hours") (codes "1 hour") (codes "1 hour")
      []
