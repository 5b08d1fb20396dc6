-- ===== src/Timescale/Statements.antt =====
-- src/shortfire/db/timescale.py: the patterns, the validators and the five wrappers. Alembic's `op`
-- with the connection behind it is the record `Operations`; the parameter names of the error texts
-- are not modelled, as an exception is its class.
use shortfire.Prelude.{
  ℕ, Bool, ◌||◌, Option, none, some, List, [], ◌∷◌, String, nat_eq, if◌then◌else◌, ok, raised,
  value_error, Checked, require, ◌>>◌,
}
use shortfire.Prelude.Texts.{Text, codes}
use shortfire.Timescale.Patterns.{
  Pattern, one, up_to, some_of, literal, sequence, either, optional, at_end, matches, is_letter,
  is_digit, format,
}

-- [a-zA-Z_], [a-zA-Z0-9_] and [0-9a-zA-Z :,\.]
unfoldable pub is_name_start : ℕ → Bool
is_name_start c = is_letter c || nat_eq c b'_'

unfoldable pub is_name_char : ℕ → Bool
is_name_char c = is_letter c || is_digit c || nat_eq c b'_'

unfoldable pub is_interval_char : ℕ → Bool
is_interval_char c =
    is_digit c || is_letter c || nat_eq c b' ' || nat_eq c b':' || nat_eq c b',' || nat_eq c b'.'

unfoldable pub safe_ident : Pattern
safe_ident = sequence (one is_name_start) (sequence (up_to is_name_char 62) at_end)

unfoldable pub safe_interval : Pattern
safe_interval = sequence (some_of is_interval_char) at_end

unfoldable pub safe_order_by : Pattern
safe_order_by = sequence (one is_name_start) (
    sequence (up_to is_name_char 62) (
      sequence
        (optional (
          sequence (literal (codes " ")) (either (literal (codes "ASC")) (literal (codes "DESC")))))
        at_end))

unfoldable pub validate_identifier : Text → Checked
validate_identifier name = require (matches safe_ident name) value_error

unfoldable pub validate_interval : Text → Checked
validate_interval value = require (matches safe_interval value) value_error

unfoldable pub validate_order_by : Text → Checked
validate_order_by value = require (matches safe_order_by value) value_error

-- str(b).upper()
unfoldable pub upper_str : Bool → Text
upper_str b = if b then codes "TRUE" else codes "FALSE"

-- The segments of the statements.
unfoldable pub hypertable_sql : List String
hypertable_sql =
    "\n        SELECT create_hypertable(\n            '" ∷ "',\n            '"
    ∷ "',\n            chunk_time_interval => INTERVAL '" ∷ "',\n            if_not_exists => "
    ∷ "\n        );\n    " ∷ []

unfoldable pub compression_sql : List String
compression_sql =
    "\n        ALTER TABLE "
    ∷ " SET (\n            timescaledb.compress,\n            timescaledb.compress_segmentby = '"
    ∷ "',\n            timescaledb.compress_orderby = '" ∷ "'\n        );\n    " ∷ []

unfoldable pub compression_policy_sql : List String
compression_policy_sql =
    "\n        SELECT add_compression_policy(\n            '" ∷ "',\n            INTERVAL '"
    ∷ "',\n            if_not_exists => " ∷ "\n        );\n    " ∷ []

unfoldable pub aggregate_sql : List String
aggregate_sql =
    "\n        CREATE MATERIALIZED VIEW "
    ∷ "\n        WITH (timescaledb.continuous) AS\n        SELECT " ∷ "\n        FROM "
    ∷ "\n        GROUP BY " ∷ "\n        WITH NO DATA\n    " ∷ []

unfoldable pub aggregate_policy_sql : List String
aggregate_policy_sql =
    "\n        SELECT add_continuous_aggregate_policy(\n            '"
    ∷ "',\n            start_offset   => INTERVAL '"
    ∷ "',\n            end_offset     => INTERVAL '"
    ∷ "',\n            schedule_interval => INTERVAL '" ∷ "'\n        )\n    " ∷ []

unfoldable pub retention_policy_sql : List String
retention_policy_sql =
    "\n        SELECT add_retention_policy(\n            '" ∷ "',\n            INTERVAL '"
    ∷ "',\n            if_not_exists => " ∷ "\n        );\n    " ∷ []

unfoldable pub default_group_by : List String
default_group_by = "symbol, time_bucket('" ∷ "', ts)" ∷ []

unfoldable pub group_by_or : Text → Option Text → Text
group_by_or bucket none = format default_group_by (bucket ∷ [])
group_by_or bucket (some group_by) = group_by

-- op.execute(text(…)), which returns or raises.
pub record Operations : Type 1 where
  pub Conn : Type 0
  pub execute : Text → Conn → Checked × Conn

module _ (op : Operations) where
  -- A statement that the checks guard: the first check that fails raises.
  abbrev pub guarded : Checked → (op.Conn → Checked × op.Conn) → op.Conn → Checked × op.Conn
  guarded (ok done) run conn = run conn
  guarded (raised e) run conn = (raised e, conn)

  -- One statement after another.
  abbrev pub and_then : Checked × op.Conn → (op.Conn → Checked × op.Conn) → Checked × op.Conn
  and_then (r, conn) run = guarded r run conn

  unfoldable pub create_hypertable :
      (table time_column chunk_interval : Text) → Bool → op.Conn → Checked × op.Conn
  create_hypertable table time_column chunk_interval if_not_exists =
      guarded
        (validate_identifier table
          >> validate_identifier time_column
          >> validate_interval chunk_interval)
        (op.execute (
          format hypertable_sql
            (table ∷ time_column ∷ chunk_interval ∷ upper_str if_not_exists ∷ [])))

  unfoldable pub enable_compression :
      (table segment_by order_by : Text) → op.Conn → Checked × op.Conn
  enable_compression table segment_by order_by =
      guarded
        (validate_identifier table >> validate_identifier segment_by >> validate_order_by order_by)
        (op.execute (format compression_sql (table ∷ segment_by ∷ order_by ∷ [])))

  unfoldable pub add_compression_policy :
      (table after_age : Text) → Bool → op.Conn → Checked × op.Conn
  add_compression_policy table after_age if_not_exists =
      guarded (validate_identifier table >> validate_interval after_age) (
        op.execute
          (format compression_policy_sql (table ∷ after_age ∷ upper_str if_not_exists ∷ [])))

  unfoldable pub create_continuous_aggregate :
      (view_name source_table bucket select_columns : Text)
      → Option Text
      → (start_offset end_offset schedule_interval : Text) → op.Conn
      → Checked × op.Conn
  create_continuous_aggregate view_name source_table bucket select_columns group_by start_offset
        end_offset schedule_interval =
      guarded
        (validate_identifier view_name
          >> validate_identifier source_table
          >> validate_interval bucket
          >> validate_interval start_offset
          >> validate_interval end_offset
          >> validate_interval schedule_interval)
        (λ conn.
          and_then
            (op.execute
              (format aggregate_sql
                (view_name ∷ select_columns ∷ source_table ∷ group_by_or bucket group_by ∷ []))
              conn)
            (op.execute (
              format aggregate_policy_sql
                (view_name ∷ start_offset ∷ end_offset ∷ schedule_interval ∷ []))))

  unfoldable pub add_retention_policy :
      (table drop_after : Text) → Bool → op.Conn → Checked × op.Conn
  add_retention_policy table drop_after if_not_exists =
      guarded (validate_identifier table >> validate_interval drop_after) (
        op.execute
          (format retention_policy_sql (table ∷ drop_after ∷ upper_str if_not_exists ∷ [])))
