-- ===== src/Settings/Base.antt =====
-- src/shortfire/settings/base.py. A text is the list of its code points; pydantic, which fills the
-- fields from the environment, is not modelled beyond the values of the fields.
use shortfire.Prelude.{
  ℕ, ◌+◌, String, Bool, Option, none, some, List, [], ◌∷◌, map, leb, ◌&&◌, nat_eq, if◌then◌else◌,
}
use shortfire.Prelude.Keys.{◌==◌, eq_string}
use shortfire.Prelude.Dicts.{Dict, lookup, insert}
use shortfire.Prelude.Texts.{Text, codes}

-- What follows the first character c of a text, if it has one: split(c, 1)[1]
unfoldable pub after_first : ℕ → Text → Option Text
after_first c [] = none
after_first c (d ∷ t) = let rest = after_first c t in if nat_eq c d then some t else rest

-- What stands before it: split(c)[0]
unfoldable pub up_to_first : ℕ → Text → Text
up_to_first c [] = []
up_to_first c (d ∷ t) = let rest = up_to_first c t in if nat_eq c d then [] else d ∷ rest

-- _env_file, of the variable ENV
unfoldable pub env_file : Option String → Option String
env_file none = some ".env.local"
env_file (some env) = if env == "production" then none else some ".env.local"

pub record DbSettings : Type 0 where
  pub url : Text
  pub pool_size : ℕ
  pub pool_pre_ping : Bool
  pub pool_recycle : ℕ

pub data LogLevel : Type 0 where
  level_debug level_info level_warn level_error : LogLevel

pub data Env : Type 0 where
  env_local env_ci env_staging env_production : Env

pub record CommonSettings : Type 0 where
  pub log_level : LogLevel
  pub env : Env

-- A value of the data that the validator gets: a text, a dict, or anything else.
pub data Raw : Type 0 where
  raw_text : Text → Raw
  raw_dict : List (String × Text) → Raw
  raw_other : Raw

-- The character of `key.lower()`: no other character becomes one of "database_url".
unfoldable pub lower_case : ℕ → ℕ
lower_case c = if leb b'A' c && leb c b'Z' then c + 32 else c

unfoldable pub same_text : Text → Text → Bool
same_text [] [] = Bool.true
same_text [] (d ∷ t) = Bool.false
same_text (c ∷ s) [] = Bool.false
same_text (c ∷ s) (d ∷ t) = let rest = same_text s t in nat_eq c d && rest

-- _extract_db_url: the first key that is DATABASE_URL in any case, with a text
unfoldable pub extract_db_url : Dict String Raw → Option Text
extract_db_url [] = none
extract_db_url ((key, value) ∷ entries) =
    let rest = extract_db_url entries in
    if same_text (map lower_case (codes key)) (codes "database_url")
    then text_or value rest
    else rest
  where
    text_or : Raw → Option Text → Option Text
    text_or (raw_text url) rest = some url
    text_or (raw_dict fields) rest = rest
    text_or raw_other rest = rest

abbrev pub with_url : Dict String Raw → Text → Option Raw → Dict String Raw
with_url entries url (some (raw_dict fields)) = entries
with_url entries url _ = insert "db" (raw_dict (("url", url) ∷ [])) entries

-- _build_db
unfoldable pub build_db : Dict String Raw → Dict String Raw
build_db entries = from_url (extract_db_url entries)
  where
    from_url : Option Text → Dict String Raw
    from_url none = entries
    from_url (some url) = with_url entries url (lookup "db" entries)

pub record BaseAppSettings : Type 0 where
  pub service_name : Text
  pub port : ℕ
  pub database_url : Text
  pub db : DbSettings
  pub common : CommonSettings

-- A value of a summary.
pub data Entry : Type 0 where
  entry_text : Text → Entry
  entry_number : ℕ → Entry
  entry_env : Env → Entry
  entry_level : LogLevel → Entry
  entry_flag : Bool → Entry

abbrev pub Summary : Type 0
Summary = List (String × Entry)

abbrev pub host_or_unknown : Option Text → Text
host_or_unknown none = codes "<unknown>"
host_or_unknown (some after_at) = up_to_first b'/' after_at

unfoldable pub db_host : Text → Text
db_host url = host_or_unknown (after_first b'@' url)

unfoldable pub base_summary : BaseAppSettings → Summary
base_summary s =
    ("service_name", entry_text s.service_name)
    ∷ ("port", entry_number s.port)
    ∷ ("env", entry_env s.common.env)
    ∷ ("log_level", entry_level s.common.log_level)
    ∷ ("db_host", entry_text (db_host s.db.url))
    ∷ []
