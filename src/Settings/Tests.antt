-- ===== src/Settings/Tests.antt =====
-- Settings of two deployments that differ in their secrets, and a password with an `@`.
use shortfire.Prelude.{◌≡◌, refl, true, none, some, [], ◌∷◌, ◌++◌, raised, runtime_error}
use shortfire.Prelude.Texts.{Text, codes, has_prefix}
use shortfire.Prelude.Dicts.{lookup, insert}
use shortfire.Settings.Base.{
  up_to_first, db_host, env_local, level_info, env_file, raw_text, raw_dict, build_db,
  extract_db_url, same_text, lower_case,
}
use shortfire.Settings.DataPlatform.{
  DataPlatformSettings, safe_summary, assert_no_trade_env_leaked, any_trade_key,
}
use shortfire.Settings.Hides.{summary_hides, password_tail_shown}

abbrev deployment : (url token : Text) → DataPlatformSettings
deployment url token = record {
  base = record {
    service_name = codes "data-platform";
    port = 8000;
    database_url = url;
    db = record { url = url; pool_size = 5; pool_pre_ping = true; pool_recycle = 1800 };
    common = record { log_level = level_info; env = env_local };
  };
  mexc = none;
  coinglass = none;
  coingecko = none;
  telegram = some (record { bot_token = token; operator_chat_id = codes "42" });
  r2_backup = none;
}

leaked : assert_no_trade_env_leaked ("PATH" ∷ "MEXC_TRADE__KEY" ∷ []) ≡ raised runtime_error
unfolding assert_no_trade_env_leaked any_trade_key has_prefix
leaked = refl

production : env_file (some "production") ≡ none
unfolding env_file
production = refl

url_from_env :
    build_db (("Database_Url", raw_text (codes "u")) ∷ [])
    ≡ ("Database_Url", raw_text (codes "u")) ∷ ("db", raw_dict (("url", codes "u") ∷ [])) ∷ []
unfolding build_db extract_db_url same_text lower_case lookup insert
url_from_env = refl

url_not_filled_in :
    build_db (
      ("database_url", raw_text (codes "u"))
      ∷ ("db", raw_dict (("pool_size", codes "9") ∷ []))
      ∷ [])
    ≡ ("database_url", raw_text (codes "u")) ∷ ("db", raw_dict (("pool_size", codes "9") ∷ [])) ∷ []
unfolding build_db extract_db_url same_text lower_case lookup insert
url_not_filled_in = refl

summary_hides_example :
    safe_summary (deployment (codes "pg://u:one@h:5432/db") (codes "a"))
    ≡ safe_summary (deployment (codes "pg://v:two@h:5432/db") (codes "b"))
summary_hides_example =
    summary_hides (deployment (codes "pg://u:one@h:5432/db") (codes "a"))
      (deployment (codes "pg://v:two@h:5432/db") (codes "b")) (codes "pg://u:one")
      (codes "pg://v:two") (codes "h:5432/db") refl refl refl refl refl refl refl refl refl refl
      refl refl

password_tail_shown_example :
    db_host (codes "pg://u:pa" ++ (b'@' ∷ (codes "ss" ++ (b'@' ∷ codes "h:5432/db"))))
    ≡ codes "ss" ++ (b'@' ∷ up_to_first b'/' (codes "h:5432/db"))
password_tail_shown_example =
    password_tail_shown (codes "pg://u:pa") (codes "ss") (codes "h:5432/db") refl refl
