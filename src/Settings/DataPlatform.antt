-- ===== src/Settings/DataPlatform.antt =====
-- src/shortfire/settings/data_platform.py, with the texts of its secrets.
use shortfire.Prelude.{
  String, Bool, true, false, Option, none, some, List, [], ◌∷◌, ◌++◌, Checked, require,
  runtime_error, not, ◌||◌,
}
use shortfire.Prelude.Texts.{Text, has_prefix}
use shortfire.Observability.Telegram.{TelegramSettings}
use shortfire.Settings.Base.{BaseAppSettings, Summary, entry_flag, base_summary}

pub record MexcReadSettings : Type 0 where
  pub read_key : Text
  pub read_secret : Text

pub record CoinglassSettings : Type 0 where
  pub api_key : Text

pub record CoingeckoSettings : Type 0 where
  pub api_key : Text

pub record R2BackupSettings : Type 0 where
  pub account_id : Text
  pub access_key_id : Text
  pub secret_access_key : Text
  pub bucket_name : Text

pub record DataPlatformSettings : Type 0 where
  pub base : BaseAppSettings
  pub mexc : Option MexcReadSettings
  pub coinglass : Option CoinglassSettings
  pub coingecko : Option CoingeckoSettings
  pub telegram : Option TelegramSettings
  pub r2_backup : Option R2BackupSettings

-- `x is not None`
abbrev pub is_configured : {A : Type 0} → Option A → Bool
is_configured none = false
is_configured (some a) = true

unfoldable pub safe_summary : DataPlatformSettings → Summary
safe_summary s =
    base_summary s.base
    ++ (("mexc_read_configured", entry_flag (is_configured s.mexc))
        ∷ ("coinglass_configured", entry_flag (is_configured s.coinglass))
        ∷ ("coingecko_configured", entry_flag (is_configured s.coingecko))
        ∷ ("telegram_configured", entry_flag (is_configured s.telegram))
        ∷ ("r2_backup_configured", entry_flag (is_configured s.r2_backup))
        ∷ [])

-- [k for k in os.environ if k.startswith("MEXC_TRADE__")], tested for a member
unfoldable pub any_trade_key : List String → Bool
any_trade_key [] = false
any_trade_key (k ∷ environ) = has_prefix "MEXC_TRADE__" k || any_trade_key environ

unfoldable pub assert_no_trade_env_leaked : List String → Checked
assert_no_trade_env_leaked environ = require (not (any_trade_key environ)) runtime_error
