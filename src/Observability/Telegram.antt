-- ===== src/Observability/Telegram.antt =====
-- src/shortfire/observability/telegram.py. HTTP is the record `Http`: the client of httpx with what
-- it does to the network. Log lines are not modelled.
use shortfire.Prelude.{ℕ, Option, none, some, ◌∷◌, ◌++◌, take, Result, ok, raised, Checked}
use shortfire.Prelude.Texts.{Text, codes}

pub record TelegramSettings : Type 0 where
  pub bot_token : Text
  pub operator_chat_id : Text

pub data Severity : Type 0 where
  warn crit info : Severity

-- _SEVERITY_PREFIX: a warning sign, a police light and an information sign, the first and the last
-- with the selector U+FE0F.
unfoldable pub severity_prefix : Severity → Text
severity_prefix warn = 9888 ∷ 65_039 ∷ codes " WARN"
severity_prefix crit = 128_680 ∷ codes " CRIT"
severity_prefix info = 8505 ∷ 65_039 ∷ codes " INFO"

-- _MAX_MESSAGE_LEN
abbrev pub max_message_len : ℕ
max_message_len = 4000

-- f"{prefix} | {body}"[:_MAX_MESSAGE_LEN]
unfoldable pub alert_text : Severity → Text → Text
alert_text severity body = take max_message_len (severity_prefix severity ++ (codes " | " ++ body))

unfoldable pub send_message_url : Text → Text
send_message_url bot_token =
    codes "https://api.telegram.org/bot" ++ (bot_token ++ codes "/sendMessage")

pub record Http : Type 1 where
  pub Net : Type 0
  pub Client : Type 0
  pub Response : Type 0
  pub open_client : Net → Result Client × Net
  pub post : Client → (url chat_id text : Text) → Net → Result Response × Net
  pub raise_for_status : Response → Checked
  pub aclose : Client → Net → Checked × Net

module _ (http : Http) where
  -- The process: the module's `_telegram_client`, and the network.
  pub record Process : Type 0 where
    pub telegram_client : Option http.Client
    pub net : http.Net

  abbrev pub opened : Process → Result http.Client × http.Net → Result http.Client × Process
  opened p (ok client, net) = (ok client, record { telegram_client = some client; net = net })
  opened p (raised e, net) = (raised e, record p { net = net })

  abbrev pub client_or_new : Option http.Client → Process → Result http.Client × Process
  client_or_new (some client) p = (ok client, p)
  client_or_new none p = opened p (http.open_client p.net)

  unfoldable pub get_telegram_client : Process → Result http.Client × Process
  get_telegram_client p = client_or_new p.telegram_client p

  abbrev pub closed : Process → Checked × http.Net → Checked × Process
  closed p (ok done, net) = (ok tt, record { telegram_client = none; net = net })
  closed p (raised e, net) = (raised e, record p { net = net })

  abbrev pub close_if : Option http.Client → Process → Checked × Process
  close_if none p = (ok tt, p)
  close_if (some client) p = closed p (http.aclose client p.net)

  unfoldable pub close_telegram_client : Process → Checked × Process
  close_telegram_client p = close_if p.telegram_client p

  abbrev pub status_of : Process → Result http.Response × http.Net → Checked × Process
  status_of p (raised e, net) = (raised e, record p { net = net })
  status_of p (ok r, net) = (http.raise_for_status r, record p { net = net })

  abbrev pub post_with : TelegramSettings → Text → Result http.Client × Process → Checked × Process
  post_with t msg (raised e, p) = (raised e, p)
  post_with t msg (ok client, p) =
      status_of p (http.post client (send_message_url t.bot_token) t.operator_chat_id msg p.net)

  -- except Exception: log
  abbrev pub swallow : Checked × Process → Checked × Process
  swallow (r, p) = (ok tt, p)

  unfoldable pub send_telegram_alert :
      Option TelegramSettings → Severity → Text → Process → Checked × Process
  send_telegram_alert none severity body p = (ok tt, p)
  send_telegram_alert (some t) severity body p =
      swallow (post_with t (alert_text severity body) (get_telegram_client p))
