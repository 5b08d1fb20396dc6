-- ===== src/Observability/Delivery.antt =====
-- A network that keeps what is posted and counts the clients, and what it has after any number of
-- alerts.
use shortfire.Prelude.{
  ℕ, suc, ◌+◌, ◌≤◌, ◌≡◌, refl, ap, Option, none, some, List, [], ◌∷◌, ◌++◌, All, All-append, length,
  length-take, Result, ok, raised, Checked, arith,
}
use shortfire.Prelude.Texts.{Text, codes}
use shortfire.Observability.Telegram.{
  Http, Process, TelegramSettings, Severity, max_message_len, alert_text, send_telegram_alert,
  status_of, get_telegram_client, close_telegram_client, send_message_url, severity_prefix,
}

-- (url, chat_id, text)
abbrev pub Post : Type 0
Post = Text × (Text × Text)

pub record Wire : Type 0 where
  pub posts : List Post
  pub clients_opened : ℕ
  pub clients_closed : ℕ

-- The outcome of each post, and of each status.
module _ (answers : ℕ → Result ℕ) (status : ℕ → Checked) where
  abbrev pub wire : Http
  wire = record {
    Net = Wire;
    Client = Unit {0};
    Response = ℕ;
    open_client = λ net. (ok tt, record net { clients_opened = suc net.clients_opened });
    post = λ client url chat_id text net. (
      answers (length net.posts),
      record net { posts = net.posts ++ ((url, (chat_id, text)) ∷ []) },
    );
    raise_for_status = status;
    aclose = λ client net. (ok tt, record net { clients_closed = suc net.clients_closed });
  }

  -- An alert, or the close at the end of a test or of the process.
  pub data Action : Type 0 where
    alert : Severity → Text → Action
    close : Action

  abbrev pub act : Option TelegramSettings → Action → Process wire → Checked × Process wire
  act t (alert severity body) p = send_telegram_alert wire t severity body p
  act t close p = close_telegram_client wire p

  abbrev and_next :
      Checked × Process wire → (Process wire → Checked × Process wire) → Checked × Process wire
  and_next (ok done, p) run = run p
  and_next (raised e, p) run = (raised e, p)

  -- The actions in turn; an exception would end them.
  abbrev pub act_all : Option TelegramSettings → List Action → Process wire → Checked × Process wire
  act_all t [] p = (ok tt, p)
  act_all t (a ∷ actions) p = and_next (act t a p) (act_all t actions)

  abbrev open_now : Option (Unit {0}) → ℕ
  open_now none = 0
  open_now (some client) = 1

  -- As many clients are open as the process has, and no text is too long.
  abbrev pub IsTidy : Process wire → Type 0
  IsTidy p =
      (p.net.clients_opened ≡ p.net.clients_closed + open_now p.telegram_client)
      × All (λ post. length post.1.1 ≤ max_message_len) p.net.posts

  length-alert_text :
      (severity : Severity) (body : Text) → length (alert_text severity body) ≤ max_message_len
  unfolding alert_text
  length-alert_text severity body =
      let whole = severity_prefix severity ++ (codes " | " ++ body) in
      omega (arith, length-take max_message_len whole)

  status_of-IsTidy :
      (r : Result ℕ) (c : Option (Unit {0})) (before after : Wire)
      → IsTidy (record { telegram_client = c; net = after })
      → IsTidy (status_of wire (record { telegram_client = c; net = before }) (r, after)).1
  status_of-IsTidy (ok n) c before after h = h
  status_of-IsTidy (raised e) c before after h = h

  act-IsTidy :
      (t : Option TelegramSettings) (a : Action) (c : Option (Unit {0})) (net : Wire)
      → IsTidy (record { telegram_client = c; net = net })
      → ((act t a (record { telegram_client = c; net = net })).0 ≡ ok tt)
        × IsTidy (act t a (record { telegram_client = c; net = net })).1
  unfolding send_telegram_alert close_telegram_client get_telegram_client
  act-IsTidy t close none net h = (refl, h)
  act-IsTidy t close (some client) net h = (refl, (omega (arith, h.0), h.1))
  act-IsTidy none (alert severity body) c net h = (refl, h)
  act-IsTidy (some t) (alert severity body) none net h =
      let short = length-alert_text severity body in
      (
        refl,
        status_of-IsTidy (answers (length net.posts)) (some tt) net _
            (omega (arith, h.0), All-append _ net.posts _ h.1 (short, tt)),
      )
  act-IsTidy (some t) (alert severity body) (some client) net h =
      let short = length-alert_text severity body in
      (
        refl,
        status_of-IsTidy (answers (length net.posts)) (some tt) net _
            (h.0, All-append _ net.posts _ h.1 (short, tt)),
      )

  and_next-Tidy :
      (q : Checked × Process wire) (run : Process wire → Checked × Process wire)
      → q.0 ≡ ok tt
      → IsTidy q.1
      → ((p : Process wire) → IsTidy p → ((run p).0 ≡ ok tt) × IsTidy (run p).1)
      → ((and_next q run).0 ≡ ok tt) × IsTidy (and_next q run).1
  and_next-Tidy (ok done, p) run e h rest = rest p h
  and_next-Tidy (raised e', p) run e h rest = cc

  -- From a process that has as many clients open as it keeps and has posted no longer text: however
  -- many alerts are sent, with the client closed in between or not, and whatever a post gives:
  -- none of them raises, never more than one client is open, and each text that is posted has at most
  -- 4000 characters.
  pub alerts-IsTidy :
      (t : Option TelegramSettings) (actions : List Action) (p : Process wire)
      → IsTidy p
      → ((act_all t actions p).0 ≡ ok tt) × IsTidy (act_all t actions p).1
  alerts-IsTidy t [] p h = (refl, h)
  alerts-IsTidy t (a ∷ actions) p h =
      let step = act-IsTidy t a p.telegram_client p.net h in
      and_next-Tidy (act t a p) (act_all t actions) step.0 step.1 (alerts-IsTidy t actions)

  abbrev pub post_of : TelegramSettings → Severity → Text → Post
  post_of t severity body =
      (send_message_url t.bot_token, (t.operator_chat_id, alert_text severity body))

  status_of-posts :
      (r : Result ℕ) (c : Option (Unit {0})) (before after : Wire)
      → (status_of wire (record { telegram_client = c; net = before }) (r, after)).1.net ≡ after
  status_of-posts (ok n) c before after = refl
  status_of-posts (raised e) c before after = refl

  -- With Telegram configured an alert is posted, whether or not a client is open.
  pub alert-posts :
      (t : TelegramSettings) (severity : Severity) (body : Text) (c : Option (Unit {0}))
      (net : Wire)
      → (send_telegram_alert wire
          (some t)
          severity
          body
          (record { telegram_client = c; net = net })).1.net.posts
        ≡ net.posts ++ (post_of t severity body ∷ [])
  unfolding send_telegram_alert get_telegram_client
  alert-posts t severity body none net =
      ap (λ (w : Wire). w.posts) (status_of-posts (answers (length net.posts)) (some tt) net _)
  alert-posts t severity body (some client) net =
      ap (λ (w : Wire). w.posts) (status_of-posts (answers (length net.posts)) (some tt) net _)
