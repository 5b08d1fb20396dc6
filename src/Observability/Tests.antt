-- ===== src/Observability/Tests.antt =====
-- A network that fails at the first post, and the registry.
use shortfire.Prelude.{
  ◌≡◌, refl, none, some, [], ◌∷◌, ℕ, Result, ok, raised, timeout_error, value_error, Checked,
  nat_eq, if◌then◌else◌,
}
use shortfire.Prelude.Texts.{codes}
use shortfire.Observability.Telegram.{TelegramSettings, Process, warn, crit}
use shortfire.Observability.Delivery.{wire, alert, close, act_all, IsTidy, alerts-IsTidy}
use shortfire.Observability.Events.{event_names, assert_event_registered}

abbrev operator : TelegramSettings
operator = record { bot_token = codes "token"; operator_chat_id = codes "42" }

abbrev first_fails : ℕ → Result ℕ
first_fails n = if nat_eq n 0 then raised timeout_error else ok 200

abbrev passes : ℕ → Checked
passes n = ok tt

abbrev fresh : Process (wire first_fails passes)
fresh = record {
  telegram_client = none;
  net = record { posts = []; clients_opened = 0; clients_closed = 0 };
}

registered : assert_event_registered "ws.stale" ≡ ok tt
unfolding assert_event_registered event_names
registered = refl

not_registered : assert_event_registered "bogus.event" ≡ raised value_error
unfolding assert_event_registered event_names
not_registered = refl

alerts-IsTidy_example :
    ((act_all first_fails passes
        (some operator)
        (alert warn (codes "stale") ∷ close ∷ alert crit (codes "down") ∷ [])
        fresh).0
      ≡ ok tt)
    × IsTidy first_fails passes
        (act_all first_fails passes
          (some operator)
          (alert warn (codes "stale") ∷ close ∷ alert crit (codes "down") ∷ [])
          fresh).1
alerts-IsTidy_example =
    alerts-IsTidy first_fails passes (some operator)
      (alert warn (codes "stale") ∷ close ∷ alert crit (codes "down") ∷ []) fresh (refl, tt)
