-- ===== src/DeadLetter/Tests.antt =====
-- A letter on a database in memory.
use shortfire.Prelude.{
  ℕ, zero, suc, ◌<◌, ◌≡◌, ◌↔◌, refl, none, some, List, [], ◌∷◌, ◌++◌, Holds, Result, ok, raised,
  database_error, true, Checked, arith,
}
use shortfire.Prelude.Texts.{Text, codes}
use shortfire.Prelude.Keys.{eq_nat, eq_pair, eq_string}
use shortfire.Storage.{Database}
use shortfire.Storage.Memory.{empty, memory}
use shortfire.DeadLetter.{
  Letter, letter_key, Stamp, bytes, letter, write_letter, primary_key, is_index,
}
use shortfire.DeadLetter.Alerter.{
  Group, count_of, groups, having, insert_by_count, order_by_count, offenders_of,
  dead_letter_threshold_per_hour, dead_letter_alerter_job, alert_body,
}
use shortfire.DeadLetter.Spikes.{offenders_exact, spike_alerts}
use shortfire.Observability.Telegram.{TelegramSettings, Process, warn}
use shortfire.Observability.Delivery.{wire, post_of}

abbrev dlq : Database letter_key
dlq = memory letter_key

abbrev stamp : Stamp
stamp = record { id = 9; now = 1_000_000 }

abbrev failure : Letter
failure =
    letter (λ b. "{}") stamp "coinglass_aggregate" "/api/futures/open-interest/history" (some "BTC")
      (bytes (b'{' ∷ b'}' ∷ [])) "HTTPStatusError" "HTTP 404" 0

-- The primary key itself would do.
key_of_both : is_index primary_key ("ts" ∷ "id" ∷ []) ≡ true
key_of_both = refl

writes_none : (write_letter dlq failure empty).0 ≡ raised database_error
unfolding write_letter
writes_none = refl

-- Eleven letters of one failure, one second before the job runs, and a network that answers 200.
abbrev copies : ℕ → List Letter
copies zero = []
copies (suc n) = failure ∷ copies n

abbrev group : Group
group = ("coinglass_aggregate", "HTTPStatusError")

abbrev operator : TelegramSettings
operator = record { bot_token = codes "token"; operator_chat_id = codes "42" }

abbrev answer : ℕ → Result ℕ
answer n = ok 200

abbrev passes : ℕ → Checked
passes n = ok tt

abbrev eleven_str : ℕ → Text
eleven_str n = codes "11"

abbrev process : Process (wire answer passes)
process = record {
  telegram_client = none;
  net = record { posts = []; clients_opened = 0; clients_closed = 0 };
}

ten_pass : offenders_of 2_000_000 (copies 10) ≡ []
unfolding offenders_of order_by_count insert_by_count having groups count_of letter
ten_pass = refl

offenders_exact_example :
    Holds (group, 11) (offenders_of 2_000_000 (copies 11))
    ↔ ((11 ≡ count_of 2_000_000 group (copies 11)) × (dead_letter_threshold_per_hour < 11))
offenders_exact_example = offenders_exact 2_000_000 (copies 11) group 11

eleven : count_of 2_000_000 group (copies 11) ≡ 11
unfolding count_of letter
eleven = refl

spike_alerts_example :
    ((dead_letter_alerter_job
        (wire answer passes)
        eleven_str
        (some operator)
        2_000_000
        (ok (copies 11))
        process).0
      ≡ ok tt)
    × ((dead_letter_alerter_job
          (wire answer passes)
          eleven_str
          (some operator)
          2_000_000
          (ok (copies 11))
          process).1.net.posts
        ≡ process.net.posts
          ++ (post_of answer passes operator warn
                (alert_body eleven_str (offenders_of 2_000_000 (copies 11)))
              ∷ []))
spike_alerts_example =
    spike_alerts answer passes eleven_str operator 2_000_000 (copies 11) group process
      (omega (arith, eleven))
