-- ===== src/DeadLetter/Alerter.antt =====
-- src/shortfire/ingest/dead_letter/alerter.py: the check of the dead letters of the last hour. The
-- query is written out as a function of the rows of the table dead_letter; rows of one count come in
-- the order in which their groups first appear, which SQL leaves open.
use shortfire.Prelude.{
  ℕ, suc, ◌+◌, String, Bool, ◌&&◌, Option, List, [], ◌∷◌, ◌++◌, Result, ok, raised, Checked, leb,
  ltb, if◌then◌else◌,
}
use shortfire.Prelude.Keys.{add, ◌==◌, eq_string, eq_pair}
use shortfire.Prelude.Times.{Time}
use shortfire.Prelude.Texts.{Text, codes}
use shortfire.DeadLetter.{Letter}
use shortfire.Observability.Events.{assert_event_registered}
use shortfire.Observability.Telegram.{Http, Process, TelegramSettings, warn, send_telegram_alert}

-- DEAD_LETTER_THRESHOLD_PER_HOUR
abbrev pub dead_letter_threshold_per_hour : ℕ
dead_letter_threshold_per_hour = 10

-- (source, error_type)
abbrev pub Group : Type 0
Group = String × String

-- (source, error_type, n)
abbrev pub Offender : Type 0
Offender = Group × ℕ

abbrev pub group_of : Letter → Group
group_of l = (l.source, l.error_type)

-- ts >= now() - INTERVAL '1 hour'
abbrev pub is_recent : Time → Letter → Bool
is_recent now l = leb now (l.ts + 3_600_000_000)

-- count(*) of a group
unfoldable pub count_of : Time → Group → List Letter → ℕ
count_of now g [] = 0
count_of now g (l ∷ letters) =
    let rest = count_of now g letters in
    if is_recent now l && group_of l == g then suc rest else rest

-- GROUP BY source, error_type
unfoldable pub groups : Time → List Letter → List Group
groups now [] = []
groups now (l ∷ letters) =
    let rest = groups now letters in if is_recent now l then add (group_of l) rest else rest

-- HAVING count(*) > :threshold
unfoldable pub having : Time → List Letter → List Group → List Offender
having now letters [] = []
having now letters (g ∷ gs) =
    let rest = having now letters gs in
    let n = count_of now g letters in
    if ltb dead_letter_threshold_per_hour n then (g, n) ∷ rest else rest

-- ORDER BY n DESC
unfoldable pub insert_by_count : Offender → List Offender → List Offender
insert_by_count o [] = o ∷ []
insert_by_count o (p ∷ offenders) =
    let rest = insert_by_count o offenders in if ltb o.1 p.1 then p ∷ rest else o ∷ p ∷ offenders

unfoldable pub order_by_count : List Offender → List Offender
order_by_count [] = []
order_by_count (o ∷ offenders) = insert_by_count o (order_by_count offenders)

unfoldable pub offenders_of : Time → List Letter → List Offender
offenders_of now letters = order_by_count (having now letters (groups now letters))

-- The lines of the body, joined by newlines; `str_int` is str of a number.
unfoldable pub body_lines : (ℕ → Text) → List Offender → Text
body_lines str_int [] = []
body_lines str_int (((source, error_type), n) ∷ offenders) =
    codes "\n  "
    ++ (codes source
        ++ (codes " / "
            ++ (codes error_type ++ (codes ": " ++ (str_int n ++ body_lines str_int offenders)))))

unfoldable pub alert_body : (ℕ → Text) → List Offender → Text
alert_body str_int offenders = codes "dead_letter spike (last 1h):" ++ body_lines str_int offenders

-- assert_event_registered("ingest.dead_letter"), after an alert that did not raise
abbrev pub registered_after : {P : Type 0} → Checked × P → Checked × P
registered_after (ok done, p) = (assert_event_registered "ingest.dead_letter", p)
registered_after (raised e, p) = (raised e, p)

module _ (http : Http) (str_int : ℕ → Text) (t : Option TelegramSettings) (now : Time) where
  -- `if not offenders: return`, and the alert.
  unfoldable pub alert_about : List Offender → Process http → Checked × Process http
  alert_about [] p = (ok tt, p)
  alert_about (o ∷ offenders) p =
      registered_after (send_telegram_alert http t warn (alert_body str_int (o ∷ offenders)) p)

  -- The argument is what the connection gives: the rows, or its exception.
  unfoldable pub dead_letter_alerter_job :
      Result (List Letter) → Process http → Checked × Process http
  dead_letter_alerter_job (raised e) p = (raised e, p)
  dead_letter_alerter_job (ok letters) p = alert_about (offenders_of now letters) p
