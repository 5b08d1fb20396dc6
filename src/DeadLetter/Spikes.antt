-- ===== src/DeadLetter/Spikes.antt =====
-- Which groups of dead letters the alerter reports, and when it posts.
use shortfire.Prelude.{
  ℕ, ◌<◌, ◌≡◌, refl, true, some, List, [], ◌∷◌, ◌++◌, Result, ok, Checked, ltb, ◌↔◌, ◌⊎◌, inl, inr,
  Holds, arith, Bool-cases,
}
use mathlib.Core.Path.{subst, sym}
use shortfire.Prelude.Keys.{contains, contains-add, contains_iff, eq_string, eq_pair, eq_nat}
use shortfire.Prelude.Times.{Time}
use shortfire.Prelude.Texts.{Text}
use shortfire.DeadLetter.{Letter}
use shortfire.Observability.Telegram.{TelegramSettings, Process, warn, send_telegram_alert}
use shortfire.Observability.Events.{assert_event_registered, event_names}
use shortfire.Observability.Delivery.{wire, post_of, alert-posts}
use shortfire.DeadLetter.Alerter.{
  Group, Offender, group_of, count_of, groups, having, insert_by_count, order_by_count,
  offenders_of, dead_letter_threshold_per_hour, alert_about, alert_body, dead_letter_alerter_job,
}

groups-contains :
    (now : Time) (g : Group) (letters : List Letter)
    → 0 < count_of now g letters
    → contains g (groups now letters) ≡ true
unfolding groups count_of
groups-contains now g [] h = absurd (omega (arith, h))
groups-contains now g (l ∷ letters) h =
    let rest = groups-contains now g letters in
    let added = contains-add (group_of l) g (groups now letters) in ground (arith, rest, added)

having-Holds :
    (now : Time) (letters : List Letter) (o : Offender) (gs : List Group)
    → Holds o (having now letters gs)
    → (o.1 ≡ count_of now o.0 letters) × (dead_letter_threshold_per_hour < o.1)
unfolding having
having-Holds now letters o [] h = absurd h
having-Holds now letters o (g ∷ gs) h =
    elim (Bool-cases (ltb dead_letter_threshold_per_hour (count_of now g letters))) [
      | inr out ↦ having-Holds now letters o gs (rw out at h)
      | inl over ↦
          let more : 10 < count_of now g letters = ground (arith, over) in
          elim (rw over at h) [
            | inl same ↦
                subst (λ o. (o.1 ≡ count_of now o.0 letters) × (10 < o.1)) same (refl, more)
            | inr later ↦ having-Holds now letters o gs later
          ]
    ]

Holds-having :
    (now : Time) (letters : List Letter) (g : Group) (gs : List Group)
    → Holds g gs
    → dead_letter_threshold_per_hour < count_of now g letters
    → Holds (g, count_of now g letters) (having now letters gs)
unfolding having
Holds-having now letters g [] h k = absurd h
Holds-having now letters g (g' ∷ gs) (inl same) k =
    subst
      (λ g.
        10 < count_of now g letters
        → Holds (g, count_of now g letters) (having now letters (g' ∷ gs)))
      same
      (λ over.
        let t : ltb 10 (count_of now g' letters) ≡ true = ground (arith, over) in rw t (inl refl))
      k
Holds-having now letters g (g' ∷ gs) (inr later) k =
    let rest = Holds-having now letters g gs later k in
    elim (Bool-cases (ltb 10 (count_of now g' letters))) [
      | inl t ↦ rw t (inr rest)
      | inr f ↦ rw f rest
    ]

-- The order keeps the members.
insert-Holds :
    (o p : Offender) (offenders : List Offender)
    → Holds o (insert_by_count p offenders) ↔ ((p ≡ o) ⊎ Holds o offenders)
unfolding insert_by_count
insert-Holds o p [] = (λ h. h, λ h. h)
insert-Holds o p (q ∷ offenders) =
    let rest = insert-Holds o p offenders in
    elim (Bool-cases (ltb p.1 q.1)) [
      | inr f ↦ rw f (λ h. h, λ h. h)
      | inl t ↦ rw t (
        λ h. elim h [
          | inl e ↦ inr (inl e)
          | inr m ↦ elim (rest.0 m) [ inl e ↦ inl e | inr m' ↦ inr (inr m') ]
        ],
        λ h. elim h [
          | inl e ↦ inr (rest.1 (inl e))
          | inr m ↦ elim m [ inl e ↦ inl e | inr m' ↦ inr (rest.1 (inr m')) ]
        ],
      )
    ]

order-Holds :
    (o : Offender) (offenders : List Offender)
    → Holds o (order_by_count offenders) ↔ Holds o offenders
unfolding order_by_count
order-Holds o [] = (λ h. h, λ h. h)
order-Holds o (p ∷ offenders) =
    let here = insert-Holds o p (order_by_count offenders) in
    let rest = order-Holds o offenders in
    (
      λ h. elim (here.0 h) [ inl e ↦ inl e | inr m ↦ inr (rest.0 m) ],
      λ h. elim h [ inl e ↦ here.1 (inl e) | inr m ↦ here.1 (inr (rest.1 m)) ],
    )

-- Exactly the pairs of source and error type with more than ten rows in the last hour are reported,
-- each with the number of these rows.
pub offenders_exact :
    (now : Time) (letters : List Letter) (g : Group) (n : ℕ)
    → Holds (g, n) (offenders_of now letters)
      ↔ ((n ≡ count_of now g letters) × (dead_letter_threshold_per_hour < n))
unfolding offenders_of
offenders_exact now letters g n =
    let ordered = order-Holds (g, n) (having now letters (groups now letters)) in
    (
      λ h. having-Holds now letters (g, n) (groups now letters) (ordered.0 h),
      λ h.
          let over : 10 < count_of now g letters = omega (arith, h.0, h.1) in
          let grouped =
            (contains_iff g (groups now letters)).0
              (groups-contains now g letters (omega (arith, over))) in
          ordered.1 (
            subst (λ n. Holds (g, n) (having now letters (groups now letters))) (sym h.0)
              (Holds-having now letters g (groups now letters) grouped over)),
    )

module _ (answers : ℕ → Result ℕ) (status : ℕ → Checked) (str_int : ℕ → Text) (t : TelegramSettings)
    (now : Time) where
  about-posts :
      (o : Offender) (offenders : List Offender) (p : Process (wire answers status))
      → Holds o offenders
      → ((alert_about (wire answers status) str_int (some t) now offenders p).0 ≡ ok tt)
        × ((alert_about (wire answers status) str_int (some t) now offenders p).1.net.posts
            ≡ p.net.posts ++ (post_of answers status t warn (alert_body str_int offenders) ∷ []))
  unfolding alert_about send_telegram_alert assert_event_registered event_names
  about-posts o [] p h = absurd h
  about-posts o (q ∷ offenders) p h = (
    refl,
    alert-posts answers status t warn (alert_body str_int (q ∷ offenders)) p.telegram_client p.net,
  )

  -- If a source and an error type have more than ten rows in the last hour, the job returns, whatever
  -- the post gives, and has posted one warning with all that exceed the threshold, cut off after 4000
  -- characters, to the configured chat.
  pub spike_alerts :
      (letters : List Letter) (g : Group) (p : Process (wire answers status))
      → dead_letter_threshold_per_hour < count_of now g letters
      → ((dead_letter_alerter_job (wire answers status) str_int (some t) now (ok letters) p).0
          ≡ ok tt)
        × ((dead_letter_alerter_job
              (wire answers status)
              str_int
              (some t)
              now
              (ok letters)
              p).1.net.posts
            ≡ p.net.posts
              ++ (post_of answers status t warn (alert_body str_int (offenders_of now letters))
                  ∷ []))
  unfolding dead_letter_alerter_job
  spike_alerts letters g p h =
      about-posts (g, count_of now g letters) (offenders_of now letters) p
        ((offenders_exact now letters g (count_of now g letters)).1 (refl, h))
