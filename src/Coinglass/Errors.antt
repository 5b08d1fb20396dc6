-- ===== src/Coinglass/Errors.antt =====
-- What the client does with a server that refuses: the errors that are repeated, and those that end
-- in a dead letter.
use Prim.Native.String.{◌++◌ as append}
use shortfire.Prelude.{
  ℕ, zero, suc, ◌+◌, ◌≤◌, ◌<◌, String, ◌≡◌, refl, ◌⊎◌, true, false, Option, Result, ok, raised, leb,
  arith, http_status_error, database_error,
}
use shortfire.Storage.{Database}
use shortfire.DeadLetter.{letter_key, prefix, text}
use shortfire.Effects.{World, M, Ambient, request}
use shortfire.Effects.Returns.{dead_letter_as-raises}
use shortfire.Retry.{Tenacity, coinglass_retry}
use shortfire.Retry.Laws.{Fails, call-exhausted}
use shortfire.Coinglass.Client.{
  Params, HttpResponse, Outside, is_retry_status, params_symbol, on_response, call, validated,
  fetch_once, fetch,
}
use mathlib.Core.Path.{subst}

-- The statuses after which a request is worth another try.
abbrev pub IsTransient : ℕ → Type 0
IsTransient n = (n ≡ 429) ⊎ (n ≡ 500) ⊎ (n ≡ 502) ⊎ (n ≡ 503) ⊎ (n ≡ 504)

is_retry_status-true : (n : ℕ) → IsTransient n → is_retry_status n ≡ true
is_retry_status-true n h = ground arith

is_retry_status-false : (n : ℕ) → (¬ IsTransient n) → is_retry_status n ≡ false
is_retry_status-false n h = ground arith

module _ {Row Key Json R : Type 0} {key : Row → Key} (db : Database key) (dlq : Database letter_key)
    (amb : Ambient) (out : Outside Json) (tenacity : Tenacity) (endpoint : String)
    (symbol : Option String) (params : Params) (validate : Json → Result R) where
  abbrev once : M db dlq (Option R)
  once = fetch_once db dlq amb out tenacity endpoint symbol params validate

  abbrev asked : ℕ → World db dlq → World db dlq
  asked n w = record w { calls = w.calls + n }

  -- The request number `n` is answered with 429 or one of the 5xx of the list.
  abbrev pub Refused : ℕ → Type 0
  Refused n =
      (r : HttpResponse Json) × ((out.get n endpoint params ≡ ok r) × IsTransient r.status_code)

  once-exhausted :
      (w : World db dlq)
      → Refused w.calls
      → once w ≡ (raised http_status_error, record w { calls = suc w.calls })
  unfolding fetch_once call request on_response
  once-exhausted w (r, (e, t)) = rw (e, is_retry_status-true r.status_code t)

  Failing : ℕ → World db dlq → World db dlq → Type 0
  Failing n w w' = Fails tenacity once http_status_error n w w'

  fails :
      (n : ℕ) (w : World db dlq)
      → ((i : ℕ) → i < n → Refused (w.calls + i))
      → Failing n w (asked n w)
  unfolding Failing
  fails zero w h =
      let same : w.calls ≡ w.calls + 0 = omega arith in
      subst (λ c. Failing zero w (record w { calls = c })) same Fails.never
  fails (suc n) w h =
      let first : Refused w.calls = subst Refused (omega arith) (h 0 (omega arith)) in
      let w₁ : World db dlq = record w { calls = suc w.calls } in
      let rest : Failing n w₁ (asked n w₁) =
        fails n w₁ (λ i lt. subst Refused (omega arith) (h (suc i) (omega arith))) in
      let same : suc w.calls + n ≡ w.calls + suc n = omega arith in
      Fails.again (once-exhausted w first)
        (subst (λ c. Failing n w₁ (record w { calls = c })) same rest)

  -- If the next five requests are answered with 429, 500, 502, 503 or 504, the method makes just these
  -- five and raises HTTPStatusError; nothing is written to any table nor to the dead letters.
  pub fetch-exhausted :
      (w : World db dlq)
      → ((i : ℕ) → i < 5 → Refused (w.calls + i))
      → fetch db dlq amb out tenacity endpoint symbol params validate w
        ≡ (raised http_status_error, record w { calls = w.calls + 5 })
  unfolding fetch Failing
  fetch-exhausted w h =
      call-exhausted tenacity once coinglass_retry 4 http_status_error w (asked 5 w) refl refl
        (fails 5 w h)

  once-rejected :
      (w : World db dlq) (r : HttpResponse Json)
      → out.get w.calls endpoint params ≡ ok r
      → (¬ IsTransient r.status_code)
      → 400 ≤ r.status_code
      → once w ≡ (raised database_error, record w { calls = suc w.calls; drawn = suc w.drawn })
  unfolding fetch_once call request on_response validated
  once-rejected w r e f h =
      let refused : leb 400 r.status_code ≡ true = ground arith in
      let lost =
        dead_letter_as-raises {db = db} {dlq = dlq} amb "coinglass_aggregate" endpoint
          (params_symbol params) (text (prefix 8000 r.text)) "HTTPStatusError"
          (append "HTTP " (amb.str_int r.status_code)) (record w { calls = suc w.calls }) in
      rw (e, is_retry_status-false r.status_code f, refused, lost)

  -- An answer with any other status of 400 or more is not asked for again, and does not give None: the
  -- method makes one request and raises the error of its dead letter; no table changes.
  pub fetch-rejected :
      (w : World db dlq) (r : HttpResponse Json)
      → out.get w.calls endpoint params ≡ ok r
      → (¬ IsTransient r.status_code)
      → 400 ≤ r.status_code
      → fetch db dlq amb out tenacity endpoint symbol params validate w
        ≡ (raised database_error, record w { calls = suc w.calls; drawn = suc w.drawn })
  unfolding fetch
  fetch-rejected w r e f h =
      tenacity.call-other coinglass_retry once w _ database_error (once-rejected w r e f h) refl
