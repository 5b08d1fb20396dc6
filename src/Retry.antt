-- ===== src/Retry.antt =====
-- ingest/retry.py: which exceptions a call is repeated for, and how often.
-- The library tenacity is a parameter: `Tenacity` has what it documents of `retry` with
-- `retry_if_exception_type`, `stop_after_attempt` and `reraise=True`. The waits between the attempts
-- are not modelled.
pub mod Laws
pub mod Structural
use shortfire.Prelude.{
  ℕ, suc, ◌≡◌, Bool, true, false, Result, Error, ok, raised, http_status_error, transport_error,
  timeout_error,
}

-- The arguments of `retry` that decide whether there is a further attempt.
pub record Policy : Type 0 where
  pub retries : Error → Bool
  pub attempts : ℕ

-- (httpx.HTTPStatusError, httpx.TransportError)
abbrev pub is_httpx_error : Error → Bool
is_httpx_error http_status_error = true
is_httpx_error transport_error = true
is_httpx_error _ = false

abbrev pub is_httpx_or_timeout : Error → Bool
is_httpx_or_timeout timeout_error = true
is_httpx_or_timeout e = is_httpx_error e

abbrev pub coinglass_retry : Policy
coinglass_retry = record { retries = is_httpx_error; attempts = 5 }

abbrev pub mexc_retry : Policy
mexc_retry = record { retries = is_httpx_or_timeout; attempts = 6 }

abbrev pub coingecko_retry : Policy
coingecko_retry = record { retries = is_httpx_error; attempts = 4 }

-- `call p m` is the function m under the decorator, against a state S. The policy `p` with one
-- attempt less stands for the attempts that are left.
pub record Tenacity : Type 1 where
  pub call : {S A : Type 0} → Policy → (S → Result A × S) → S → Result A × S
  pub call-ok :
      {S A : Type 0} (p : Policy) (m : S → Result A × S) (s s' : S) (a : A)
      → m s ≡ (ok a, s')
      → call p m s ≡ (ok a, s')
  pub call-other :
      {S A : Type 0} (p : Policy) (m : S → Result A × S) (s s' : S) (e : Error)
      → m s ≡ (raised e, s')
      → p.retries e ≡ false
      → call p m s ≡ (raised e, s')
  pub call-last :
      {S A : Type 0} (p : Policy) (m : S → Result A × S) (s s' : S) (e : Error)
      → m s ≡ (raised e, s')
      → p.attempts ≡ 1
      → call p m s ≡ (raised e, s')
  pub call-again :
      {S A : Type 0} (p : Policy) (n : ℕ) (m : S → Result A × S) (s s' : S) (e : Error)
      → m s ≡ (raised e, s')
      → p.retries e ≡ true
      → p.attempts ≡ suc (suc n)
      → call p m s ≡ call (record p { attempts = suc n }) m s'
