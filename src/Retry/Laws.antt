-- ===== src/Retry/Laws.antt =====
-- What a call under a policy comes to.
use shortfire.Prelude.{ℕ, zero, suc, ◌≡◌, refl, ◌∙◌, true, Result, Error, raised}
use shortfire.Retry.{Policy, Tenacity}

module _ {S A : Type 0} (tenacity : Tenacity) (m : S → Result A × S) where
  -- The states after 1, 2, … failed attempts: `Fails e n s s'` holds if n attempts from s on raise e.
  pub data Fails (e : Error) : ℕ → S → S → Type 0 where
    never : {s : S} → Fails e zero s s
    again : {n : ℕ} {s s₁ s' : S} → m s ≡ (raised e, s₁) → Fails e n s₁ s' → Fails e (suc n) s s'

  -- If every attempt raises an exception of the policy, the last attempt's goes on to the caller.
  pub call-exhausted :
      (p : Policy) (n : ℕ) (e : Error) (s s' : S)
      → p.retries e ≡ true
      → p.attempts ≡ suc n
      → Fails e (suc n) s s'
      → tenacity.call p m s ≡ (raised e, s')
  call-exhausted p zero e s s' t more (Fails.again h Fails.never) =
      tenacity.call-last p m s s' e h more
  call-exhausted p (suc n) e s s' t more (Fails.again {s₁ = s₁} h rest) =
      tenacity.call-again p n m s s₁ e h t more
      ∙ call-exhausted (record p { attempts = suc n }) n e s₁ s' t refl rest
