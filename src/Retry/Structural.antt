-- ===== src/Retry/Structural.antt =====
-- A loop over the attempts: an instance of the interface, on which the tests run.
use shortfire.Prelude.{
  ℕ, zero, suc, ◌≡◌, Bool, true, false, Result, Error, ok, raised, if◌then◌else◌,
}
use shortfire.Retry.{Tenacity}

-- The outcome of an attempt with `n` further ones left.
abbrev pub settle :
    {S A : Type 0} → (Error → Bool) → (S → Result A × S) → Result A × S → Result A × S
settle retries again (ok a, s) = (ok a, s)
settle retries again (raised e, s) = if retries e then again s else (raised e, s)

unfoldable pub attempt : {S A : Type 0} → (Error → Bool) → ℕ → (S → Result A × S) → S → Result A × S
attempt retries zero m s = m s
attempt retries (suc zero) m s = m s
attempt retries (suc (suc n)) m s = settle retries (attempt retries (suc n) m) (m s)

pub loop_ok :
    {S A : Type 0} (retries : Error → Bool) (n : ℕ) (m : S → Result A × S) (s s' : S) (a : A)
    → m s ≡ (ok a, s')
    → attempt retries n m s ≡ (ok a, s')
unfolding attempt
loop_ok retries zero m s s' a h = h
loop_ok retries (suc zero) m s s' a h = h
loop_ok retries (suc (suc n)) m s s' a h = rw h

pub loop_other :
    {S A : Type 0} (retries : Error → Bool) (n : ℕ) (m : S → Result A × S) (s s' : S) (e : Error)
    → m s ≡ (raised e, s')
    → retries e ≡ false
    → attempt retries n m s ≡ (raised e, s')
unfolding attempt
loop_other retries zero m s s' e h f = h
loop_other retries (suc zero) m s s' e h f = h
loop_other retries (suc (suc n)) m s s' e h f = rw (h, f)

pub loop_last :
    {S A : Type 0} (retries : Error → Bool) (n : ℕ) (m : S → Result A × S) (s s' : S) (e : Error)
    → m s ≡ (raised e, s')
    → n ≡ 1
    → attempt retries n m s ≡ (raised e, s')
unfolding attempt
loop_last retries n m s s' e h one = rw one h

pub loop_again :
    {S A : Type 0} (retries : Error → Bool) (n k : ℕ) (m : S → Result A × S) (s s' : S) (e : Error)
    → m s ≡ (raised e, s')
    → retries e ≡ true
    → n ≡ suc (suc k)
    → attempt retries n m s ≡ attempt retries (suc k) m s'
unfolding attempt
loop_again retries n k m s s' e h t more = rw (more, h, t)

abbrev pub structural : Tenacity
structural = record {
  call = λ p m s. attempt p.retries p.attempts m s;
  call-ok = λ p m s s' a h. loop_ok p.retries p.attempts m s s' a h;
  call-other = λ p m s s' e h f. loop_other p.retries p.attempts m s s' e h f;
  call-last = λ p m s s' e h one. loop_last p.retries p.attempts m s s' e h one;
  call-again = λ p n m s s' e h t more. loop_again p.retries p.attempts n m s s' e h t more;
}
