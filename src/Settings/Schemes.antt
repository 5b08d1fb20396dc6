-- ===== src/Settings/Schemes.antt =====
-- The scheme that a URL has after rewriting.
use shortfire.Prelude.{◌≡◌, refl, inl, inr, [], ◌∷◌, ◌++◌, ok, Bool-cases}
use mathlib.Core.Path.{subst}
use shortfire.Prelude.Texts.{Text, codes}
use shortfire.Settings.Engine.{rewrite_url, starts_with, after_text, asyncpg_scheme}

-- Both old schemes become that of asyncpg, with the rest as it was.
pub rewrite_keeps_rest :
    (rest : Text)
    → (rewrite_url (codes "postgres://" ++ rest) ≡ ok (asyncpg_scheme ++ rest))
      × (rewrite_url (codes "postgresql://" ++ rest) ≡ ok (asyncpg_scheme ++ rest))
unfolding rewrite_url starts_with after_text
rewrite_keeps_rest rest = (refl, refl)

rewritten : (rest : Text) → rewrite_url (asyncpg_scheme ++ rest) ≡ ok (asyncpg_scheme ++ rest)
unfolding rewrite_url starts_with
rewritten rest = refl

-- A URL that was rewritten is not rewritten again.
pub rewrite_once : (u v : Text) → rewrite_url u ≡ ok v → rewrite_url v ≡ ok v
unfolding rewrite_url
rewrite_once [] v h = cc
rewrite_once (c ∷ t) v h =
    let after = after_text (codes "://") (c ∷ t) in
    let settled : rewrite_url (c ∷ t) ≡ ok (asyncpg_scheme ++ after) → rewrite_url v ≡ ok v = λ e.
      let same : asyncpg_scheme ++ after ≡ v = cc (e, h) in
      subst (λ v. rewrite_url v ≡ ok v) same (rewritten after) in
    elim (Bool-cases (starts_with (codes "postgres://") (c ∷ t))) [
      | inl first ↦ settled (rw first refl)
      | inr not_first ↦ elim (Bool-cases (starts_with (codes "postgresql://") (c ∷ t))) [
        | inl second ↦ settled (rw not_first (rw second refl))
        | inr not_second ↦
            let value : rewrite_url (c ∷ t) ≡ ok (c ∷ t) = rw not_first (rw not_second refl) in
            let same : c ∷ t ≡ v = cc (value, h) in subst (λ v. rewrite_url v ≡ ok v) same value
      ]
    ]
