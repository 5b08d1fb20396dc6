-- ===== src/Settings/Engine.antt =====
-- src/shortfire/db/engine.py: the scheme of the URL. create_async_engine is SQLAlchemy's.
use shortfire.Prelude.{
  Bool, true, false, [], ◌∷◌, ◌++◌, drop, length, Result, ok, raised, value_error, nat_eq, ◌&&◌,
  if◌then◌else◌,
}
use shortfire.Prelude.Texts.{Text, codes}

-- t.startswith(s)
unfoldable pub starts_with : Text → Text → Bool
starts_with [] t = true
starts_with (c ∷ s) [] = false
starts_with (c ∷ s) (d ∷ t) = nat_eq c d && starts_with s t

-- t.split(s, 1)[1]; it is called only where s occurs
unfoldable pub after_text : Text → Text → Text
after_text s [] = []
after_text s (c ∷ t) =
    let rest = after_text s t in if starts_with s (c ∷ t) then drop (length s) (c ∷ t) else rest

abbrev pub asyncpg_scheme : Text
asyncpg_scheme = codes "postgresql+asyncpg://"

unfoldable pub rewrite_url : Text → Result Text
rewrite_url [] = raised value_error
rewrite_url (c ∷ t) =
    let url = c ∷ t in
    if starts_with (codes "postgres://") url
    then ok (asyncpg_scheme ++ after_text (codes "://") url)
    else if starts_with (codes "postgresql://") url
    then ok (asyncpg_scheme ++ after_text (codes "://") url)
    else ok url
