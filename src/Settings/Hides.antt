-- ===== src/Settings/Hides.antt =====
-- What the summary for the log shows of the credentials.
use shortfire.Prelude.{ℕ, ◌≡◌, refl, ap, ◌∙◌, some, [], ◌∷◌, ◌++◌, arith}
use shortfire.Prelude.Texts.{Text, count}
use shortfire.Settings.Base.{after_first, up_to_first, db_host, base_summary, host_or_unknown}
use shortfire.Settings.DataPlatform.{DataPlatformSettings, is_configured, safe_summary}

after_first-append : (c : ℕ) (s t : Text) → count c s ≡ 0 → after_first c (s ++ (c ∷ t)) ≡ some t
unfolding after_first
after_first-append c [] t h = ground arith
after_first-append c (d ∷ s) t h = let rest = after_first-append c s t in ground (arith, rest)

up_to_first-append :
    (c : ℕ) (s t : Text) → count c s ≡ 0 → up_to_first c (s ++ t) ≡ s ++ up_to_first c t
unfolding up_to_first
up_to_first-append c [] t h = refl
up_to_first-append c (d ∷ s) t h = let rest = up_to_first-append c s t in ground (arith, rest)

-- Two settings with the same secrets set, of whichever texts, the same service, port and common
-- settings, and with URLs that differ only before their first `@`, have the same summary.
pub summary_hides :
    (s s' : DataPlatformSettings) (before before' rest : Text)
    → s.base.db.url ≡ before ++ (b'@' ∷ rest)
    → s'.base.db.url ≡ before' ++ (b'@' ∷ rest)
    → count b'@' before ≡ 0
    → count b'@' before' ≡ 0
    → s.base.service_name ≡ s'.base.service_name
    → s.base.port ≡ s'.base.port
    → s.base.common ≡ s'.base.common
    → is_configured s.mexc ≡ is_configured s'.mexc
    → is_configured s.coinglass ≡ is_configured s'.coinglass
    → is_configured s.coingecko ≡ is_configured s'.coingecko
    → is_configured s.telegram ≡ is_configured s'.telegram
    → is_configured s.r2_backup ≡ is_configured s'.r2_backup
    → safe_summary s ≡ safe_summary s'
unfolding safe_summary base_summary db_host
summary_hides s s' before before' rest u u' h h' name port common m g k t r =
    let host : after_first b'@' s.base.db.url ≡ some rest =
      ap (after_first b'@') u ∙ after_first-append b'@' before rest h in
    let host' : after_first b'@' s'.base.db.url ≡ some rest =
      ap (after_first b'@') u' ∙ after_first-append b'@' before' rest h' in
    cc (host, host', name, port, common, m, g, k, t, r)

-- Of a URL with two `@`, as of a password that has one, the host that the summary shows starts with
-- what stands between them.
pub password_tail_shown :
    (before between rest : Text)
    → count b'@' before ≡ 0
    → count b'/' between ≡ 0
    → db_host (before ++ (b'@' ∷ (between ++ (b'@' ∷ rest))))
      ≡ between ++ (b'@' ∷ up_to_first b'/' rest)
unfolding db_host up_to_first
password_tail_shown before between rest h k =
    ap host_or_unknown (after_first-append b'@' before _ h)
    ∙ up_to_first-append b'/' between (b'@' ∷ rest) k
