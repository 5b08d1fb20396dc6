-- ===== src/Mexc/Feeds/Funding/Publications.antt =====
-- What becomes of the funding rates that the exchange publishes.
use shortfire.Prelude.{
  ℕ, zero, suc, ◌+◌, String, some, List, [], ◌∷◌, length, ◌≡◌, ◌⊎◌, refl, sym, ap, ◌∙◌, inl, inr,
  Result, ok, arith, Result-cases,
}
use shortfire.Prelude.Times.{Time}
use shortfire.Storage.{Database}
use shortfire.Storage.Laws.{IsUp}
use shortfire.DeadLetter.{letter_key, prefix, text}
use shortfire.Effects.{World, Ambient, bind_result, request}
use shortfire.Mexc.Backfill.Fundings.{FundingRow, funding_key}
use shortfire.Mexc.Feeds.Stored.{Stored, Stored-none, Stored-then, attempt-Stored}
use shortfire.Mexc.Feeds.Funding.{
  RawFunding, funding_feed, funding_record, received, funding_pass, funding_live_loop,
}
use mathlib.Core.Path.{subst}

module _ (answers : ℕ → Result RawFunding) where
  -- The record is of the answer to a request of a pass that starts with that number, or of so many
  -- passes.
  abbrev pub PublishedFor : ℕ → String → FundingRow → Type 0
  PublishedFor n sym r = (f : RawFunding) × ((answers n ≡ ok f) × (funding_record sym f ≡ ok r))

  abbrev pub InPass : ℕ → List String → FundingRow → Type 0
  InPass n [] r = ⊥
  InPass n (sym ∷ symbols) r = PublishedFor n sym r ⊎ InPass (suc n) symbols r

  abbrev pub InPasses : ℕ → ℕ → List String → FundingRow → Type 0
  InPasses zero n symbols r = ⊥
  InPasses (suc rounds) n symbols r =
      InPass n symbols r ⊎ InPasses rounds (n + length symbols) symbols r

  module _ (db : Database funding_key) (dlq : Database letter_key) (amb : Ambient)
      (up : IsUp db) where
    received-Stored :
        (sym : String) (w : World db dlq)
        → Stored db dlq funding_feed.table
            (PublishedFor w.calls sym)
            1
            w
            (received db dlq amb answers sym (request answers w))
    unfolding request
    received-Stored sym w = elim (Result-cases (answers w.calls)) [
      | inr (e, q) ↦ rw q (record {
        requests = λ returned. omega arith;
        keeps = λ k x there. there;
        stores = λ returned r (f, (a, b)). cc;
      })
      | inl (f, q) ↦
          let asked : World db dlq = record w { calls = suc w.calls } in
          let s =
            attempt-Stored db dlq amb funding_feed (λ r. sym) (some sym)
              (text (prefix 8000 f.shown)) up (funding_record sym f) asked in
          rw q (record {
            requests = λ returned. omega (arith, s.requests returned);
            keeps = s.keeps;
            stores = λ returned r (g, (a, b)).
                s.stores returned r (let same : f ≡ g = cc in ap (funding_record sym) same ∙ b);
          })
    ]

    pass-Stored :
        (symbols : List String) (n : ℕ) (w : World db dlq)
        → w.calls ≡ n
        → Stored db dlq funding_feed.table
            (InPass n symbols)
            (length symbols)
            w
            (funding_pass db dlq amb answers symbols w)
    unfolding funding_pass
    pass-Stored [] n w e = Stored-none db dlq funding_feed.table w
    pass-Stored (sym ∷ symbols) n w e =
        let out = received db dlq amb answers sym (request answers w) in
        let first =
          subst (λ m. Stored db dlq funding_feed.table (PublishedFor m sym) 1 w out) e
            (received-Stored sym w) in
        subst
          (λ m.
            Stored db dlq funding_feed.table (InPass n (sym ∷ symbols)) m w
              (bind_result out (λ u. funding_pass db dlq amb answers symbols)))
          (omega arith)
          (Stored-then db dlq funding_feed.table (PublishedFor n sym) (InPass (suc n) symbols) 1
            (length symbols) w out (λ u. funding_pass db dlq amb answers symbols) first
            (λ req. pass-Stored symbols (suc n) out.1 (omega (arith, req, e))))

    -- The requests of so many passes.
    abbrev asked_in : ℕ → ℕ → ℕ
    asked_in zero m = 0
    asked_in (suc rounds) m = m + asked_in rounds m

    loop-Stored :
        (rounds : ℕ) (symbols : List String) (n : ℕ) (w : World db dlq)
        → w.calls ≡ n
        → Stored db dlq funding_feed.table
            (InPasses rounds n symbols)
            (asked_in rounds (length symbols))
            w
            (funding_live_loop db dlq amb answers rounds symbols w)
    unfolding funding_live_loop
    loop-Stored zero symbols n w e = Stored-none db dlq funding_feed.table w
    loop-Stored (suc rounds) symbols n w e =
        let out = funding_pass db dlq amb answers symbols w in
        Stored-then db dlq funding_feed.table (InPass n symbols)
          (InPasses rounds (n + length symbols) symbols) (length symbols)
          (asked_in rounds (length symbols)) w out
          (λ u. funding_live_loop db dlq amb answers rounds symbols) (pass-Stored symbols n w e)
          (λ req. loop-Stored rounds symbols (n + length symbols) out.1 (omega (arith, req, e)))

    -- With the server of the tables up: if so many rounds of the loop return, every rate of an answer
    -- that can be read is then in the table, or an earlier one of the same symbol and settlement, and
    -- a row that was there before is as it was, also where a later answer has another rate for the
    -- settlement.
    pub publications_stored :
        (rounds : ℕ) (symbols : List String) (w : World db dlq)
        → let out = funding_live_loop db dlq amb answers rounds symbols w in
          out.0 ≡ ok tt
          → ((r : FundingRow)
              → InPasses rounds w.calls symbols r
              → (x : FundingRow) × (db.find out.1.conn "raw_mexc_funding" (funding_key r) ≡ some x))
            × ((k : String × Time) (x : FundingRow)
                → db.find w.conn "raw_mexc_funding" k ≡ some x
                → db.find out.1.conn "raw_mexc_funding" k ≡ some x)
    publications_stored rounds symbols w returned =
        let s = loop-Stored rounds symbols w.calls w refl in (s.stores returned, s.keeps)
