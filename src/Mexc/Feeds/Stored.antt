-- ===== src/Mexc/Feeds/Stored.antt =====
-- Pieces of a feed's loop: they lose nothing that is in the table and, if they return, they have
-- stored their records.
use shortfire.Prelude.{
  ℕ, ◌+◌, String, Option, some, ◌≡◌, ◌⊎◌, refl, inl, inr, Result, ok, raised, arith,
}
use shortfire.Storage.{Database}
use shortfire.Storage.Laws.{IsUp}
use shortfire.DeadLetter.{letter_key, Payload}
use shortfire.Effects.{World, M, Ambient, bind_result}
use mathlib.Core.Path.{subst⁻¹}
use shortfire.Mexc.Feeds.{Feed, attempt}
use shortfire.Mexc.Feeds.Attempt.{attempt-keeps, attempt-stores, attempt-calls}

module _ {Row Key : Type 0} {key : Row → Key} (db : Database key) (dlq : Database letter_key)
    (table : String) where
  -- A piece that keeps what was in the table and, if it returns, has made so many requests and has the
  -- records of `Made` in the table, or earlier ones of the same key.
  pub record Stored (Made : Row → Type 0) (asked : ℕ) (w : World db dlq)
      (out : Result (Unit {0}) × World db dlq) : Type 0 where
    pub requests : out.0 ≡ ok tt → out.1.calls ≡ w.calls + asked
    pub keeps :
        (k : Key) (x : Row) → db.find w.conn table k ≡ some x → db.find out.1.conn table k ≡ some x
    pub stores :
        out.0 ≡ ok tt → (r : Row) → Made r → (x : Row) × (db.find out.1.conn table (key r) ≡ some x)

  pub Stored-none : (w : World db dlq) → Stored (λ r. ⊥) 0 w (ok tt, w)
  Stored-none w = record {
    requests = λ returned. omega arith;
    keeps = λ k x there. there;
    stores = λ returned r made. absurd made;
  }

  pub Stored-then :
      (First Then : Row → Type 0) (a b : ℕ) (w : World db dlq)
      (out : Result (Unit {0}) × World db dlq) (f : Unit {0} → M db dlq (Unit {0}))
      → Stored First a w out
      → (out.1.calls ≡ w.calls + a → Stored Then b out.1 (f tt out.1))
      → Stored (λ r. First r ⊎ Then r) (a + b) w (bind_result out f)
  Stored-then First Then a b w (raised e, v) f s next = record {
    requests = λ returned. cc;
    keeps = s.keeps;
    stores = λ returned. cc;
  }
  Stored-then First Then a b w (ok u, v) f s next =
      let t = next (s.requests refl) in
      record {
        requests = λ returned. omega (arith, t.requests returned, s.requests refl);
        keeps = λ k x there. t.keeps k x (s.keeps k x there);
        stores = λ returned r made. elim made [
          | inl first ↦ let (x, there) = s.stores refl r first in (x, t.keeps (key r) x there)
          | inr then ↦ t.stores returned r then
        ];
      }

-- The shared step stores its record, if it was built.
module _ {Row Key : Type 0} {key : Row → Key} (db : Database key) (dlq : Database letter_key)
    (amb : Ambient) (feed : Feed) (symbol_of : Row → String) (symbol : Option String)
    (payload : Payload) (up : IsUp db) where
  pub attempt-Stored :
      (r : Result Row) (w : World db dlq)
      → Stored db dlq feed.table
          (λ x. r ≡ ok x)
          0
          w
          (attempt db dlq amb feed symbol_of symbol payload r w)
  attempt-Stored r w = record {
    requests =
        λ returned. omega (arith, attempt-calls db dlq amb feed symbol_of symbol payload r w);
    keeps = attempt-keeps db dlq amb feed symbol_of symbol payload r w;
    stores = λ returned x e.
        subst⁻¹
          (λ y.
            (z : Row) × (db.find (attempt db dlq amb feed symbol_of symbol payload y w).1.conn
                feed.table (key x)
              ≡ some z))
          e (attempt-stores db dlq amb feed symbol_of symbol payload up x w);
  }
