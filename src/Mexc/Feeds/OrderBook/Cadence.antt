-- ===== src/Mexc/Feeds/OrderBook/Cadence.antt =====
-- How often the sampler of the order book writes.
use shortfire.Prelude.{ℕ, ◌+◌, ◌*◌, ◌≤◌, String, some, List}
use shortfire.Prelude.Times.{Time}
use shortfire.Storage.{Database}
use shortfire.DeadLetter.{letter_key, text}
use shortfire.Effects.{World, Ambient}
use shortfire.Mexc.Feeds.Attempt.{count}
use shortfire.Mexc.Feeds.OrderBook.{l2_key, l2_feed}

module _ (dumps : List (String × String) → String) (symbol : String) (db : Database l2_key)
    (dlq : Database letter_key) (amb : Ambient) (sample_seconds : Time) where
  -- The records of order books that were counted.
  abbrev pub written : World db dlq → ℕ
  written w = count db dlq amb l2_feed (λ r. symbol) (some symbol) (text "") w

  -- So many records fit between the two times.
  abbrev pub Within : Time → Time → World db dlq → World db dlq → Type 0
  Within t t' w w' = (k : ℕ) × ((written w' ≤ written w + k) × (t + k * sample_seconds ≤ t'))
