-- ===== src/Mexc/Feeds/OrderBook/Tests.antt =====
-- A book that is due, one that comes too early, and one without bids, into a table in memory.
use shortfire.Prelude.{ℕ, String, none, some, List, [], ◌∷◌, ◌≡◌, refl, Result, raised, key_error}
use shortfire.Prelude.Keys.{eq_nat, eq_string, eq_pair}
use shortfire.Storage.{Database}
use shortfire.Storage.Memory.{empty, memory}
use shortfire.DeadLetter.{letter_key}
use shortfire.Effects.{World, Ambient}
use shortfire.Mexc.Feeds.OrderBook.{RawBook, l2_key, Event, book, book_row, l2_sample_loop}

abbrev db : Database l2_key
db = memory l2_key

abbrev dlq : Database letter_key
dlq = memory letter_key

abbrev amb : Ambient
amb = record {
  stamps = λ n. record { id = n; now = 0 };
  wall = 7;
  type_name = λ e. "KeyError";
  message = λ e. "bids";
  decode = λ b. "";
  str_int = λ n. "";
}

abbrev world : World db dlq
world = record {
  conn = empty;
  dead = empty;
  drawn = 0;
  calls = 0;
  freshness = [];
  rows_total = [];
  reconnects_total = [];
}

abbrev dumps : List (String × String) → String
dumps levels = "[]"

abbrev whole : RawBook
whole = record { timestamp = some 5; bids = some (some ("1", "2") ∷ []); asks = some [] }

abbrev no_bids : RawBook
no_bids = record { timestamp = none; bids = none; asks = some [] }

abbrev events : List Event
events = book whole 10 1000 ∷ book whole 12 3000 ∷ book whole 15 6000 ∷ []

abbrev symbol : String
symbol = "A/USDT:USDT"

abbrev run : Result ℕ × World db dlq
run = l2_sample_loop dumps symbol db dlq amb 5 0 events world

no_row : book_row dumps symbol no_bids 9 ≡ raised key_error
unfolding book_row
no_row = refl
