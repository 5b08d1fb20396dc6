-- ===== src/DeadLetter/Laws.antt =====
-- What becomes of a failure that is written.
use shortfire.Prelude.{◌≡◌, refl, raised, database_error}
use shortfire.Storage.{Database}
use shortfire.DeadLetter.{Letter, letter_key, write_letter}

-- The statement names the column `id` alone, of which the table has no unique index.
pub write_letter-raises :
    (dlq : Database letter_key) (l : Letter) (s : dlq.Conn)
    → write_letter dlq l s ≡ (raised database_error, s)
unfolding write_letter
write_letter-raises dlq l s = refl
