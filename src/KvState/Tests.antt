-- ===== src/KvState/Tests.antt =====
-- Texts of statements, and the parts of a job's name.
use shortfire.Prelude.{String, true, false, ◌≡◌, refl, some}
use shortfire.KvState.{source_of, after_dot}
use shortfire.KvState.Binds.{class_of, scan, has_unbound}

abbrev job : String
job = "coinglass.oi"

dataset : after_dot job ≡ some "oi"
unfolding after_dot
dataset = refl

source : source_of job ≡ "coinglass_aggregate"
unfolding source_of
source = refl

cast_unbound : has_unbound "VALUES (:id, :st::jsonb)" ≡ true
unfolding class_of scan
cast_unbound = refl

-- A cast of a column, and one of a marker in the words of the standard.
casts_bound : has_unbound "SELECT kv_state::text, CAST(:st AS jsonb) WHERE job_id = :j" ≡ false
unfolding class_of scan
casts_bound = refl
