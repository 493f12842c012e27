-- ===== src/Prelude/Sql.antt =====
-- The results of the statements that src/infra/db runs by sqlx. `unavailable` stands for every error
-- of the connection.
pub data SqlError : Type 0 where
  row_not_found unavailable constraint_violation : SqlError

pub data SqlResult {ℓ} (A : Type ℓ) : Type ℓ where
  ok : A → SqlResult A
  err : SqlError → SqlResult A
