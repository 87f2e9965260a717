-- ===== src/Entry/SqlStore/Open.antt =====
-- Opening the stores of internal/entry/sqlite.go and postgres.go, and the operations of
-- postgres.go, whose statements are those of sqlite.go but for their placeholders.
use svidmint.Base.{String, Bool, Option, none, some, Result, ok, ◌>>=◌, ◌>>◌, guard, or_err}
use svidmint.Entry.Types.{RegistrationEntry}
use svidmint.Entry.SqlStore.{
  Sql, SqlError, open_failed, ping_failed, migrate_failed, create, get, update, delete,
}

-- the statements that prepare a database
pub data Ddl : Type 0 where
  create_table_and_index create_table create_index : Ddl

-- The package database/sql with a driver: `sql.Open` as `open_db`, `Ping`, and `Exec` of a
-- statement.
pub record Driver (D : Type 0) : Type 0 where
  pub open_db : String → Option D
  pub ping : D → Bool
  pub exec : Ddl → D → Option D

module _ {D : Type 0} (driver : Driver D) where
  -- `migrate`
  unfoldable pub migrate : D → Result SqlError D
  migrate db = or_err (driver.exec create_table_and_index db) migrate_failed

  -- `NewSQLiteStore`
  unfoldable pub new_sqlite_store : String → Result SqlError D
  unfolding migrate
  new_sqlite_store path = do
    db ← or_err (driver.open_db path) open_failed
    guard (driver.ping db) ping_failed
    migrate db

  abbrev pub or_same : D → Option D → D
  or_same db none = db
  or_same db (some indexed) = indexed

  -- `NewPostgresStore`: it is no error when the index cannot be made.
  unfoldable pub new_postgres_store : String → Result SqlError D
  new_postgres_store dsn = do
    db ← or_err (driver.open_db dsn) open_failed
    guard (driver.ping db) ping_failed
    made ← or_err (driver.exec create_table db) migrate_failed
    ok (or_same made (driver.exec create_index made))

module _ {D : Type 0} (sql : Sql D) where
  unfoldable pub postgres_create : D → RegistrationEntry → Result SqlError (Unit {0}) × D
  unfolding create
  postgres_create d e = create sql d e

  unfoldable pub postgres_get : D → String → Result SqlError RegistrationEntry
  unfolding get
  postgres_get d id = get sql d id

  unfoldable pub postgres_update : D → RegistrationEntry → Result SqlError (Unit {0}) × D
  unfolding update
  postgres_update d e = update sql d e

  unfoldable pub postgres_delete : D → String → Result SqlError (Unit {0}) × D
  unfolding delete
  postgres_delete d id = delete sql d id
