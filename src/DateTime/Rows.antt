-- ===== src/DateTime/Rows.antt =====
-- The other types of types/src/lib.rs: what a write reports, the row of `cluster_config`, and the
-- rows of the tables of which nothing is read; and `Serialize` and `Deref` of `DateTime`.
-- An identifier is a text, a number below 2 ^ 32 a number.
use reql.Base.{ℕ, Text, Option, none, List}
use reql.Types.Value.{Value}

pub record WriteStatus : Type 0 where
  pub inserted : ℕ
  pub replaced : ℕ
  pub unchanged : ℕ
  pub skipped : ℕ
  pub deleted : ℕ
  pub errors : ℕ
  pub first_error : Option Text
  pub generated_keys : Option (List Text)
  pub warnings : Option (List Text)
  pub changes : Option Value

pub record ClusterConfig : Type 0 where
  pub id : Text
  pub heartbeat_timeout_secs : ℕ

pub data CurrentIssue : Type 0 where
  current_issue : CurrentIssue

pub data DbConfig : Type 0 where
  db_config : DbConfig

pub data Job : Type 0 where
  job : Job

pub data Log : Type 0 where
  log : Log

pub data Permission : Type 0 where
  permission_row : Permission

pub data ServerConfig : Type 0 where
  server_config : ServerConfig

pub data Stat : Type 0 where
  stat : Stat

pub data TableConfig : Type 0 where
  table_config : TableConfig

pub data TableStatus : Type 0 where
  table_status : TableStatus

pub data User : Type 0 where
  user_row : User

-- `unimplemented!()`, whatever the time.
abbrev pub serialize : {D S : Type 0} → D → Option S
serialize date = none

-- The time of chrono that a `DateTime` holds.
abbrev pub deref : {D : Type 0} → D → D
deref date = date
