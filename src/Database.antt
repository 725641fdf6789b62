-- ===== src/Database.antt =====
-- The tables of schema.sql that the modelled code reads and writes, with the columns that it reads,
-- and a database connection in a transaction. A query runs over the rows in the order in which the
-- database would return them; the connection itself does not fail. An identifier (`serial`, an
-- `i32`) is a natural number, and a time is a number of seconds.
pub mod ReadOnly
pub mod Consistent
pub mod Steps
use gitarena.Prelude.{if◌then◌else◌, ℕ, Bool, Option, List, Text}
use gitarena.Error.{Result, ok, die_message}
use gitarena.Exec.{Exec, gets, modify, lift, ◌>>=◌}

-- src/user.rs
pub record User : Type 0 where
  pub id : ℕ
  pub username : Text
  pub password : Text
  pub disabled : Bool
  pub admin : Bool

-- src/mail.rs
pub record Email : Type 0 where
  pub owner : ℕ
  pub email : Text
  pub primary : Bool
  pub commit : Bool
  pub notification : Bool
  pub public : Bool
  pub created_at : ℕ
  pub verified_at : Option ℕ

-- src/privileges/repo_visibility.rs
pub data RepoVisibility : Type 0 where
  public internal private : RepoVisibility

-- src/privileges/repo_access.rs
pub data AccessLevel : Type 0 where
  viewer supporter coder manager admin : AccessLevel

-- src/privileges/privilege.rs
pub record Privilege : Type 0 where
  pub id : ℕ
  pub user_id : ℕ
  pub repo_id : ℕ
  pub access_level : AccessLevel

-- src/repository.rs
pub record Repository : Type 0 where
  pub id : ℕ
  pub owner : ℕ
  pub name : Text
  pub description : Text
  pub visibility : RepoVisibility
  pub default_branch : Text
  pub license : Option Text
  pub forked_from : Option ℕ
  pub mirrored_from : Option Text
  pub archived : Bool
  pub disabled : Bool

-- src/session.rs
pub record Session : Type 0 where
  pub user_id : ℕ
  pub hash : Text
  pub ip_address : Text
  pub user_agent : Text
  pub updated_at : ℕ

-- The table `stars`.
pub record Star : Type 0 where
  pub stargazer : ℕ
  pub repo : ℕ

-- The table `user_verifications`.
pub record Verification : Type 0 where
  pub id : ℕ
  pub user_id : ℕ
  pub hash : Text
  pub expires : ℕ

-- src/config.rs
pub data TypeConstraint : Type 0 where
  boolean char int string bytes : TypeConstraint

pub record Setting : Type 0 where
  pub key : Text
  pub value : Option Text
  pub type_constraint : TypeConstraint

-- `next_id` is what the sequences of the `serial` columns give next.
pub record Db : Type 0 where
  pub users : List User
  pub emails : List Email
  pub repositories : List Repository
  pub privileges : List Privilege
  pub sessions : List Session
  pub stars : List Star
  pub verifications : List Verification
  pub settings : List Setting
  pub next_id : ℕ

-- What is committed, and what the open transaction sees.
pub record Connection : Type 0 where
  pub committed : Db
  pub current : Db

-- A handler's computation over its connection. What a failing one leaves uncommitted is dropped
-- with the transaction, so the state after a request is `committed`.
abbrev pub Handler : Type 0 → Type 0
Handler A = Exec Connection A

-- A query that reads.
abbrev pub query : {A : Type 0} → (Db → A) → Handler A
query f = gets (λ c. f c.current)

-- A query that writes.
abbrev pub execute : (Db → Db) → Handler Unit
execute f = modify (λ c. record c { current = f c.current })

-- `db_pool.begin()`
abbrev pub begin : Handler Unit
begin = modify (λ c. record c { current = c.committed })

-- `transaction.commit()`
abbrev pub commit : Handler Unit
commit = modify (λ c. record c { committed = c.current })

-- A request's outcome and the database after it.
abbrev pub serve : {A : Type 0} → Handler A → Db → Result A × Db
serve m db = let (r, c) = m (record { committed = db; current = db }) in (r, c.committed)

-- A query whose result may be an error.
abbrev pub read : {A : Type 0} → (Db → Result A) → Handler A
read f = query f >>= lift

-- `if b { die!(CODE, "message") }`
abbrev pub refuse_if : Bool → ℕ → Text → Handler Unit
refuse_if b code message = lift (if b then die_message code message else ok tt)
