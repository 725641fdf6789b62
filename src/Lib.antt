-- ===== src/Lib.antt =====
-- A model of GitArena, a server for Git repositories, and what holds of it.
--
-- The parts, from the inside out:
--   Error models src/error.rs: `Result` is what a function of the source returns, with its errors and
--   its panics as values; `error_response` is the response that an error becomes.
--   Exec and Database hold what the handlers run on: a computation that carries a state and may fail,
--   and the rows of the tables with the committed and the current state of a transaction. A query is
--   a function of the rows; `begin` and `commit` are those of the connection.
--   Privilege models src/privileges: who may see a repository, and who may do what with it.
--   GitIo models src/git/io: the writer and the readers of packet lines, and the progress lines. The
--   framing itself is that of a crate, and is an interface (`Framing`).
--   Oid, RefUpdate, Git, World, Push and ReceivePack model a push: src/utils/oid.rs,
--   src/git/ref_update.rs (the commands), src/git/receive_pack.rs and src/git/pack.rs (what a command
--   does to a repository on disk) and src/routes/repository/git/git_receive_pack.rs (the handler). The
--   crates that read and write repositories are the interface `Git`, with the documented behaviour of
--   a reference transaction.
--   Request and BasicAuth model the headers of src/prelude.rs and src/git/basic_auth.rs; base64 and
--   argon2 are the parameter `Crypto`.
--   License models src/licenses.rs and src/git/hooks, which run behind a push.
--   UploadPack and InfoRefs model src/git/ls_refs.rs, src/git/capabilities.rs and
--   src/routes/repository/git/info_refs.rs: what a client learns of the references.
--   Users, Session and Star model src/user.rs, the look-up of src/repository.rs, src/session.rs,
--   src/routes/user/user_logout.rs and src/routes/repository/api/star.rs.
--   Verify and Explore model src/routes/user/user_verify.rs and src/routes/explore.rs. In
--   Explore.Rows a query is read as the database reads it, so that what it selects can be stated.
--   Packing, Fetch and ServePack model src/git/fetch.rs and
--   src/routes/repository/git/git_upload_pack.rs. The object database of git2 is the interface
--   `Objects`; a pack is the sequence of calls of the pack builder.
--   Config, AdminSettings and Mail model src/config.rs, src/routes/admin/settings.rs and src/mail.rs:
--   the settings, their conversion and their change, and what a mail is sent with.
--   Login and Register model src/routes/user/user_login.rs, src/routes/user/user_create.rs,
--   src/verification.rs and src/captcha.rs.
--   NewRepository models create_repo.rs and import_repo.rs of src/routes/repository/api,
--   `create_fs` of src/repository.rs and src/git/write.rs; its child Fork models fork_repo.rs.
--   Sse models src/sse.rs, over an interface for the channels of the crate tokio.
--   Database.Consistent is the invariant of the tables that the handlers share; Database.Steps,
--   Exec.Keeps and Exec.Runs are how it is carried over a computation.
--   Identifiers models src/utils/identifiers.rs.
--   Prelude has what the parts share: lists and text over native numbers, UTF-8, words, decimals.
--   Samples has concrete instances of the interfaces, for the tests.
--
-- Text is a list of characters, bytes a list of numbers. Identifiers of rows and times are natural
-- numbers; the 16-bit length of a side band keeps its wrap-around. All loops are structural, but
-- for the walk over the parents of a commit, which recurs as deep as the stack of the thread has room
-- for, a parameter. A decimal has at most twenty digits, enough for 64 bits.
--
-- Not modelled: the pages and their templates, the history of a repository and its archives, avatars,
-- single sign-on, the transport of mails, the inter-process messages, the macros, start-up and
-- logging. The database connection does not fail by itself, and requests run one after the other.
pub mod Prelude
pub mod Error
pub mod Exec
pub mod Database
pub mod Privilege
pub mod Oid
pub mod Packing
pub mod GitIo
pub mod RefUpdate
pub mod Request
pub mod BasicAuth
pub mod Git
pub mod World
pub mod Push
pub mod License
pub mod UploadPack
pub mod Users
pub mod Session
pub mod Star
pub mod Verify
pub mod Explore
pub mod Fetch
pub mod Identifiers
pub mod Config
pub mod AdminSettings
pub mod Mail
pub mod Login
pub mod Register
pub mod NewRepository
pub mod Samples
pub mod ReceivePack
pub mod InfoRefs
pub mod ServePack
pub mod Sse
