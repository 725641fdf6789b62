-- ===== src/ReceivePack.antt =====
-- src/routes/repository/git/git_receive_pack.rs: `git push`.
pub mod Authorization
pub mod Effects
mod Tests
use gitarena.Prelude.{
  ℕ, ◌==◌, ◌&&◌, ◌||◌, Bool, true, false, not, Option, none, some, List, [], ◌∷◌, ◌++◌, ◌⊎◌, inl,
  inr, Text, Bytes, codes, text_eq, find?, update, drop, is_empty, unwrap_or, if◌then◌else◌,
}
use gitarena.Error.{Result, ok, err, other, status, die, die_message, ok_or, ◌>>=◌ as then_result}
use gitarena.Exec.{Exec, ◌>>=◌, ◌>>◌, pure, lift}
use gitarena.Database.{User, Repository, Db, begin, commit, execute}
use gitarena.Request.{Request, header, Response}
use gitarena.BasicAuth.{login_flow}
use gitarena.Privilege.{check_access, check_push}
use gitarena.RefUpdate.{
  RefUpdate, RefUpdateType, create, delete, parse_line, determinate, is_only_deletions,
}
use gitarena.RefUpdate
use gitarena.License.{run_hooks}
use gitarena.GitIo.Band
use gitarena.GitIo.Reader.{read_data_lines}
use gitarena.GitIo.Writer.{new, write_text_sideband_pktline, flush_sideband, flush}
use gitarena.Push.{Push, read_pack, process_create_update, process_delete, current_path}
use gitarena.World.{Externals, World, on_writer, on_connection, reads, open_at}

-- Whether the request may go on, and as whom for what.
pub data Admission : Type 0 where
  answered : Response → Admission
  admitted : User → Repository → Admission

-- `select id from users where lower(username) = lower($1) limit 1`
abbrev pub user_like : (Text → Text) → Text → Db → Option User
user_like lower username db = find? (λ u. text_eq (lower u.username) (lower username)) db.users

-- `select * from repositories where owner = $1 and lower(name) = lower($2) limit 1`
abbrev pub repository_of : (Text → Text) → ℕ → Text → Db → Option Repository
repository_of lower owner name db =
    find? (λ r. r.owner == owner && text_eq (lower r.name) (lower name)) db.repositories

-- The checks of a known user and repository.
unfoldable pub permit : Db → Repository → User → Result Admission
permit db repo user =
    if not (check_access repo (some user) db)
    then die 404
    else if not (check_push repo (some user) db)
    then die_message 401 (codes "No permission to push into this repo")
    else if repo.archived
    then die_message 401 (codes "Repository is archived and thus read-only")
    else ok (admitted user repo)

abbrev pub after_login : Db → Option Repository → User ⊎ Response → Result Admission
after_login db repo_option (inr response) = ok (answered response)
after_login db none (inl user) = die 404
after_login db (some repo) (inl user) = permit db repo user

abbrev pub content_type : Text
content_type = codes "application/x-git-receive-pack-request"

abbrev pub result_type : Text
result_type = codes "application/x-git-receive-pack-result"

module _ (ext : Externals) where
  -- From the look-up of the owner to the check for an archived repository.
  abbrev pub authorize_for : Request → Text → Db → Option User → Result Admission
  authorize_for request repository db none = die 404
  authorize_for request repository db (some owner) =
      then_result (login_flow ext.crypto request result_type db)
        (after_login db (repository_of ext.lower owner.id repository db))

  unfoldable pub authorize : Request → Text → Text → Db → Result Admission
  authorize request username repository db =
      authorize_for request repository db (user_like ext.lower username db)

  -- `while let Some(item) = body.next().await`; none is an error of the connection.
  unfoldable pub read_payload : List (Option Bytes) → Result Bytes
  read_payload [] = ok []
  read_payload (none ∷ items) = err other
  read_payload (some item ∷ items) = then_result (read_payload items) (λ rest. ok (item ++ rest))

  unfoldable pub parse_updates : List Bytes → Result (List RefUpdate)
  parse_updates [] = ok []
  parse_updates (line ∷ lines) =
      let rest = parse_updates lines in
      then_result (parse_line line) (λ u. then_result rest (λ us. ok (u ∷ us)))

  abbrev pub process :
      Repository → Text → Option (ext.git.Pack) → Bytes → RefUpdate → RefUpdateType → Push ext Unit
  process repo store pack raw u create = process_create_update ext u repo store pack raw
  process repo store pack raw u RefUpdate.update = process_create_update ext u repo store pack raw
  process repo store pack raw u delete = process_delete ext u repo

  unfoldable pub process_all :
      Repository → Text → Option (ext.git.Pack) → Bytes → List RefUpdate → Push ext Unit
  process_all repo store pack raw [] = pure tt
  process_all repo store pack raw (u ∷ us) = do
    kind ← lift (determinate u.old u.new)
    process repo store pack raw u kind
    process_all repo store pack raw us

  unfoldable pub delete_all : Repository → List RefUpdate → Push ext Unit
  delete_all repo [] = pure tt
  delete_all repo (u ∷ us) = process_delete ext u repo >> delete_all repo us

  abbrev pub say : Text → Push ext Unit
  say text = on_writer ext.git (write_text_sideband_pktline ext.frame ext.hex Band.data_band text)

  -- The two branches on the position of the pack.
  abbrev pub run_updates : Repository → Text → List RefUpdate → Bytes → Option ℕ → Push ext Unit
  run_updates repo store updates bytes (some pos) = do
    objects ← open_at ext.git store
    pack ← lift (read_pack ext objects (drop pos bytes))
    say (codes "unpack ok")
    process_all repo store pack (drop pos bytes) updates
  run_updates repo store updates bytes none = do
    only ← lift (is_only_deletions updates)
    (if not only
        then lift (die_message 400 (codes "No PACK payload was sent"))
        else do say (codes "unpack ok"); delete_all repo updates)

  abbrev respond : ℕ → Text → Bytes → Response
  respond code accept body = record {
    status = code;
    headers = (codes "content-type", accept) ∷ [];
    body = body;
  }

  abbrev set_license : Repository → Db → Db
  set_license repo db = record db {
    repositories =
        update (λ r. r.id == repo.id) (λ r. record r { license = repo.license }) db.repositories;
  }

  abbrev pub response_of : Text → Push ext Response
  response_of accept w = (ok (respond 200 accept w.writer.inner), w)

  abbrev pub new_writer : Push ext Unit
  new_writer w = (ok tt, record w { writer = new })

  -- From the opening of the repository to the response. `git gc` changes no object that is in use,
  -- and its failure is only logged.
  unfoldable pub perform : Repository → List RefUpdate → Bytes → Text → Push ext Response
  perform repo updates bytes accept = do
    store ← current_path ext repo
    objects ← open_at ext.git store
    new_writer
    run_updates repo store updates bytes (ext.search_in (codes "PACK") bytes)
    path ← current_path ext repo
    on_writer ext.git (flush_sideband ext.frame Band.data_band)
    on_writer ext.git (flush ext.frame)
    hooked ← run_hooks ext.git ext.lowercase repo
    on_connection ext.git (execute (set_license hooked))
    on_connection ext.git commit
    response_of accept

  abbrev pub receive : Repository → List (Option Bytes) → Text → Push ext Response
  receive repo payload accept = do
    bytes ← lift (read_payload payload)
    updates ← lift (parse_updates (read_data_lines (ext.request_lines bytes)))
    (if is_empty updates then pure (respond 204 accept []) else perform repo updates bytes accept)

  abbrev pub go_on : List (Option Bytes) → Text → Admission → Push ext Response
  go_on payload accept (answered response) = pure response
  go_on payload accept (admitted user repo) = receive repo payload accept

  unfoldable pub git_receive_pack : Request → Text → Text → List (Option Bytes) → Push ext Response
  git_receive_pack request username repository payload =
      let sent = unwrap_or [] (header (codes "content-type") request) in
      let accept = unwrap_or [] (header (codes "accept") request) in
      if not (text_eq sent content_type) || not (text_eq accept result_type)
      then lift (die 400)
      else do
        on_connection ext.git begin
        admission ← reads ext.git (authorize request username repository)
        go_on payload accept admission
