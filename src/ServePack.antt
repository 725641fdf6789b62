-- ===== src/ServePack.antt =====
-- src/routes/repository/git/git_upload_pack.rs: `git fetch` and `git clone`.
pub mod Access
mod Tests
use gitarena.Prelude.{
  ℕ, ◌||◌, Bool, true, false, not, Option, none, some, List, [], ◌∷◌, ◌⊎◌, inl, inr, Text, Bytes,
  codes, text_eq, unwrap_or, if◌then◌else◌,
}
use gitarena.Error.{Result, ok, other, die, die_message, ok_or}
use gitarena.Error
use gitarena.Exec.{◌>>=◌, ◌>>◌, pure, lift}
use gitarena.Database.{User, Repository, Db, Handler, query, begin, commit}
use gitarena.Request.{Request, Response, header}
use gitarena.BasicAuth.{validate_repo_access}
use gitarena.Privilege.{check_access}
use gitarena.GitIo.Reader.{read_data_lines, read_until_command}
use gitarena.UploadPack.{Refs, ls_refs}
use gitarena.Packing.{Objects}
use gitarena.Fetch.{fetch}
use gitarena.World.{Externals, get_fs_path}
use gitarena.InfoRefs.{upload_pack_type}
use gitarena.ReceivePack.{user_like, repository_of, read_payload}

-- Whether the request may go on, and as whom on what.
pub data Admission : Type 0 where
  answered : Response → Admission
  granted : Option User → Repository → Admission

abbrev pub content_type : Text
content_type = codes "application/x-git-upload-pack-request"

abbrev pub result_type : Text
result_type = codes "application/x-git-upload-pack-result"

-- The early return for a repository that the user may not see.
abbrev pub see : Db → (Option User × Repository) ⊎ Response → Result Admission
see db (inr response) = ok (answered response)
see db (inl (who, repo)) = if not (check_access repo who db) then die 404 else ok (granted who repo)

abbrev respond : ℕ → Text → Bytes → Response
respond code accept body = record {
  status = code;
  headers = (codes "content-type", accept) ∷ [];
  body = body;
}

module _ (ext : Externals) where
  abbrev pub authorize_for : Request → Text → Db → Option User → Result Admission
  authorize_for request repository db none = die 404
  authorize_for request repository db (some owner) =
      Error.◌>>=◌
        (validate_repo_access ext.crypto (repository_of ext.lower owner.id repository db)
          upload_pack_type request db)
        (see db)

  -- From the look-up of the owner to the check of the access.
  unfoldable pub authorize : Request → Text → Text → Db → Result Admission
  authorize request username repository db =
      authorize_for request repository db (user_like ext.lower username db)

-- `open_repo` is `git2::Repository::open`: what a repository on disk holds.
module _ (ext : Externals) {ObjectId Commit : Type 0}
    (open_repo : Text → Option (Refs × Objects ObjectId Commit)) where
  -- The match on the command.
  unfoldable pub run_command :
      Text → Refs × Objects ObjectId Commit → Text × List Bytes → Result Response
  run_command accept (refs, objects) (command, body) =
      if text_eq command (codes "ls-refs")
      then Error.◌>>=◌ (ls_refs ext.frame refs body) (λ output. ok (respond 200 accept output))
      else if text_eq command (codes "fetch")
      then Error.◌>>=◌ (fetch ext.frame objects refs body)
          (λ output. ok (respond 200 accept output))
      else ok (respond 401 accept [])

  -- From the opening of the repository to the response.
  unfoldable pub upload : Repository → List (Option Bytes) → Text → Handler Response
  upload repo payload accept = do
    found ← query (get_fs_path repo)
    path ← lift found
    git2repo ← lift (ok_or other (open_repo path))
    bytes ← lift (read_payload ext payload)
    parsed ← lift (read_until_command (read_data_lines (ext.request_lines bytes)))
    response ← lift (run_command accept git2repo parsed)
    commit
    pure response

  abbrev pub go_on : List (Option Bytes) → Text → Admission → Handler Response
  go_on payload accept (answered response) = pure response
  go_on payload accept (granted who repo) = upload repo payload accept

  unfoldable pub git_upload_pack : Request → Text → Text → List (Option Bytes) → Handler Response
  git_upload_pack request username repository payload =
      let sent = unwrap_or [] (header (codes "content-type") request) in
      let accept = unwrap_or [] (header (codes "accept") request) in
      if not (text_eq sent content_type) || not (text_eq accept result_type)
      then lift (die 400)
      else if not
          (text_eq (unwrap_or [] (header (codes "git-protocol") request)) (codes "version=2"))
      then lift (die_message 400 (codes "Unsupported Git protocol version"))
      else do
        begin
        checked ← query (authorize ext request username repository)
        access ← lift checked
        go_on payload accept access
