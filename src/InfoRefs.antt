-- ===== src/InfoRefs.antt =====
-- src/routes/repository/git/info_refs.rs: what a Git client asks first. `git_protocol` and the
-- service are those of the request, `refs_of` reads the references of a repository on disk.
pub mod Access
mod Tests
use gitarena.Prelude.{
  ℕ, Bool, true, false, not, Option, none, some, List, [], ◌∷◌, ◌⊎◌, inl, inr, Text, Bytes, codes,
  text_eq, unwrap_or, is_whitespace, if◌then◌else◌,
}
use gitarena.Error.{Result, ok, err, panic, other, die, die_message, ok_or, ◌>>=◌}
use gitarena.Database.{User, Repository, Db}
use gitarena.Request.{Request, Response, header}
use gitarena.BasicAuth.{login_flow, validate_repo_access}
use gitarena.UploadPack.{Refs}
use gitarena.UploadPack.Capabilities.{capabilities, ls_refs_all}
use gitarena.World.{Externals, get_fs_path}
use gitarena.ReceivePack.{user_like, repository_of}

-- `str::trim`
abbrev trim_start : Text → Text
trim_start [] = []
trim_start (c ∷ t) = let rest = trim_start t in if is_whitespace c then rest else c ∷ t

abbrev push_end : ℕ → Text → Text
push_end c [] = if is_whitespace c then [] else c ∷ []
push_end c (d ∷ t) = c ∷ d ∷ t

abbrev trim_end : Text → Text
trim_end [] = []
trim_end (c ∷ t) = push_end c (trim_end t)

unfoldable pub trim : Text → Text
trim t = trim_end (trim_start t)

abbrev pub upload_pack_type : Text
upload_pack_type = codes "application/x-git-upload-pack-advertisement"

abbrev pub receive_pack_type : Text
receive_pack_type = codes "application/x-git-receive-pack-advertisement"

abbrev pub answer : Text → Bytes → Response
answer content_type body = record {
  status = 200;
  headers = (codes "content-type", content_type) ∷ [];
  body = body;
}

module _ (ext : Externals) (version : Text) (refs_of : ext.git.Store → Refs) where
  abbrev pub after_access : Text → (Option User × Repository) ⊎ Response → Result Response
  after_access service (inr response) = ok response
  after_access service (inl admitted) =
      capabilities ext.frame version service >>= λ body. ok (answer upload_pack_type body)

  unfoldable pub upload_pack_info_refs : Option Repository → Text → Request → Db → Result Response
  upload_pack_info_refs repo_option service request db =
      if not (text_eq (unwrap_or [] (header (codes "git-protocol") request)) (codes "version=2"))
      then die_message 400 (codes "Unsupported Git protocol version")
      else (validate_repo_access ext.crypto repo_option upload_pack_type request db
          >>= after_access service)

  -- The advertisement of a repository, whoever asks.
  abbrev pub advertise : Option Repository → (Text → Option (ext.git.Store)) → Db → Result Response
  advertise none disk db = die 404
  advertise (some repo) disk db = get_fs_path repo db >>= λ path.
      ok_or other (disk path) >>= λ store.
      ls_refs_all ext.frame version (refs_of store) >>= λ body. ok (answer receive_pack_type body)

  abbrev pub after_login :
      Option Repository → (Text → Option (ext.git.Store)) → Db → User ⊎ Response → Result Response
  after_login repo_option disk db (inr response) = ok response
  after_login repo_option disk db (inl user) = advertise repo_option disk db

  unfoldable pub receive_pack_info_refs :
      Option Repository → Request → (Text → Option (ext.git.Store)) → Db → Result Response
  receive_pack_info_refs repo_option request disk db =
      login_flow ext.crypto request receive_pack_type db >>= after_login repo_option disk db

  -- The match on the service.
  abbrev pub serve_refs :
      Text → Option Repository → Request → (Text → Option (ext.git.Store)) → Db → Result Response
  serve_refs service repo_option request disk db =
      if text_eq service (codes "git-upload-pack")
      then upload_pack_info_refs repo_option service request db
      else if text_eq service (codes "git-receive-pack")
      then receive_pack_info_refs repo_option request disk db
      else die_message 403 (codes "Requested service not found")

  abbrev pub with_owner :
      Option User → Text → Text → Request → (Text → Option (ext.git.Store)) → Db → Result Response
  with_owner none repository service request disk db = die 404
  with_owner (some owner) repository service request disk db =
      serve_refs service (repository_of ext.lower owner.id repository db) request disk db

  -- The handler only reads: `disk` holds the repositories, `db` what is committed.
  unfoldable pub info_refs :
      Text → Text → Option Text → Request → (Text → Option (ext.git.Store)) → Db → Result Response
  info_refs username repository none request disk db =
      die_message 400 (codes "Dumb clients are not supported")
  info_refs username repository (some value) request disk db =
      with_owner (user_like ext.lower username db) repository (trim value) request disk db
