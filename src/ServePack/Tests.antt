-- ===== src/ServePack/Tests.antt =====
-- Tests of a fetch's handler.
use gitarena.Prelude.{
  split_once, ℕ, ◌≡◌, ◌⊎◌, refl, Option, some, none, List, [], ◌∷◌, Bytes, Text, codes, text_eq,
  cons_first, strip_prefix,
}
use gitarena.Prelude.Utf8.{from_utf8}
use gitarena.Database.{User, Repository, Connection}
use gitarena.Request.{Request, Response, get_header}
use gitarena.BasicAuth.{
  parse_basic_auth, authenticate, login_flow, validate_repo_access, prompt, check_password,
  parse_credentials, is_present,
}
use gitarena.UploadPack.{Refs, ls_refs, write_prefixes}
use gitarena.Packing.{Objects}
use gitarena.InfoRefs.{upload_pack_type}
use gitarena.ServePack.{authorize, git_upload_pack, content_type, result_type, upload, run_command}
use gitarena.ServePack.Access.{MayFetch, git_upload_pack-MayFetch}
use gitarena.UploadPack
use gitarena.Privilege.{check_access, get_repo_privilege, can_view}
use gitarena.World.{get_fs_path}
use gitarena.ReceivePack.{read_payload}
use gitarena.GitIo.Reader.{
  read_until_command, search_command, command_of, strip_newline, read_data_lines, remove_each,
  remove,
}
use gitarena.GitIo.Writer.{flush}
use gitarena.Samples.{sample_externals, sample_db, sample_objects, bob_header, sample_framing}

abbrev refs : Refs
refs = record {
  find_reference = λ name. none;
  references_glob = λ glob. none;
  references = some [];
}

abbrev fetch_of_bob : Request
fetch_of_bob = record {
  headers =
      (codes "content-type", some content_type)
      ∷ (codes "accept", some result_type)
      ∷ (codes "git-protocol", some (codes "version=2"))
      ∷ (codes "authorization", some bob_header)
      ∷ [];
}

abbrev connection : Connection
connection = record { committed = sample_db; current = sample_db }

abbrev references_of : Text → Option (Refs × Objects ℕ ℕ)
references_of path = some (refs, sample_objects)

abbrev lines_of : Option Bytes → List (Option Bytes)
lines_of b = b ∷ []

abbrev answer : Response
answer = record { status = 200; headers = (codes "content-type", result_type) ∷ []; body = 0 ∷ [] }

git_upload_pack-MayFetch_example :
    (connection.committed ≡ connection.committed)
    × ((answer ≡ prompt upload_pack_type)
        ⊎ ((who : Option User) × (repo : Repository) × MayFetch sample_externals fetch_of_bob
              (codes "alice")
              (codes "tools")
              sample_db
              who
              repo))
unfolding git_upload_pack text_eq get_header authorize validate_repo_access login_flow authenticate
    parse_basic_auth split_once from_utf8 check_password check_access get_repo_privilege can_view
    upload get_fs_path read_payload is_present parse_credentials cons_first ls_refs run_command
    read_until_command search_command command_of strip_newline read_data_lines remove_each remove
    flush write_prefixes strip_prefix UploadPack.read_options UploadPack.defaults
git_upload_pack-MayFetch_example =
    git_upload_pack-MayFetch sample_externals references_of fetch_of_bob (codes "alice")
      (codes "tools") (lines_of (sample_framing.text (codes "command=ls-refs"))) connection
      connection answer refl
