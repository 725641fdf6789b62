-- ===== src/InfoRefs/Tests.antt =====
-- Tests of the first request.
use gitarena.Prelude.{◌≡◌, ◌⊎◌, [], some, none, codes, refl}
use gitarena.Database.{User}
use gitarena.Request.{Request, get_header}
use gitarena.BasicAuth.{login_flow, prompt, is_present}
use gitarena.BasicAuth.Credentials.{IsAuthentic}
use gitarena.UploadPack.{Refs}
use gitarena.InfoRefs.{receive_pack_info_refs, receive_pack_type}
use gitarena.InfoRefs.Access.{receive_pack_info_refs-IsAuthentic}
use gitarena.Samples.{sample_externals, sample_db}

abbrev no_refs : Refs
no_refs = record {
  find_reference = λ name. none;
  references_glob = λ glob. none;
  references = some [];
}

abbrev anonymous : Request
anonymous = record { headers = [] }

receive_pack_info_refs-IsAuthentic_example :
    (prompt receive_pack_type ≡ prompt receive_pack_type)
    ⊎ ((user : User) × IsAuthentic sample_externals.crypto anonymous sample_db user)
unfolding receive_pack_info_refs login_flow is_present get_header
receive_pack_info_refs-IsAuthentic_example =
    receive_pack_info_refs-IsAuthentic sample_externals (codes "0.1") (λ store. no_refs) none
      anonymous (λ path. none) sample_db (prompt receive_pack_type) refl
