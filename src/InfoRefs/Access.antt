-- ===== src/InfoRefs/Access.antt =====
-- Who gets the references.
use gitarena.Prelude.{◌≡◌, ◌∙◌, sym, Option, Text, ◌⊎◌, inl, inr}
use gitarena.Error.{ok}
use gitarena.Error.Inversion.{bind-eq-ok}
use gitarena.Database.{User, Repository, Db}
use gitarena.Request.{Request, Response}
use gitarena.BasicAuth.{login_flow, prompt}
use gitarena.BasicAuth.Credentials.{IsAuthentic}
use gitarena.BasicAuth.Access.{login_flow-IsAuthentic, login_flow-prompt}
use gitarena.UploadPack.{Refs}
use gitarena.World.{Externals}
use gitarena.InfoRefs.{after_login, receive_pack_info_refs, receive_pack_type}

module _ (ext : Externals) (version : Text) (refs_of : ext.git.Store → Refs) where
  asked :
      (repo : Option Repository) (request : Request) (disk : Text → Option (ext.git.Store))
      (db : Db) (access : User ⊎ Response) (response : Response)
      → login_flow ext.crypto request receive_pack_type db ≡ ok access
      → after_login ext version refs_of repo disk db access ≡ ok response
      → (response ≡ prompt receive_pack_type)
        ⊎ ((user : User) × IsAuthentic ext.crypto request db user)
  asked repo request disk db (inl user) response e h =
      inr (user, login_flow-IsAuthentic ext.crypto request receive_pack_type db user e)
  asked repo request disk db (inr r) response e h =
      let same : r ≡ response = cc in
      inl (sym same ∙ login_flow-prompt ext.crypto request receive_pack_type db r e)

  -- The references for a push are sent to authentic users only: any other answer that is no error is
  -- the prompt for credentials.
  pub receive_pack_info_refs-IsAuthentic :
      (repo : Option Repository) (request : Request) (disk : Text → Option (ext.git.Store))
      (db : Db) (response : Response)
      → receive_pack_info_refs ext version refs_of repo request disk db ≡ ok response
      → (response ≡ prompt receive_pack_type)
        ⊎ ((user : User) × IsAuthentic ext.crypto request db user)
  unfolding receive_pack_info_refs
  receive_pack_info_refs-IsAuthentic repo request disk db response h =
      let (access, e, k) =
        bind-eq-ok (login_flow ext.crypto request receive_pack_type db)
          (after_login ext version refs_of repo disk db) h in
      asked repo request disk db access response e k
