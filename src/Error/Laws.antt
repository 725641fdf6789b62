-- ===== src/Error/Laws.antt =====
-- What a client can see of an error, and which errors are left to the middleware.
use gitarena.Prelude.{ℕ, ◌≡◌, Option, some, ◌⊎◌, Text, arith}
use gitarena.Error.{
  Error, ErrorDisplayType, html, htmx, json, git, plain, GitArenaError, respond, error_response,
}

module _ (as_str : ℕ → Text) (canonical_reason : ℕ → Option Text) where
  -- The display types that the middleware renders.
  abbrev pub IsRendered : ErrorDisplayType → Type 0
  IsRendered d = (d ≡ html) ⊎ (d ≡ git)

  respond-IsRendered :
      (e : Error) (d : ErrorDisplayType) (x : GitArenaError)
      → (respond as_str canonical_reason e d).extension ≡ some x
      → IsRendered x.display_type × (x.source ≡ e)
  unfolding respond
  respond-IsRendered e html x h = ground arith
  respond-IsRendered e (htmx inner) x h = respond-IsRendered e inner x h
  respond-IsRendered e json x h = cc
  respond-IsRendered e git x h = ground arith
  respond-IsRendered e plain x h = cc

  -- An error that a response hands to the middleware is the error that was responded to, and is
  -- displayed as HTML or as Git: the `unreachable!` of the middleware is not reached.
  pub error_response-IsRendered :
      (e x : GitArenaError)
      → (error_response as_str canonical_reason e).extension ≡ some x
      → IsRendered x.display_type × (x.source ≡ e.source)
  unfolding error_response
  error_response-IsRendered e x h = respond-IsRendered e.source e.display_type x h
