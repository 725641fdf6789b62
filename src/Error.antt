-- ===== src/Error.antt =====
-- src/error.rs: errors with a status code, the macros `err!` and `die!`, and the response that an
-- error becomes. A function that may fail or panic returns a `Result`.
pub mod Laws
pub mod Inversion
mod Tests
use gitarena.Prelude.{
  ℕ, ◌==◌, ◌≡◌, Bool, true, false, not, ◌&&◌, Option, none, some, ◌++◌, Text, codes, unwrap_or,
  if◌then◌else◌,
}

pub record WithStatusCode : Type 0 where
  pub code : ℕ
  pub source : Option Text
  pub display : Bool

-- `anyhow::Error`: what `downcast_ref::<WithStatusCode>()` finds, or any other error, with its text.
-- `other` is one whose text the model leaves out.
pub data Error : Type 0 where
  with_status : WithStatusCode → Error
  caused : Text → Error
  other : Error

pub data Result {ℓ} (T : Type ℓ) : Type ℓ where
  panic : Result T
  err : Error → Result T
  ok : T → Result T

-- `m?`, and what follows.
module _ {ℓ κ} {T : Type ℓ} {U : Type κ} where
  infixl 5 ◌>>=◌ ◌>>◌
  abbrev pub ◌>>=◌ : Result T → (T → Result U) → Result U
  panic >>= next = panic
  err e >>= next = err e
  ok t >>= next = next t

  abbrev pub ◌>>◌ : Result T → Result U → Result U
  first >> next = first >>= λ _. next

-- `option.ok_or_else(..)?`
abbrev pub ok_or {ℓ} : {A : Type ℓ} → Error → Option A → Result A
ok_or e none = err e
ok_or e (some a) = ok a

-- `WithStatusCode::new`, which is `err!(CODE)`
abbrev pub status : ℕ → Error
status code = with_status (record { code = code; source = none; display = false })

-- `err!(CODE, "message")`
abbrev pub status_message : ℕ → Text → Error
status_message code message =
    with_status (record { code = code; source = some message; display = true })

-- `die!(CODE)` and `die!(CODE, "message")`
abbrev pub die {ℓ} : {A : Type ℓ} → ℕ → Result A
die code = err (status code)

abbrev pub die_message {ℓ} : {A : Type ℓ} → ℕ → Text → Result A
die_message code message = err (status_message code message)

pub data ErrorDisplayType : Type 0 where
  html : ErrorDisplayType
  htmx : ErrorDisplayType → ErrorDisplayType
  json git plain : ErrorDisplayType

pub record GitArenaError : Type 0 where
  pub source : Error
  pub display_type : ErrorDisplayType

pub data Body : Type 0 where
  empty : Body
  json_error : Text → Body
  text : Text → Body

-- What `error_response` builds: `extension` is the error that the middleware renders.
pub record ErrorResponse : Type 0 where
  pub status : ℕ
  pub body : Body
  pub extension : Option GitArenaError

abbrev code_of : Error → ℕ
code_of (with_status w) = w.code
code_of (caused cause) = 500
code_of other = 500

pub status_code : GitArenaError → ℕ
status_code e = code_of e.source

abbrev displayed : Error → Bool
displayed (with_status w) = w.display
displayed (caused cause) = false
displayed other = false

pub should_display_message : GitArenaError → Bool
should_display_message e = displayed e.source

pub should_print : GitArenaError → Bool
unfolding status_code should_display_message
should_print e = status_code e == 500 && not (should_display_message e)

-- The texts of a status code, which the `http` crate has.
module _ (as_str : ℕ → Text) (canonical_reason : ℕ → Option Text) where
  abbrev standard_text : ℕ → Text
  standard_text code = as_str code ++ (codes " " ++ unwrap_or (codes "") (canonical_reason code))

  abbrev shown : WithStatusCode → Option Text → Bool → Text
  shown w (some source) true = source
  shown w _ _ = standard_text w.code

  -- `Display for WithStatusCode`
  pub to_string : WithStatusCode → Text
  to_string w = shown w w.source w.display

  abbrev source_text : Error → Text
  source_text (with_status w) = to_string w
  source_text (caused cause) = cause
  source_text other = codes ""

  -- The source is read only where `should_display_message` holds, so that of `other` never is.
  pub message : GitArenaError → Text
  unfolding should_display_message status_code to_string
  message e =
      if should_display_message e
      then source_text e.source
      else unwrap_or (codes "") (canonical_reason (status_code e))

  respond : Error → ErrorDisplayType → ErrorResponse
  respond e html = record {
    status = status_code (record { source = e; display_type = html });
    body = empty;
    extension = some (record { source = e; display_type = html });
  }
  respond e git = record {
    status = status_code (record { source = e; display_type = git });
    body = empty;
    extension = some (record { source = e; display_type = git });
  }
  respond e (htmx inner) = respond e inner
  respond e json = record {
    status = status_code (record { source = e; display_type = json });
    body = json_error (message (record { source = e; display_type = json }));
    extension = none;
  }
  respond e plain = record {
    status = status_code (record { source = e; display_type = plain });
    body = text (message (record { source = e; display_type = plain }));
    extension = none;
  }

  pub error_response : GitArenaError → ErrorResponse
  unfolding respond status_code message
  error_response e = respond e.source e.display_type
