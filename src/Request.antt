-- ===== src/Request.antt =====
-- The parts of a request and of a response that the handlers use, and `HttpRequestExtensions` of
-- src/prelude.rs.
use gitarena.Prelude.{ℕ, Option, none, List, [], ◌∷◌, Text, Bytes, text_eq, if◌then◌else◌}

-- A header's name is in lower case; its value is none where it is no visible ASCII text.
pub record Request : Type 0 where
  pub headers : List (Text × Option Text)

-- `self.headers().get(header)?.to_str().ok()`
unfoldable pub get_header : Text → List (Text × Option Text) → Option Text
get_header name [] = none
get_header name ((n, value) ∷ headers) =
    let rest = get_header name headers in if text_eq n name then value else rest

abbrev pub header : Text → Request → Option Text
header name request = get_header name request.headers

pub record Response : Type 0 where
  pub status : ℕ
  pub headers : List (Text × Text)
  pub body : Bytes
