-- ===== src/Mail/Tests.antt =====
-- Tests of the emails.
use gitarena.Prelude.{◌≡◌, true, arith, if◌then◌else◌}
use gitarena.Error.{ok, panic}
use gitarena.Mail.{is_allowed_login}
use gitarena.Mail.Laws.{is_allowed_login-late}
use gitarena.Samples.{bobs_email}

is_allowed_login-late_example :
    is_allowed_login 900000 bobs_email ≡ (if bobs_email.primary then ok true else panic)
is_allowed_login-late_example = is_allowed_login-late 900000 bobs_email (omega arith)
