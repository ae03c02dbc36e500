-- ===== src/Errors/Text/Shown.antt =====
-- Which exceptions show nothing.
use Prim.Native.String.{◌++◌}
use text.Mathlib.TextLemmas.{cons≢nil, append-eq-nil_iff}
use sepp_py.Common.{String, Option, none, some, ◌≡◌, ◌≢◌, ◌↔◌, ap}
use sepp_py.Errors.Rejection.{JobRejection}
use sepp_py.Errors.Exceptions.{
  JobConversionError, ServerInfoError, ClientError, transport, unauthenticated, overloaded,
  server_internal, malformed_response, LeaseError, ReserveError, SeppError, client_error,
}
use sepp_py.Errors.Text.{
  Printer, message, conversion_text, server_info_text, client_error_text, lease_text, error_text,
}

starts : (s t : String) → s ≢ "" → s ++ t ≢ ""
starts s t h e = h ((append-eq-nil_iff.0 e).0)

module _ (p : Printer) where
  message_nonempty : (r : JobRejection) → message p r ≢ ""
  unfolding message
  message_nonempty JobRejection.unknown_rejection = λ e. cons≢nil e
  message_nonempty _ = starts _ _ (λ e. cons≢nil e)

  conversion_nonempty : (e : JobConversionError) → conversion_text p e ≢ ""
  unfolding conversion_text
  conversion_nonempty JobConversionError.missing_id = λ e. cons≢nil e
  conversion_nonempty JobConversionError.missing_job_type = λ e. cons≢nil e
  conversion_nonempty JobConversionError.missing_job = λ e. cons≢nil e
  conversion_nonempty _ = starts _ _ (λ e. cons≢nil e)

  server_info_nonempty : (e : ServerInfoError) → server_info_text p e ≢ ""
  unfolding server_info_text
  server_info_nonempty ServerInfoError.missing_server_version = λ e. cons≢nil e
  server_info_nonempty _ = starts _ _ (λ e. cons≢nil e)

  -- The errors that show what the server said, and nothing else.
  abbrev pub verbatim : ClientError → Option String
  verbatim (transport m) = some m
  verbatim (unauthenticated m) = some m
  verbatim (overloaded m) = some m
  verbatim (ClientError.invalid_request m) = some m
  verbatim (server_internal m) = some m
  verbatim (malformed_response m) = some m
  verbatim _ = none

  abbrev pub ShowsNothing : SeppError → Type 0
  ShowsNothing (client_error e) = verbatim e ≡ some ""
  ShowsNothing _ = ⊥

  -- A text that starts with words of its own is not empty, and its error is none of those.
  worded : (t : String) → t ≢ "" → (t ≡ "") ↔ ⊥
  worded t h = (h, λ x. absurd x)

  client_error_text_iff : (e : ClientError) → (client_error_text p e ≡ "") ↔ (verbatim e ≡ some "")
  unfolding client_error_text
  client_error_text_iff (transport m) = (λ h. ap some h, λ h. cc h)
  client_error_text_iff (unauthenticated m) = (λ h. ap some h, λ h. cc h)
  client_error_text_iff (overloaded m) = (λ h. ap some h, λ h. cc h)
  client_error_text_iff (ClientError.invalid_request m) = (λ h. ap some h, λ h. cc h)
  client_error_text_iff (server_internal m) = (λ h. ap some h, λ h. cc h)
  client_error_text_iff (malformed_response m) = (λ h. ap some h, λ h. cc h)
  client_error_text_iff ClientError.invalid_api_key = (λ h. absurd (cons≢nil h), λ h. cc h)
  client_error_text_iff ClientError.empty_batch = (λ h. absurd (cons≢nil h), λ h. cc h)
  client_error_text_iff _ = (λ h. absurd (starts _ _ (λ e. cons≢nil e) h), λ h. cc h)

  -- An exception of the library has an empty text exactly if it is a client error that shows the
  -- server's details, or the client's own, as they are, and they are empty.
  error_text_iff : (e : SeppError) → (error_text p e ≡ "") ↔ ShowsNothing e
  unfolding error_text lease_text
  error_text_iff (client_error e) = client_error_text_iff e
  error_text_iff (SeppError.job_conversion_error e) = worded _ (conversion_nonempty e)
  error_text_iff (SeppError.server_info_error e) = worded _ (server_info_nonempty e)
  error_text_iff (SeppError.lease_error LeaseError.job_not_found) = worded _ (λ e. cons≢nil e)
  error_text_iff (SeppError.lease_error LeaseError.attempt_mismatch) = worded _ (λ e. cons≢nil e)
  error_text_iff (SeppError.job_rejected rejection) = worded _ (starts _ _ (λ e. cons≢nil e))
  error_text_iff (SeppError.batch_validation errors) = worded _ (starts _ _ (λ e. cons≢nil e))
  error_text_iff (SeppError.reserve_error (ReserveError.unknown_queues msg)) =
      worded _ (starts _ _ (λ e. cons≢nil e))
