-- ===== src/Types/Status/Phrases.antt =====
-- The reason phrases of `http_status_to_string`: their lengths, and which codes have one.
use celeritas.Prelude.{ℕ, ◌≤◌, ◌≡◌, ◌≢◌, length, arith, refl, false}
use celeritas.Text.{codes, equal, equal_iff}
use celeritas.Types.Status.{
  HttpStatusCode, status_value, http_status_to_string, successful, redirection, client_error,
  server_error, sc_100_continue, sc_101_switching_protocols, sc_102_processing, sc_103_early_hints,
  sc_200_ok, sc_201_created, sc_202_accepted, sc_203_non_authoritative_information,
  sc_204_no_content, sc_205_reset_content, sc_206_partial_content, sc_207_multi_status,
  sc_208_already_reported, sc_226_im_used, sc_300_multiple_choices, sc_301_moved_permanently,
  sc_302_found, sc_303_see_other, sc_304_not_modified, sc_305_use_proxy, sc_306_unused,
  sc_307_temporary_redirect, sc_308_permanent_redirect, sc_400_bad_request, sc_401_unauthorized,
  sc_402_payment_required, sc_403_forbidden, sc_404_not_found, sc_405_method_not_allowed,
  sc_406_not_acceptable, sc_407_proxy_authentication_required, sc_408_request_timeout,
  sc_409_conflict, sc_410_gone, sc_411_length_required, sc_412_precondition_failed,
  sc_413_content_too_large, sc_414_uri_too_long, sc_415_unsupported_media_type,
  sc_416_range_not_satisfiable, sc_417_expectation_failed, sc_418_im_a_teapot,
  sc_421_misdirected_request, sc_422_unprocessable_content, sc_423_locked, sc_424_failed_dependency,
  sc_425_too_early, sc_426_upgrade_required, sc_428_precondition_required, sc_429_too_many_requests,
  sc_431_request_header_fields_too_large, sc_451_unavailable_for_legal_reasons,
  sc_500_internal_server_error, sc_501_not_implemented, sc_502_bad_gateway,
  sc_503_service_unavailable, sc_504_gateway_timeout, sc_505_http_version_not_supported,
  sc_506_variant_also_negotiates, sc_507_insufficient_storage, sc_508_loop_detected,
  sc_510_not_extended, sc_511_network_authentication_required,
}

length-server_error : (c : ℕ) → length (server_error c) ≤ 31
unfolding server_error codes
length-server_error c = ground (arith)

length-client_error : (c : ℕ) → length (client_error c) ≤ 31
unfolding client_error codes
length-client_error c = ground (arith, length-server_error c)

length-redirection : (c : ℕ) → length (redirection c) ≤ 31
unfolding redirection codes
length-redirection c = ground (arith, length-client_error c)

length-successful : (c : ℕ) → length (successful c) ≤ 31
unfolding successful codes
length-successful c = ground (arith, length-redirection c)

pub length-http_status_to_string : (c : ℕ) → length (http_status_to_string c) ≤ 31
unfolding http_status_to_string codes
length-http_status_to_string c = ground (arith, length-successful c)

unlisted-server_error :
    (n : ℕ) → ((c : HttpStatusCode) → status_value c ≢ n) → server_error n ≡ codes "Unspecified"
unfolding server_error
unlisted-server_error n h = ground (
  arith,
  h sc_500_internal_server_error,
  h sc_501_not_implemented,
  h sc_502_bad_gateway,
  h sc_503_service_unavailable,
  h sc_504_gateway_timeout,
  h sc_505_http_version_not_supported,
  h sc_506_variant_also_negotiates,
  h sc_507_insufficient_storage,
  h sc_508_loop_detected,
  h sc_510_not_extended,
  h sc_511_network_authentication_required,
)

unlisted-client_error :
    (n : ℕ) → ((c : HttpStatusCode) → status_value c ≢ n) → client_error n ≡ codes "Unspecified"
unfolding client_error
unlisted-client_error n h = ground (
  arith,
  unlisted-server_error n h,
  h sc_400_bad_request,
  h sc_401_unauthorized,
  h sc_402_payment_required,
  h sc_403_forbidden,
  h sc_404_not_found,
  h sc_405_method_not_allowed,
  h sc_406_not_acceptable,
  h sc_407_proxy_authentication_required,
  h sc_408_request_timeout,
  h sc_409_conflict,
  h sc_410_gone,
  h sc_411_length_required,
  h sc_412_precondition_failed,
  h sc_413_content_too_large,
  h sc_414_uri_too_long,
  h sc_415_unsupported_media_type,
  h sc_416_range_not_satisfiable,
  h sc_417_expectation_failed,
  h sc_418_im_a_teapot,
  h sc_421_misdirected_request,
  h sc_422_unprocessable_content,
  h sc_423_locked,
  h sc_424_failed_dependency,
  h sc_425_too_early,
  h sc_426_upgrade_required,
  h sc_428_precondition_required,
  h sc_429_too_many_requests,
  h sc_431_request_header_fields_too_large,
  h sc_451_unavailable_for_legal_reasons,
)

unlisted-redirection :
    (n : ℕ) → ((c : HttpStatusCode) → status_value c ≢ n) → redirection n ≡ codes "Unspecified"
unfolding redirection
unlisted-redirection n h = ground (
  arith,
  unlisted-client_error n h,
  h sc_300_multiple_choices,
  h sc_301_moved_permanently,
  h sc_302_found,
  h sc_303_see_other,
  h sc_304_not_modified,
  h sc_305_use_proxy,
  h sc_306_unused,
  h sc_307_temporary_redirect,
  h sc_308_permanent_redirect,
)

unlisted-successful :
    (n : ℕ) → ((c : HttpStatusCode) → status_value c ≢ n) → successful n ≡ codes "Unspecified"
unfolding successful
unlisted-successful n h = ground (
  arith,
  unlisted-redirection n h,
  h sc_200_ok,
  h sc_201_created,
  h sc_202_accepted,
  h sc_203_non_authoritative_information,
  h sc_204_no_content,
  h sc_205_reset_content,
  h sc_206_partial_content,
  h sc_207_multi_status,
  h sc_208_already_reported,
  h sc_226_im_used,
)

-- A number that no code of the enumeration has gets the phrase "Unspecified".
pub http_status_to_string-unlisted :
    (n : ℕ)
    → ((c : HttpStatusCode) → status_value c ≢ n)
    → http_status_to_string n ≡ codes "Unspecified"
unfolding http_status_to_string
http_status_to_string-unlisted n h = ground (
  arith,
  unlisted-successful n h,
  h sc_100_continue,
  h sc_101_switching_protocols,
  h sc_102_processing,
  h sc_103_early_hints,
)

listed :
    (c : HttpStatusCode)
    → equal (http_status_to_string (status_value c)) (codes "Unspecified") ≡ false
unfolding http_status_to_string equal codes
listed sc_100_continue = refl
listed _ = refl

-- Every code of the enumeration has a reason phrase of its own branch of the function: none of them
-- is "Unspecified".
pub http_status_to_string-listed :
    (c : HttpStatusCode) → http_status_to_string (status_value c) ≢ codes "Unspecified"
http_status_to_string-listed c e =
    ground
      (arith, listed c, equal_iff (http_status_to_string (status_value c)) (codes "Unspecified"))
