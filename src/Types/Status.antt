-- ===== src/Types/Status.antt =====
-- The status codes of src/types.h and their reason phrases, `http_status_to_string` of
-- src/http_common.c.
pub mod Phrases
use celeritas.Prelude.{ℕ, ◌==◌, if◌then◌else◌, Bytes}
use celeritas.Text.{codes}

-- `http_status_code_t`
pub data HttpStatusCode : Type 0 where
  sc_100_continue sc_101_switching_protocols : HttpStatusCode
  sc_102_processing sc_103_early_hints : HttpStatusCode
  sc_200_ok sc_201_created : HttpStatusCode
  sc_202_accepted sc_203_non_authoritative_information : HttpStatusCode
  sc_204_no_content sc_205_reset_content : HttpStatusCode
  sc_206_partial_content sc_207_multi_status : HttpStatusCode
  sc_208_already_reported sc_226_im_used : HttpStatusCode
  sc_300_multiple_choices sc_301_moved_permanently : HttpStatusCode
  sc_302_found sc_303_see_other : HttpStatusCode
  sc_304_not_modified sc_305_use_proxy : HttpStatusCode
  sc_306_unused sc_307_temporary_redirect : HttpStatusCode
  sc_308_permanent_redirect sc_400_bad_request : HttpStatusCode
  sc_401_unauthorized sc_402_payment_required : HttpStatusCode
  sc_403_forbidden sc_404_not_found : HttpStatusCode
  sc_405_method_not_allowed sc_406_not_acceptable : HttpStatusCode
  sc_407_proxy_authentication_required sc_408_request_timeout : HttpStatusCode
  sc_409_conflict sc_410_gone : HttpStatusCode
  sc_411_length_required sc_412_precondition_failed : HttpStatusCode
  sc_413_content_too_large sc_414_uri_too_long : HttpStatusCode
  sc_415_unsupported_media_type sc_416_range_not_satisfiable : HttpStatusCode
  sc_417_expectation_failed sc_418_im_a_teapot : HttpStatusCode
  sc_421_misdirected_request sc_422_unprocessable_content : HttpStatusCode
  sc_423_locked sc_424_failed_dependency : HttpStatusCode
  sc_425_too_early sc_426_upgrade_required : HttpStatusCode
  sc_428_precondition_required sc_429_too_many_requests : HttpStatusCode
  sc_431_request_header_fields_too_large sc_451_unavailable_for_legal_reasons : HttpStatusCode
  sc_500_internal_server_error sc_501_not_implemented : HttpStatusCode
  sc_502_bad_gateway sc_503_service_unavailable : HttpStatusCode
  sc_504_gateway_timeout sc_505_http_version_not_supported : HttpStatusCode
  sc_506_variant_also_negotiates sc_507_insufficient_storage : HttpStatusCode
  sc_508_loop_detected sc_510_not_extended : HttpStatusCode
  sc_511_network_authentication_required : HttpStatusCode

-- The number of an enumerator.
abbrev pub status_value : HttpStatusCode → ℕ
status_value sc_100_continue = 100
status_value sc_101_switching_protocols = 101
status_value sc_102_processing = 102
status_value sc_103_early_hints = 103
status_value sc_200_ok = 200
status_value sc_201_created = 201
status_value sc_202_accepted = 202
status_value sc_203_non_authoritative_information = 203
status_value sc_204_no_content = 204
status_value sc_205_reset_content = 205
status_value sc_206_partial_content = 206
status_value sc_207_multi_status = 207
status_value sc_208_already_reported = 208
status_value sc_226_im_used = 226
status_value sc_300_multiple_choices = 300
status_value sc_301_moved_permanently = 301
status_value sc_302_found = 302
status_value sc_303_see_other = 303
status_value sc_304_not_modified = 304
status_value sc_305_use_proxy = 305
status_value sc_306_unused = 306
status_value sc_307_temporary_redirect = 307
status_value sc_308_permanent_redirect = 308
status_value sc_400_bad_request = 400
status_value sc_401_unauthorized = 401
status_value sc_402_payment_required = 402
status_value sc_403_forbidden = 403
status_value sc_404_not_found = 404
status_value sc_405_method_not_allowed = 405
status_value sc_406_not_acceptable = 406
status_value sc_407_proxy_authentication_required = 407
status_value sc_408_request_timeout = 408
status_value sc_409_conflict = 409
status_value sc_410_gone = 410
status_value sc_411_length_required = 411
status_value sc_412_precondition_failed = 412
status_value sc_413_content_too_large = 413
status_value sc_414_uri_too_long = 414
status_value sc_415_unsupported_media_type = 415
status_value sc_416_range_not_satisfiable = 416
status_value sc_417_expectation_failed = 417
status_value sc_418_im_a_teapot = 418
status_value sc_421_misdirected_request = 421
status_value sc_422_unprocessable_content = 422
status_value sc_423_locked = 423
status_value sc_424_failed_dependency = 424
status_value sc_425_too_early = 425
status_value sc_426_upgrade_required = 426
status_value sc_428_precondition_required = 428
status_value sc_429_too_many_requests = 429
status_value sc_431_request_header_fields_too_large = 431
status_value sc_451_unavailable_for_legal_reasons = 451
status_value sc_500_internal_server_error = 500
status_value sc_501_not_implemented = 501
status_value sc_502_bad_gateway = 502
status_value sc_503_service_unavailable = 503
status_value sc_504_gateway_timeout = 504
status_value sc_505_http_version_not_supported = 505
status_value sc_506_variant_also_negotiates = 506
status_value sc_507_insufficient_storage = 507
status_value sc_508_loop_detected = 508
status_value sc_510_not_extended = 510
status_value sc_511_network_authentication_required = 511

-- The 5xx rows, and the default.
server_error : ℕ → Bytes
unfolding codes
server_error code =
    if code == 500
    then codes "Internal Server Error"
    else if code == 501
    then codes "Not Implemented"
    else if code == 502
    then codes "Bad Gateway"
    else if code == 503
    then codes "Service Unavailable"
    else if code == 504
    then codes "Gateway Timeout"
    else if code == 505
    then codes "HTTP Version Not Supported"
    else if code == 506
    then codes "Variant Also Negotiates"
    else if code == 507
    then codes "Insufficient Storage"
    else if code == 508
    then codes "Loop Detected"
    else if code == 510
    then codes "Not Extended"
    else if code == 511
    then codes "Network Authentication Required"
    else codes "Unspecified"

-- The 4xx rows.
client_error : ℕ → Bytes
unfolding codes server_error
client_error code =
    if code == 400
    then codes "Bad Request"
    else if code == 401
    then codes "Unauthorized"
    else if code == 402
    then codes "Payment Required"
    else if code == 403
    then codes "Forbidden"
    else if code == 404
    then codes "Not Found"
    else if code == 405
    then codes "Method Not Allowed"
    else if code == 406
    then codes "Not Acceptable"
    else if code == 407
    then codes "Proxy Authentication Required"
    else if code == 408
    then codes "Request Timeout"
    else if code == 409
    then codes "Conflict"
    else if code == 410
    then codes "Gone"
    else if code == 411
    then codes "Length Required"
    else if code == 412
    then codes "Precondition Failed"
    else if code == 413
    then codes "Content Too Large"
    else if code == 414
    then codes "URI Too Long"
    else if code == 415
    then codes "Unsupported Media Type"
    else if code == 416
    then codes "Range Not Satisfiable"
    else if code == 417
    then codes "Expectation Failed"
    else if code == 418
    then codes "I'm a teapot"
    else if code == 421
    then codes "Misdirected Request"
    else if code == 422
    then codes "Unprocessable Content"
    else if code == 423
    then codes "Locked"
    else if code == 424
    then codes "Failed Dependency"
    else if code == 425
    then codes "Too Early"
    else if code == 426
    then codes "Upgrade Required"
    else if code == 428
    then codes "Precondition Required"
    else if code == 429
    then codes "Too Many Requests"
    else if code == 431
    then codes "Request Header Fields Too Large"
    else if code == 451
    then codes "Unavailable For Legal Reasons"
    else server_error code

-- The 3xx rows.
redirection : ℕ → Bytes
unfolding codes client_error
redirection code =
    if code == 300
    then codes "Multiple Choices"
    else if code == 301
    then codes "Moved Permanently"
    else if code == 302
    then codes "Found"
    else if code == 303
    then codes "See Other"
    else if code == 304
    then codes "Not Modified"
    else if code == 305
    then codes "Use Proxy"
    else if code == 306
    then codes "Unused"
    else if code == 307
    then codes "Temporary Redirect"
    else if code == 308
    then codes "Permanent Redirect"
    else client_error code

-- The 2xx rows.
successful : ℕ → Bytes
unfolding codes redirection
successful code =
    if code == 200
    then codes "OK"
    else if code == 201
    then codes "Created"
    else if code == 202
    then codes "Accepted"
    else if code == 203
    then codes "Non-Authoritative Information"
    else if code == 204
    then codes "No Content"
    else if code == 205
    then codes "Reset Content"
    else if code == 206
    then codes "Partial Content"
    else if code == 207
    then codes "Multi-Status"
    else if code == 208
    then codes "Already Reported"
    else if code == 226
    then codes "IM Used"
    else redirection code

-- `http_status_to_string`: the switch, in source order.
unfoldable pub http_status_to_string : ℕ → Bytes
unfolding codes successful
http_status_to_string code =
    if code == 100
    then codes "Continue"
    else if code == 101
    then codes "Switching Protocols"
    else if code == 102
    then codes "Processing"
    else if code == 103
    then codes "Early Hints"
    else successful code
