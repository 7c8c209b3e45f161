-- ===== src/Http/Parameter.antt =====
-- http/httpParameter.h and http/httpParameter.cpp.
use budd.Common.{ℕ, List, [], ◌∷◌, ◌==◌, if◌then◌else◌, Bytes, codes}

-- `enum HttpResponseStatusCode`
pub data HttpResponseStatusCode : Type 0 where
  unknown continue ok no_content bad_request not_found internal_server_error :
      HttpResponseStatusCode

-- The numbers of the enumerators.
abbrev pub status_number : HttpResponseStatusCode → ℕ
status_number unknown = 0
status_number continue = 100
status_number ok = 200
status_number no_content = 204
status_number bad_request = 400
status_number not_found = 404
status_number internal_server_error = 500

-- `class ContentType`
abbrev pub text_plain : Bytes
text_plain = codes "text/plain;charset=utf-8"

abbrev pub text_html : Bytes
text_html = codes "text/html;charset=utf-8"

abbrev pub image_jpeg : Bytes
image_jpeg = codes "image/jpeg"

abbrev pub image_png : Bytes
image_png = codes "image/png"

abbrev pub application_json : Bytes
application_json = codes "application/json;charset=utf-8"

abbrev pub application_octec_stream : Bytes
application_octec_stream = codes "application/octet-stream"

abbrev pub application_form : Bytes
application_form = codes "application/x-www-form-urlencoded"

-- `enum HttpMethod`
pub data HttpMethod : Type 0 where
  none get post put delete head : HttpMethod

-- `m_httpResponseStatusMessage`
abbrev pub http_response_status_message : List (HttpResponseStatusCode × Bytes)
http_response_status_message =
    (unknown, codes "unknown")
    ∷ (continue, codes "Continue")
    ∷ (ok, codes "OK")
    ∷ (no_content, codes "No Content")
    ∷ (bad_request, codes "Bad Request")
    ∷ (not_found, codes "Not Found")
    ∷ (internal_server_error, codes "Internal Server Error")
    ∷ []

-- `find` on the map, and the empty string where it fails
unfoldable pub message_in : List (HttpResponseStatusCode × Bytes) → HttpResponseStatusCode → Bytes
message_in [] code = []
message_in ((c, message) ∷ rest) code =
    if status_number c == status_number code then message else message_in rest code

unfoldable pub get_status_message_by_code : HttpResponseStatusCode → Bytes
get_status_message_by_code = message_in http_response_status_message
