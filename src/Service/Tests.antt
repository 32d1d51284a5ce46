-- ===== src/Service/Tests.antt =====
-- Requests and answers of the web service, and the theorems at them.
use esphome_gplug.Base.{◌≡◌, ◌≢◌, refl, true, some, []}
use esphome_gplug.Text.Utf8.{Text, codes, utf8, utf8_char}
use esphome_gplug.Text.Decimal.{digits}
use esphome_gplug.Language.{fr}
use esphome_gplug.Language.German.{german}
use esphome_gplug.Language.Real.{table_of}
use esphome_gplug.Service.{
  Response, answered, object, failure, is_ok, request, options, credentials, update_install, req,
  history_csv_url,
}
use esphome_gplug.Service.Base64.{basic_auth, btoa, digit64}
use esphome_gplug.Service.Worded.{Explains, req-Explains, fails, body_of}

abbrev refusal : Response
refusal = record {
  code = 400;
  content_type = some (codes "application/json; charset=utf-8");
  json = some (object (some (codes "no stored key")) []);
  raw = codes "{\"error\":\"no stored key\"}";
}

refused : fails (answered refusal) ≡ true
unfolding is_ok
refused = refl

req-Explains_example :
    (m : Text) × (req german (table_of fr) (answered refusal)
      ≡ failure (some m) (body_of (answered refusal)))
    × (m ≢ [])
    × Explains (table_of fr) (answered refusal) m
req-Explains_example = req-Explains fr (answered refusal) refused

-- RFC 7617's own example has another user; this is "admin:" with the password "test£".
credentials_of_test : basic_auth (codes "test£") ≡ codes "Basic YWRtaW46dGVzdMKj"
unfolding basic_auth btoa digit64 utf8 utf8_char
credentials_of_test = refl

without_password : (request (update_install [])).headers ≡ []
unfolding request options credentials
without_password = refl

csv_window : history_csv_url (some (1, 2)) ≡ codes "/api/history.csv?from=1&to=2"
unfolding history_csv_url digits
csv_window = refl
