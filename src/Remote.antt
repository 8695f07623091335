-- ===== src/Remote.antt =====
-- qualification/reference-remote/server.py: the handlers of the reference remote. The connection
-- (`rfile.read`), `json.loads` and the planner's result are arguments; sockets, TLS and
-- the server's threads are outside.
pub mod Laws
mod Examples
use ex4pm.Prelude.{
  ℕ, String, Bool, true, false, ◌&&◌, List, [], ◌∷◌, Option, none, some, Result, ok, err, ◌>>=◌,
  expect, ◌==◌, string_Eq, if◌then◌else◌,
}
use ex4pm.Json.{
  ℤ, Json, Dict, Exception, bool, str, dict, get, lookup, as_dict, is_str, to_int, key_error,
  type_error, value_error, attribute_error, os_error,
}

-- `send_error(404)`, or `_json` with a status and an object
pub data Response : Type 0 where
  not_found : Response
  json : ℕ → Dict Json → Response

unfoldable pub do_get : String → Response
do_get path = if path == "/health" then json 200 (("standing", str "ALIVE") ∷ []) else not_found

abbrev pub is_dict : Json → Bool
is_dict (dict fields) = true
is_dict _ = false

-- `headers.get("content-length", "0")`
abbrev pub header_or : String → Option String → String
header_or default none = default
header_or default (some text) = text

abbrev pub refusal : Dict Json
refusal = ("standing", str "REFUSED") ∷ ("reason", str "invalid request") ∷ []

abbrev pub success : Json → Dict Json
success result =
    ("standing", str "ALIVE") ∷ ("receipt_verified", bool true) ∷ ("result", result) ∷ []

-- `self.planner_result["result"]`
unfoldable pub planned : Json → Result Exception Response
planned planner_result = do
  d ← expect (as_dict planner_result) type_error
  result ← expect (lookup "result" d) key_error
  ok (json 200 (success result))

module _ (read : ℤ → Option (List ℕ)) (loads : List ℕ → Option Json) where
  -- An exception ends the handler with no response.
  unfoldable pub answer : Json → Option String → Result Exception Response
  answer planner_result content_length = do
    length ← to_int (str (header_or "0" content_length))
    content ← expect (read length) os_error
    value ← expect (loads content) value_error
    request ← expect (as_dict value) attribute_error
    if is_str (get "operation" request) "plan" && is_dict (get "subject" request)
        then planned planner_result
        else ok (json 400 refusal)

  unfoldable pub do_post : Json → String → Option String → Result Exception Response
  do_post planner_result path content_length =
      if path == "/plan" then answer planner_result content_length else ok not_found
