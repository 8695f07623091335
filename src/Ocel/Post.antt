-- ===== src/Ocel/Post.antt =====
-- `post_if_configured`: the same bytes, once more over HTTP if an address is configured.
pub mod Laws
use ex4pm.Prelude.{
  ℕ, String, ◌<>◌, Bool, not, ◌&&◌, List, [], ◌∷◌, Option, none, some, Result, ok, err, ◌>>=◌, ◌>>◌,
  require, ◌==◌, string_Eq, leb, ltb, contains, if◌then◌else◌,
}
use ex4pm.Json.{Exception, Dict}
use ex4pm.Text.{strip}
use ex4pm.Ocel.{Refusal, malformed_url, ingest_failed, http_status, raised}

pub record Request : Type 0 where
  pub url : String
  pub body : List ℕ
  pub headers : Dict String
  pub method : String

-- The environment, `urlparse` (the scheme and the network location) and `urlopen` (the status)
pub record Network : Type 0 where
  pub ingest_url : String
  pub ingest_token : String
  pub parse : String → Result Exception (String × String)
  pub open_url : Request → Result Exception ℕ

abbrev pub headers_of : String → Dict String
headers_of token =
    ("Content-Type", "application/json")
    ∷ ("User-Agent", "ex4pm-ocel-relay/1")
    ∷ (if token == "" then [] else ("Authorization", "Bearer " <> token) ∷ [])

abbrev pub request_of : Network → List ℕ → Request
request_of network payload = record {
  url = strip network.ingest_url;
  body = payload;
  headers = headers_of (strip network.ingest_token);
  method = "POST";
}

abbrev pub parsed_url : Result Exception (String × String) → Result Refusal (String × String)
parsed_url (ok parts) = ok parts
parsed_url (err e) = err (raised e)

-- `except Exception` does not catch a `SystemExit`, so a bad status keeps its own message.
abbrev pub judged : Result Exception ℕ → Result Refusal String
judged (err e) = err ingest_failed
judged (ok status) =
    if ltb status 200
    then err (http_status status)
    else if leb 300 status
    then err (http_status status)
    else ok "spool+http"

-- What was sent, and the transport or the refusal
pub record Posted : Type 0 where
  pub sent : List Request
  pub transport : Result Refusal String

abbrev pub send : Network → List ℕ → Posted
send network payload = record {
  sent = request_of network payload ∷ [];
  transport = judged (network.open_url (request_of network payload));
}

abbrev pub not_sent : Result Refusal String → Posted
not_sent transport = record { sent = []; transport = transport }

abbrev pub dispatch : Network → List ℕ → Result Refusal (String × String) → Posted
dispatch network payload (err e) = not_sent (err e)
dispatch network payload (ok (scheme, netloc)) =
    if contains ("http" ∷ "https" ∷ []) scheme && not (netloc == "")
    then send network payload
    else not_sent (err malformed_url)

unfoldable pub post_if_configured : Network → List ℕ → Posted
post_if_configured network payload =
    let url = strip network.ingest_url in
    if url == ""
    then not_sent (ok "spool")
    else dispatch network payload (parsed_url (network.parse url))
