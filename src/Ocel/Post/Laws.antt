-- ===== src/Ocel/Post/Laws.antt =====
-- When a payload is delivered, and what was sent.
use ex4pm.Json.{Exception}
use ex4pm.Prelude.{
  ℕ, String, refl, ap, ◌≡◌, ◌≢◌, ◌⊎◌, inl, inr, ◌↔◌, ◌≤◌, ◌<◌, true, false, not, ◌&&◌, List, [],
  ◌∷◌, Result, ok, err, ok-injective, arith, eq_iff, ◌==◌, string_Eq, contains, Bool-cases, ltb,
  leb,
}
use ex4pm.Text.{strip}
use ex4pm.Ocel.{Refusal}
use ex4pm.Ocel.Post.{
  Network, Request, Posted, judged, parsed_url, dispatch, send, request_of, post_if_configured,
}

-- The server took the request
pub record Delivered (network : Network) (payload : List ℕ) : Type 0 where
  pub configured : strip network.ingest_url ≢ ""
  pub scheme : String
  pub netloc : String
  pub parts : network.parse (strip network.ingest_url) ≡ ok (scheme, netloc)
  pub is_http : (scheme ≡ "http") ⊎ (scheme ≡ "https")
  pub absolute : netloc ≢ ""
  pub status : ℕ
  pub answered : network.open_url (request_of network payload) ≡ ok status
  pub accepted : (200 ≤ status) × (status < 300)

-- Nothing was to be sent, or the server took it.
abbrev pub Transported : Network → List ℕ → String → Type 0
Transported network payload transport =
    ((strip network.ingest_url ≡ "") × (transport ≡ "spool"))
    ⊎ (Delivered network payload × (transport ≡ "spool+http"))

judged-eq-ok :
    (r : Result Exception ℕ) {transport : String}
    → judged r ≡ ok transport
    → (status : ℕ) × (r ≡ ok status)
      × ((200 ≤ status) × (status < 300))
      × (transport ≡ "spool+http")
judged-eq-ok (err e) h = absurd (cc)
judged-eq-ok (ok status) h = (status, refl, (ground arith, ground arith), ground arith)

parsed_url-eq-ok :
    (r : Result Exception (String × String)) {parts : String × String}
    → parsed_url r ≡ ok parts
    → r ≡ ok parts
parsed_url-eq-ok (ok parts) h = ap ok (ok-injective h)
parsed_url-eq-ok (err e) h = absurd (cc)

dispatch-Delivered :
    (network : Network) (payload : List ℕ) (r : Result Refusal (String × String))
    {transport : String}
    → (dispatch network payload r).transport ≡ ok transport
    → (scheme : String) × (netloc : String) × (r ≡ ok (scheme, netloc))
      × ((scheme ≡ "http") ⊎ (scheme ≡ "https"))
      × (netloc ≢ "")
      × (judged (network.open_url (request_of network payload)) ≡ ok transport)
dispatch-Delivered network payload (err e) h = absurd (cc)
dispatch-Delivered network payload (ok (scheme, netloc)) h =
    elim (Bool-cases (contains ("http" ∷ "https" ∷ []) scheme && not (netloc == ""))) [
      | inr off ↦ absurd (ground (arith, off))
      | inl good ↦ (
        scheme,
        netloc,
        refl,
        ground (arith, good, eq_iff scheme "http", eq_iff scheme "https"),
        ground (arith, good, eq_iff netloc ""),
        ground (arith, good),
      )
    ]

Delivered-send :
    (network : Network) (payload : List ℕ)
    → Delivered network payload
    → post_if_configured network payload ≡ send network payload
unfolding post_if_configured
Delivered-send network payload d =
    let set : (strip network.ingest_url == "") ≡ false =
      ground (arith, d.configured, eq_iff (strip network.ingest_url) "") in
    let http : contains ("http" ∷ "https" ∷ []) d.scheme ≡ true =
      ground (arith, d.is_http, eq_iff d.scheme "http", eq_iff d.scheme "https") in
    let host : (d.netloc == "") ≡ false = ground (arith, d.absolute, eq_iff d.netloc "") in
    rw (set, d.parts, http, host) refl

-- The transport is reported just if no address is configured, or the address is an absolute http(s)
-- one and the server answered the request with a status from 200 to 299.
pub post_if_configured_iff :
    (network : Network) (payload : List ℕ) (transport : String)
    → ((post_if_configured network payload).transport ≡ ok transport)
      ↔ Transported network payload transport
unfolding post_if_configured
post_if_configured_iff network payload transport = (
  λ h. elim (Bool-cases (strip network.ingest_url == "")) [
    | inl unset ↦ inl ((eq_iff _ "").0 unset, ground (arith, h, unset))
    | inr set ↦
        let h' : (dispatch network payload
              (parsed_url (network.parse (strip network.ingest_url)))).transport
            ≡ ok transport =
          ground (arith, h, set) in
        let (scheme, netloc, r, is_http, absolute, good) =
          dispatch-Delivered network payload _ h' in
        let (status, answered, accepted, is_it) = judged-eq-ok _ good in
        inr (
          record {
            configured = ground (arith, set, eq_iff (strip network.ingest_url) "");
            scheme = scheme;
            netloc = netloc;
            parts = parsed_url-eq-ok _ r;
            is_http = is_http;
            absolute = absolute;
            status = status;
            answered = answered;
            accepted = accepted;
          },
          is_it,
        )
  ],
  λ h. elim h [
    | inl (unset, is_it) ↦ rw ((eq_iff _ "").1 unset, is_it) refl
    | inr (d, is_it) ↦
        let low : ltb d.status 200 ≡ false = ground (arith, d.accepted) in
        let high : leb 300 d.status ≡ false = ground (arith, d.accepted) in
        rw (Delivered-send network payload d, d.answered, low, high, is_it) refl
  ],
)

-- No request, or one with the payload, to an address that is configured
abbrev pub SentOnce : Network → List ℕ → List Request → Type 0
SentOnce network payload sent =
    (sent ≡ []) ⊎ ((sent ≡ request_of network payload ∷ []) × (strip network.ingest_url ≢ ""))

dispatch-SentOnce :
    (network : Network) (payload : List ℕ) (r : Result Refusal (String × String))
    → strip network.ingest_url ≢ ""
    → SentOnce network payload (dispatch network payload r).sent
dispatch-SentOnce network payload (err e) n = inl refl
dispatch-SentOnce network payload (ok (scheme, netloc)) n =
    elim (Bool-cases (contains ("http" ∷ "https" ∷ []) scheme && not (netloc == ""))) [
      | inr off ↦ rw off (inl refl)
      | inl good ↦ rw good (inr (refl, n))
    ]

pub post_if_configured-SentOnce :
    (network : Network) (payload : List ℕ)
    → SentOnce network payload (post_if_configured network payload).sent
unfolding post_if_configured
post_if_configured-SentOnce network payload = elim (Bool-cases (strip network.ingest_url == "")) [
  | inl unset ↦ rw unset (inl refl)
  | inr set ↦ rw set (
      dispatch-SentOnce network payload (parsed_url (network.parse (strip network.ingest_url)))
        (ground (arith, set, eq_iff (strip network.ingest_url) "")))
]

-- What was sent, when the transport is reported
pub Transported-sent :
    (network : Network) (payload : List ℕ) (transport : String)
    → Transported network payload transport
    → ((transport ≡ "spool") × ((post_if_configured network payload).sent ≡ []))
      ⊎ ((transport ≡ "spool+http")
          × ((post_if_configured network payload).sent ≡ request_of network payload ∷ []))
unfolding post_if_configured
Transported-sent network payload transport (inl (unset, is_it)) =
    inl (is_it, rw ((eq_iff _ "").1 unset) refl)
Transported-sent network payload transport (inr (d, is_it)) =
    inr (is_it, ap (λ (p : Posted). p.sent) (Delivered-send network payload d))
