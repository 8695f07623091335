-- ===== src/R58/Laws.antt =====
-- When the court says that the consumer is alive.
use ex4pm.Prelude.{
  nat_eq_iff, ℕ, String, refl, ◌≡◌, ◌↔◌, Bool, true, false, List, [], ◌∷◌, Result, ok, All, arith,
  nat_Eq, string_Eq, if◌then◌else◌, length, is_empty, from_bind, from_expect, ok-bind, ok-injective,
  ap, ◌∙◌, some,
}
use ex4pm.Json.{Json, Dict, Exception, bool, str, get, as_dict, lookup}
use ex4pm.Json.Laws.{is_str_iff, is_false_iff}
use ex4pm.Subject.{text_of}
use ex4pm.Text.{is_hex40}
use ex4pm.R58.{
  expected_consumer, expected_producer, Detail, Receipt, name, alive, conclude, refuse, sha_shape,
  checks, failed, run_queries, court, main,
}

-- What the subject has to state
pub record Contract (s : Dict Json) : Type 0 where
  pub schema : get "schema" s ≡ str "ggen.epistemic-consumer-subject/2"
  pub consumer_repo : get "consumer_repo" s ≡ str "seanchatmangpt/ex4pm"
  pub consumer_base : get "consumer_base" s ≡ str expected_consumer
  pub producer_base : get "producer_base" s ≡ str expected_producer
  pub target : get "producer_target_token" s ≡ str "esf:ex4pmTarget"
  pub no_do : get "consequential_do" s ≡ bool false

none_failed :
    (cs : List (String × Bool))
    → is_empty (failed cs) ≡ true
    → All (λ (c : String × Bool). c.1 ≡ true) cs
unfolding failed
none_failed [] h = tt
none_failed ((c, b) ∷ cs) h = (ground arith, none_failed cs (ground arith))

checks-Contract :
    (s : Dict Json) (cs : List (String × Bool))
    → checks s ≡ ok cs
    → is_empty (failed cs) ≡ true
    → Contract s
unfolding checks
checks-Contract s cs h e = from_bind _ _ h λ shape p h.
    let (a, (b, (c, (d, (t, (n, _)))))) =
      none_failed _ (ap (λ xs. is_empty (failed xs)) (ok-injective h) ∙ e) in
    record {
      schema = (is_str_iff _ _).0 a;
      consumer_repo = (is_str_iff _ _).0 b;
      consumer_base = (is_str_iff _ _).0 c;
      producer_base = (is_str_iff _ _).0 d;
      target = (is_str_iff _ _).0 t;
      no_do = (is_false_iff _).0 n;
    }

-- The two revisions that the court requires have the shape that it requires as well.
Contract-sha_shape : (s : Dict Json) → Contract s → sha_shape s ≡ ok true
unfolding sha_shape is_hex40
Contract-sha_shape s c = rw (
  text_of (lookup "consumer_base" s) c.consumer_base,
  ok-bind,
  text_of (lookup "producer_base" s) c.producer_base,
  ok-bind,
)

abbrev all_passed : List (String × Bool)
all_passed =
    ("schema", true)
    ∷ ("consumer_repo", true)
    ∷ ("consumer_base", true)
    ∷ ("producer_base", true)
    ∷ ("target", true)
    ∷ ("no_do", true)
    ∷ ("sha_shape", true)
    ∷ []

Contract-checks : (s : Dict Json) → Contract s → checks s ≡ ok all_passed
unfolding checks
Contract-checks s c = rw (
  Contract-sha_shape s c,
  ok-bind,
  (is_str_iff _ _).1 c.schema,
  (is_str_iff _ _).1 c.consumer_repo,
  (is_str_iff _ _).1 c.consumer_base,
  (is_str_iff _ _).1 c.producer_base,
  (is_str_iff _ _).1 c.target,
  (is_false_iff _).1 c.no_do,
)

-- A guard that did not refuse held.
went_on :
    {P : Type 0} (b can_write : Bool) (reason : String) (details : List Detail)
    (m : Result Exception (ℕ × Receipt)) (r : Receipt)
    → (if b then m else refuse can_write reason details) ≡ ok (0, r)
    → (b ≡ true → m ≡ ok (0, r) → P)
    → P
unfolding refuse
went_on true can_write reason details m r h k = k refl h
went_on false true reason details m r h k = absurd (ground arith)
went_on false false reason details m r h k = absurd (ground arith)

concluded :
    (can_write : Bool) (receipt r : Receipt)
    → conclude can_write 0 receipt ≡ ok (0, r)
    → (can_write ≡ true) × (r ≡ receipt)
concluded true receipt r h = (refl, cc)
concluded false receipt r h = absurd (ground arith)

module _ {Graph : Type 0} (ask : Graph → String → Result Exception Bool) where
  run_queries_clean :
      (graph : Graph) (queries : List String) (failures : List Detail)
      → run_queries ask graph queries ≡ ok failures
      → is_empty failures ≡ true
      → All (λ q. ask graph q ≡ ok true) queries
  unfolding run_queries
  run_queries_clean graph [] failures h e = tt
  run_queries_clean graph (q ∷ queries) failures h e = from_bind _ _ h λ passed p h.
      from_bind _ _ h λ later l h.
        let (asked, rest) = not_listed passed later (ap is_empty (ok-injective h) ∙ e) in
        (p ∙ ap ok asked, run_queries_clean graph queries later l rest)
    where
      not_listed :
          (b : Bool) (later : List Detail)
          → is_empty (if b then later else name q ∷ later) ≡ true
          → (b ≡ true) × (is_empty later ≡ true)
      not_listed b later h = ground arith

  clean_run_queries :
      (graph : Graph) (queries : List String)
      → All (λ q. ask graph q ≡ ok true) queries
      → run_queries ask graph queries ≡ ok []
  unfolding run_queries
  clean_run_queries graph [] a = refl
  clean_run_queries graph (q ∷ queries) a =
      rw (a.0, ok-bind, clean_run_queries graph queries a.1, ok-bind)

  -- What a run that ends well has found
  pub record CourtAlive (can_write : Bool) (subject : Json) (parsed : Result Exception Graph)
      (queries : List String) (digest : Result Exception String) (r : Receipt) : Type 0 where
    pub s : Dict Json
    pub graph : Graph
    pub hash : String
    pub object : as_dict subject ≡ some s
    pub contract : Contract s
    pub adapter : parsed ≡ ok graph
    pub census : length queries ≡ 20
    pub answers : All (λ q. ask graph q ≡ ok true) queries
    pub hashed : digest ≡ ok hash
    pub can_be_written : can_write ≡ true
    pub receipt : r ≡ alive 20 hash

  court_zero :
      (can_write : Bool) (parsed : Result Exception Graph) (queries : List String)
      (digest : Result Exception String) (r : Receipt)
      → court ask can_write parsed queries digest ≡ ok (0, r)
      → (graph : Graph) × (hash : String) × (parsed ≡ ok graph)
        × (length queries ≡ 20)
        × All (λ q. ask graph q ≡ ok true) queries
        × (digest ≡ ok hash)
        × (can_write ≡ true)
        × (r ≡ alive (length queries) hash)
  unfolding court
  court_zero can_write parsed queries digest r h = from_bind _ _ h λ graph adapter h.
      went_on _ _ _ _ _ r h λ census h. from_bind _ _ h λ failures each h.
        went_on _ _ _ _ _ r h λ clean h. from_bind _ _ h λ hash hashed h.
          let (w, e) = concluded can_write _ r h in
          (
            graph,
            hash,
            adapter,
            (nat_eq_iff _ _).0 census,
            run_queries_clean graph queries failures each clean,
            hashed,
            w,
            e,
          )

  main-CourtAlive :
      (can_write : Bool) (subject : Json) (parsed : Result Exception Graph) (queries : List String)
      (digest : Result Exception String) (r : Receipt)
      → main ask can_write subject parsed queries digest ≡ ok (0, r)
      → CourtAlive can_write subject parsed queries digest r
  unfolding main
  main-CourtAlive can_write subject parsed queries digest r h = from_expect _ _ _ h λ s object h.
      from_bind _ _ h λ results p h. went_on _ _ _ _ _ r h λ clean h.
        let (graph, hash, adapter, census, answers, hashed, w, e) =
          court_zero can_write parsed queries digest r h in
        record {
          s = s;
          graph = graph;
          hash = hash;
          object = object;
          contract = checks-Contract s results p clean;
          adapter = adapter;
          census = census;
          answers = answers;
          hashed = hashed;
          can_be_written = w;
          receipt = e ∙ ap (λ n. alive n hash) census;
        }

  main_of_CourtAlive :
      (can_write : Bool) (subject : Json) (parsed : Result Exception Graph) (queries : List String)
      (digest : Result Exception String) (r : Receipt)
      → CourtAlive can_write subject parsed queries digest r
      → main ask can_write subject parsed queries digest ≡ ok (0, r)
  unfolding main court failed
  main_of_CourtAlive can_write subject parsed queries digest r a = rw (
    a.object,
    ok-bind,
    Contract-checks a.s a.contract,
    ok-bind,
    a.adapter,
    ok-bind,
    a.census,
    clean_run_queries a.graph queries a.answers,
    ok-bind,
    a.hashed,
    ok-bind,
    a.can_be_written,
    a.receipt,
  )

  -- The court ends with 0 and a receipt exactly if the subject keeps its contract, the adapter is
  -- read, there are 20 queries and each is answered with yes, and the receipt, which can be
  -- written, states the 20 courts and the digest of the inputs.
  pub main-CourtAlive_iff :
      (can_write : Bool) (subject : Json) (parsed : Result Exception Graph) (queries : List String)
      (digest : Result Exception String) (r : Receipt)
      → (main ask can_write subject parsed queries digest ≡ ok (0, r))
        ↔ CourtAlive can_write subject parsed queries digest r
  main-CourtAlive_iff can_write subject parsed queries digest r = (
    main-CourtAlive can_write subject parsed queries digest r,
    main_of_CourtAlive can_write subject parsed queries digest r,
  )
