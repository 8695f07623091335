-- ===== src/Remote/Laws.antt =====
-- Which posts are answered with a plan.
use ex4pm.Prelude.{
  ℕ, String, refl, ◌≡◌, ◌↔◌, Bool, true, false, List, Option, some, Result, ok, arith, string_Eq,
  eq_iff, if◌then◌else◌, from_bind, from_expect, ok-bind, ok-injective, and_parts,
}
use ex4pm.Json.{ℤ, Json, Dict, Exception, str, get, lookup, as_dict, to_int}
use ex4pm.Json.Laws.{is_str_iff}
use ex4pm.Remote.{
  Response, not_found, json, is_dict, header_or, refusal, success, planned, answer, do_post,
}

-- The body of a request for a plan, and the plan that is there
pub record PlanAsked (read : ℤ → Option (List ℕ)) (loads : List ℕ → Option Json)
    (planner_result : Json) (path : String) (content_length : Option String) (result : Json)
    : Type 0 where
  pub length : ℤ
  pub content : List ℕ
  pub value : Json
  pub request : Dict Json
  pub plan : Dict Json
  pub is_plan : path ≡ "/plan"
  pub measured : to_int (str (header_or "0" content_length)) ≡ ok length
  pub received : read length ≡ some content
  pub decoded : loads content ≡ some value
  pub object : as_dict value ≡ some request
  pub operation : get "operation" request ≡ str "plan"
  pub subject : is_dict (get "subject" request) ≡ true
  pub planner : as_dict planner_result ≡ some plan
  pub has_result : lookup "result" plan ≡ some result

-- A response that tells of a plan comes from a request that passed the test.
chosen :
    {P : Type 0} (b : Bool) (m : Result Exception Response) (result : Json)
    → (if b then m else ok (json 400 refusal)) ≡ ok (json 200 (success result))
    → (b ≡ true → m ≡ ok (json 200 (success result)) → P)
    → P
chosen true m result h k = k refl h
chosen false m result h k = absurd (ground arith)

routed :
    {P : Type 0} (b : Bool) (m : Result Exception Response) (result : Json)
    → (if b then m else ok not_found) ≡ ok (json 200 (success result))
    → (b ≡ true → m ≡ ok (json 200 (success result)) → P)
    → P
routed true m result h k = k refl h
routed false m result h k = absurd (ground arith)

same_result :
    {r s : Json} → ◌≡◌ {A = Response} (json 200 (success r)) (json 200 (success s)) → r ≡ s
same_result e = cc

module _ (read : ℤ → Option (List ℕ)) (loads : List ℕ → Option Json) where
  do_post-PlanAsked :
      (planner_result : Json) (path : String) (content_length : Option String) (result : Json)
      → do_post read loads planner_result path content_length ≡ ok (json 200 (success result))
      → PlanAsked read loads planner_result path content_length result
  unfolding do_post answer planned
  do_post-PlanAsked planner_result path content_length result h = routed _ _ result h λ is_plan h.
      from_bind _ _ h λ length measured h. from_expect _ _ _ h λ content received h.
        from_expect _ _ _ h λ value decoded h. from_expect _ _ _ h λ request object h.
          chosen _ _ result h λ asked h. from_expect _ _ _ h λ plan planner h.
            from_expect _ _ _ h λ found has_result h.
              let (operation, subject) = and_parts _ _ asked in
              let same = same_result (ok-injective h) in
              record {
                length = length;
                content = content;
                value = value;
                request = request;
                plan = plan;
                is_plan = (eq_iff _ _).0 is_plan;
                measured = measured;
                received = received;
                decoded = decoded;
                object = object;
                operation = (is_str_iff _ _).0 operation;
                subject = subject;
                planner = planner;
                has_result = rw same at has_result;
              }

  PlanAsked-do_post :
      (planner_result : Json) (path : String) (content_length : Option String) (result : Json)
      → PlanAsked read loads planner_result path content_length result
      → do_post read loads planner_result path content_length ≡ ok (json 200 (success result))
  unfolding do_post answer planned
  PlanAsked-do_post planner_result path content_length result p = rw (
    (eq_iff path "/plan").1 p.is_plan,
    p.measured,
    ok-bind,
    p.received,
    ok-bind,
    p.decoded,
    ok-bind,
    p.object,
    ok-bind,
    (is_str_iff _ _).1 p.operation,
    p.subject,
    p.planner,
    ok-bind,
    p.has_result,
    ok-bind,
  )

  -- A post is answered with a verified plan exactly if it goes to `/plan`, its length is a number,
  -- that much can be read and is the JSON text of an object that asks for the operation `plan` on a
  -- subject that is an object, and the plan is the one in the planner's result.
  pub do_post-PlanAsked_iff :
      (planner_result : Json) (path : String) (content_length : Option String) (result : Json)
      → (do_post read loads planner_result path content_length ≡ ok (json 200 (success result)))
        ↔ PlanAsked read loads planner_result path content_length result
  do_post-PlanAsked_iff planner_result path content_length result = (
    do_post-PlanAsked planner_result path content_length result,
    PlanAsked-do_post planner_result path content_length result,
  )
