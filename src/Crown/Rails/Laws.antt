-- ===== src/Crown/Rails/Laws.antt =====
-- What `verify_rails` accepts.
use ex4pm.Prelude.{
  ◌↔◌, Each-All, ◌∙◌, same_set_iff, ap, String, ◌≡◌, refl, List, [], ◌∷◌, some, ok, ◌>>=◌,
  from_bind, from_expect, from_require, All, ok-bind, ok-injective, subst, Each, traverse,
  traverse-Each, contains, string_Eq,
}
use ex4pm.Crown.Rails.Groups.{filled, All-groups, Agrees, not_empty, each_group}
use ex4pm.Text.{sorted}
use ex4pm.Json.{Json, Dict, str, get, as_dict, as_list, keys}
use ex4pm.Crown.Rails.{required_rails, verify_rail, verify_rails, RailEvidence}
use ex4pm.Json.Laws.{is_str_iff}
use ex4pm.Crown.World.{World}
use ex4pm.Crown.Evidence.{canonical_hash}
use ex4pm.Crown.Evidence.Laws.{
  Attested, AttestedJson, verify_file-Attested, load_verified_json-AttestedJson,
  verify_file_of_Attested, load_verified_json_of_AttestedJson,
}

-- The rail stands on an artifact and a result that are both attested, and `hash` is the hash of
-- that result.
pub record RailAlive (w : World) (rails : Dict Json) (rail hash : String) : Type 0 where
  pub entry : Dict Json
  pub artifact : Dict Json
  pub result : Dict Json
  pub result_json : Dict Json
  pub artifact_path : List String
  pub entered : as_dict (get rail rails) ≡ some entry
  pub alive : get "standing" entry ≡ str "ALIVE"
  pub has_artifact : as_dict (get "artifact" entry) ≡ some artifact
  pub has_result : as_dict (get "result" entry) ≡ some result
  pub artifact_attested : Attested w artifact artifact_path
  pub result_attested : AttestedJson w result result_json
  pub hashed : canonical_hash w result_json ≡ hash
  pub stated : get "result_hash" entry ≡ str hash
  pub result_alive : get "standing" result_json ≡ str "ALIVE"

verify_rail-RailAlive :
    (w : World) (rails : Dict Json) (rail : String) (p : String × String)
    → verify_rail w rails rail ≡ ok p
    → (p.0 ≡ rail) × RailAlive w rails rail p.1
unfolding verify_rail
verify_rail-RailAlive w rails rail p h = from_expect _ _ _ h λ entry entered h.
    from_require _ _ _ h λ alive h. from_expect _ _ _ h λ artifact has_artifact h.
      from_expect _ _ _ h λ result has_result h. from_bind _ _ h λ path file h.
        from_bind _ _ h λ result_json loaded h. from_require _ _ _ h λ stated h.
          from_require _ _ _ h λ result_alive h.
            subst (λ (q : String × String). (q.0 ≡ rail) × RailAlive w rails rail q.1)
              (ok-injective h)
              (
                refl,
                record {
                  entry = entry;
                  artifact = artifact;
                  result = result;
                  result_json = result_json;
                  artifact_path = path;
                  entered = entered;
                  alive = (is_str_iff _ _).0 alive;
                  has_artifact = has_artifact;
                  has_result = has_result;
                  artifact_attested = verify_file-Attested w artifact _ path file;
                  result_attested = load_verified_json-AttestedJson w result _ result_json loaded;
                  hashed = refl;
                  stated = (is_str_iff _ _).0 stated;
                  result_alive = (is_str_iff _ _).0 result_alive;
                },
              )

verify_rail_of_RailAlive :
    (w : World) (rails : Dict Json) (rail hash : String)
    → RailAlive w rails rail hash
    → verify_rail w rails rail ≡ ok (rail, hash)
unfolding verify_rail
verify_rail_of_RailAlive w rails rail hash a = rw (
  a.entered,
  ok-bind,
  (is_str_iff _ _).1 a.alive,
  ok-bind,
  a.has_artifact,
  ok-bind,
  a.has_result,
  ok-bind,
  verify_file_of_Attested w a.artifact _ a.artifact_attested,
  ok-bind,
  load_verified_json_of_AttestedJson w a.result a.result_json _ a.result_attested,
  ok-bind,
  a.hashed,
  (is_str_iff _ _).1 a.stated,
  ok-bind,
  (is_str_iff _ _).1 a.result_alive,
  ok-bind,
)

abbrev pub pair_up : List String → List String → Dict String
pair_up [] hs = []
pair_up (r ∷ rs) [] = []
pair_up (r ∷ rs) (h ∷ hs) = (r, h) ∷ pair_up rs hs

-- Each rail is alive on its own hash.
abbrev pub AllAlive : World → Dict Json → List String → List String → Type 0
AllAlive w rails [] [] = Unit
AllAlive w rails [] (h ∷ hs) = ⊥
AllAlive w rails (r ∷ rs) [] = ⊥
AllAlive w rails (r ∷ rs) (h ∷ hs) = RailAlive w rails r h × AllAlive w rails rs hs

rails_alive :
    (w : World) (rails : Dict Json) (rs : List String) (ps : Dict String)
    → Each (verify_rail w rails) rs ps
    → (hs : List String) × (ps ≡ pair_up rs hs) × AllAlive w rails rs hs
rails_alive w rails [] [] e = ([], refl, tt)
rails_alive w rails [] (p ∷ ps) e = elim e [ ]
rails_alive w rails (r ∷ rs) [] e = elim e [ ]
rails_alive w rails (r ∷ rs) ((r', h) ∷ ps) e =
    let (hs, q, a) = rails_alive w rails rs ps e.1 in
    let (s, alive) = verify_rail-RailAlive w rails r (r', h) e.0 in
    (h ∷ hs, λ i. (s i, h) ∷ q i, (alive, a))

each_rail :
    (w : World) (rails : Dict Json) (rs hs : List String)
    → AllAlive w rails rs hs
    → traverse (verify_rail w rails) rs ≡ ok (pair_up rs hs)
unfolding traverse ◌>>=◌
each_rail w rails [] [] a = refl
each_rail w rails [] (h ∷ hs) a = elim a [ ]
each_rail w rails (r ∷ rs) [] a = elim a [ ]
each_rail w rails (r ∷ rs) (h ∷ hs) a =
    rw (verify_rail_of_RailAlive w rails r h a.0, each_rail w rails rs hs a.1)

-- The five rails are alive, each on its own result, and the rails of each differential group
-- have one result hash.
pub record RailsAgree (w : World) (crown : Dict Json) (e : RailEvidence) : Type 0 where
  pub rails : Dict Json
  pub hashes : List String
  pub groups : List Json
  pub object : as_dict (get "rails" crown) ≡ some rails
  pub exact : (rail : String) → contains (keys rails) rail ≡ contains required_rails rail
  pub alive : AllAlive w rails required_rails hashes
  pub recorded : e.result_hashes ≡ pair_up required_rails hashes
  pub sorted_rails : e.rails ≡ required_rails
  pub listed : as_list (get "rail_differential_groups" crown) ≡ some groups
  pub some_group : (g : Json) × (gs : List Json) × (groups ≡ g ∷ gs)
  pub agree : All (Agrees e.result_hashes) groups

sorted-keys :
    (w : World) (rails : Dict Json) (hs : List String)
    → AllAlive w rails required_rails hs
    → sorted (keys (pair_up required_rails hs)) ≡ required_rails
unfolding sorted
sorted-keys w rails (a ∷ b ∷ c ∷ d ∷ e ∷ []) p = refl
sorted-keys w rails [] p = elim p [ ]
sorted-keys w rails (a ∷ []) p = elim p.1 [ ]
sorted-keys w rails (a ∷ b ∷ []) p = elim p.1.1 [ ]
sorted-keys w rails (a ∷ b ∷ c ∷ []) p = elim p.1.1.1 [ ]
sorted-keys w rails (a ∷ b ∷ c ∷ d ∷ []) p = elim p.1.1.1.1 [ ]
sorted-keys w rails (a ∷ b ∷ c ∷ d ∷ e ∷ f ∷ hs) p = elim p.1.1.1.1.1 [ ]

pub verify_rails-RailsAgree :
    (w : World) (crown : Dict Json) (e : RailEvidence)
    → verify_rails w crown ≡ ok e
    → RailsAgree w crown e
unfolding verify_rails
verify_rails-RailsAgree w crown e h = from_expect _ _ _ h λ rails object h.
    from_require _ _ _ h λ exact h. from_bind _ _ h λ ps each h.
      from_expect _ _ _ h λ groups listed h. from_require _ _ _ h λ filled h.
        from_bind _ _ h λ us agreed h.
          let (hs, recorded, alive) =
            rails_alive w rails required_rails ps (traverse-Each _ _ ps each) in
          subst (RailsAgree w crown) (ok-injective h) (record {
            rails = rails;
            hashes = hs;
            groups = groups;
            object = object;
            exact = (same_set_iff _ _).0 exact;
            alive = alive;
            recorded = recorded;
            sorted_rails = ap (λ d. sorted (keys d)) recorded ∙ sorted-keys w rails hs alive;
            listed = listed;
            some_group = not_empty groups filled;
            agree = All-groups ps groups (Each-All _ groups us (traverse-Each _ _ us agreed));
          })

pub verify_rails_of_RailsAgree :
    (w : World) (crown : Dict Json) (e : RailEvidence)
    → RailsAgree w crown e
    → verify_rails w crown ≡ ok e
unfolding verify_rails
verify_rails_of_RailsAgree w crown e a =
    let d = pair_up required_rails a.hashes in
    let (us, agreed) =
      each_group d a.groups (subst (λ x. All (Agrees x) a.groups) a.recorded a.agree) in
    rw
      (
        a.object,
        ok-bind,
        (same_set_iff (keys a.rails) required_rails).1 a.exact,
        ok-bind,
        each_rail w a.rails required_rails a.hashes a.alive,
        ok-bind,
        a.listed,
        ok-bind,
        filled a.groups a.some_group,
        ok-bind,
        agreed,
        ok-bind,
      )
      (cc (sorted-keys w a.rails a.hashes a.alive, a.sorted_rails, a.recorded))

-- The rails are accepted exactly if the crown has the five required rails and no other, each
-- alive on an attested artifact and an attested result whose canonical hash it states, and if
-- there is a differential group and the members of each group are rails with one result hash.
pub verify_rails_iff :
    (w : World) (crown : Dict Json) (e : RailEvidence)
    → (verify_rails w crown ≡ ok e) ↔ RailsAgree w crown e
verify_rails_iff w crown e =
    (verify_rails-RailsAgree w crown e, verify_rails_of_RailsAgree w crown e)
