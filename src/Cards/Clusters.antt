-- ===== src/Cards/Clusters.antt =====
-- `cluster_for`: the cluster of a path below lib/ex4pm.
pub mod Laws
use ex4pm.Prelude.{
  String, Bool, true, ◌||◌, List, [], ◌∷◌, Option, none, some, any, ◌==◌, string_Eq, if◌then◌else◌,
}
use ex4pm.Json.{Dict, lookup, keys}
use ex4pm.Text.{sorted, is_prefix}

abbrev pub cluster_prefixes : Dict (List String)
cluster_prefixes =
    ("evidence", "evidence.ex" ∷ "evidence/" ∷ [])
    ∷ ("ocel", "ocel.ex" ∷ "ocel2.ex" ∷ "ocel_writer.ex" ∷ "xes.ex" ∷ "powl.ex" ∷ "domain/" ∷ [])
    ∷ ("engine", "engine.ex" ∷ "engine/" ∷ [])
    ∷ ("information", "information.ex" ∷ "information/" ∷ [])
    ∷ ("runtime", "runtime.ex" ∷ "runtime/" ∷ [])
    ∷ ("stream", "stream.ex" ∷ "stream/" ∷ [])
    ∷ ("qualification", "qualification.ex" ∷ "qualification/" ∷ [])
    ∷ ("explore", "explore.ex" ∷ "explore/" ∷ [])
    ∷ (
      "core",
      "core.ex" ∷ "core/" ∷ "contracts.ex" ∷ "standing_coded.ex" ∷ "economic_isa.ex" ∷ "gall.ex"
          ∷ "aloop.ex" ∷ "reactor.ex" ∷ "cli.ex" ∷ "application.ex" ∷ [],
    )
    ∷ []

abbrev pub list_or_empty : {A : Type 0} → Option (List A) → List A
list_or_empty none = []
list_or_empty (some xs) = xs

abbrev pub prefixes_of : String → List String
prefixes_of cluster = list_or_empty (lookup cluster cluster_prefixes)

-- The inner loop
abbrev pub has_prefix : String → List String → Bool
has_prefix rel prefixes = any (λ prefix. rel == prefix || is_prefix prefix rel) prefixes

unfoldable pub first_cluster : String → List String → Option String
first_cluster rel [] = none
first_cluster rel (cluster ∷ clusters) =
    let later = first_cluster rel clusters in
    if has_prefix rel (prefixes_of cluster) then some cluster else later

unfoldable pub cluster_for : String → Option String
cluster_for rel = first_cluster rel (sorted (keys cluster_prefixes))
