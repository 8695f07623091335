-- ===== src/Topology/Field.antt =====
-- Where `field` finds its value.
use ex4pm.Prelude.{String, refl, sym, ap, ◌∙◌, subst, ◌≡◌, ◌↔◌, ◌⊎◌, inl, inr, Option, none, some}
use ex4pm.Json.{Json, Dict, Fields, null, str, dict, entries, get, as_dict, lookup, value_or}
use ex4pm.Topology.{field, dict_or_empty, or_else}

-- The value is an object with this entry, or none with that name.
abbrev pub HasEntry : Json → String → Json → Type 0
HasEntry value name v = (fs : Fields) × (value ≡ dict fs) × (lookup name (entries fs) ≡ some v)

abbrev pub LacksEntry : Json → String → Type 0
LacksEntry value name = (fs : Fields) → value ≡ dict fs → lookup name (entries fs) ≡ none

-- The metadata of the machine's configuration: an object within an object
abbrev pub InConfig : Dict Json → String → Json → Type 0
InConfig machine name v =
    (config : Fields) × (get "config" machine ≡ dict config)
    × HasEntry (get "metadata" (entries config)) name v

abbrev pub NotInConfig : Dict Json → String → Type 0
NotInConfig machine name =
    (config : Fields)
    → get "config" machine ≡ dict config
    → LacksEntry (get "metadata" (entries config)) name

-- The machine gives this value for the field: itself, or else the metadata of its configuration, or
-- else its own metadata.
abbrev pub Gives : Dict Json → String → Json → Type 0
Gives machine name v =
    (lookup name machine ≡ some v)
    ⊎ ((lookup name machine ≡ none)
        × (InConfig machine name v
            ⊎ (NotInConfig machine name × HasEntry (get "metadata" machine) name v)))

-- None of the three has the field.
abbrev pub GivesNothing : Dict Json → String → Type 0
GivesNothing machine name =
    (lookup name machine ≡ none)
    × NotInConfig machine name
    × LacksEntry (get "metadata" machine) name

-- What a file shows for a field that need not be given
abbrev pub FieldOrNull : Dict Json → String → Json → Type 0
FieldOrNull machine name v = Gives machine name v ⊎ (GivesNothing machine name × (v ≡ null))

-- An object's entry, read as `field` reads it
abbrev entry : String → Json → Option Json
entry name value = lookup name (dict_or_empty (as_dict value))

entry-eq-some :
    (name : String) (value : Json) {v : Json} → entry name value ≡ some v → HasEntry value name v
entry-eq-some name (dict fs) h = (fs, refl, h)
entry-eq-some name value h = absurd (cc)

entry-HasEntry :
    (name : String) (value v : Json) → HasEntry value name v → entry name value ≡ some v
entry-HasEntry name value v (fs, e, h) = rw e h

entry-eq-none : (name : String) (value : Json) → entry name value ≡ none → LacksEntry value name
entry-eq-none name value h fs e = sym (ap (entry name) e) ∙ h

entry-LacksEntry : (name : String) (value : Json) → LacksEntry value name → entry name value ≡ none
entry-LacksEntry name (dict fs) l = l fs refl
entry-LacksEntry name value l = refl

module _ (machine : Dict Json) (name : String) where
  abbrev config_entry : Option Json
  config_entry = entry name (get "metadata" (dict_or_empty (as_dict (get "config" machine))))

  config-eq-some :
      (config : Json) {v : Json}
      → get "config" machine ≡ config
      → entry name (get "metadata" (dict_or_empty (as_dict config))) ≡ some v
      → InConfig machine name v
  config-eq-some (dict fs) e h = (fs, e, entry-eq-some name (get "metadata" (entries fs)) h)
  config-eq-some config e h = absurd (cc)

  config-InConfig : (v : Json) → InConfig machine name v → config_entry ≡ some v
  config-InConfig v (fs, e, h) = rw e (entry-HasEntry name (get "metadata" (entries fs)) v h)

  config-eq-none : config_entry ≡ none → NotInConfig machine name
  config-eq-none h fs e =
      entry-eq-none name (get "metadata" (entries fs))
        (sym (ap (λ c. entry name (get "metadata" (dict_or_empty (as_dict c)))) e) ∙ h)

  config-NotInConfig :
      (config : Json)
      → get "config" machine ≡ config
      → NotInConfig machine name
      → entry name (get "metadata" (dict_or_empty (as_dict config))) ≡ none
  config-NotInConfig (dict fs) e n = entry-LacksEntry name (get "metadata" (entries fs)) (n fs e)
  config-NotInConfig config e n = refl

  found_in :
      (a b c : Option Json)
      → lookup name machine ≡ a
      → config_entry ≡ b
      → entry name (get "metadata" machine) ≡ c
      → FieldOrNull machine name (value_or null (or_else a (or_else b c)))
  found_in (some v) b c ea eb ec = inl (inl ea)
  found_in none (some v) c ea eb ec =
      inl (inr (ea, inl (config-eq-some (get "config" machine) refl eb)))
  found_in none none (some v) ea eb ec =
      inl (inr (ea, inr (config-eq-none eb, entry-eq-some name (get "metadata" machine) ec)))
  found_in none none none ea eb ec =
      inr ((ea, config-eq-none eb, entry-eq-none name (get "metadata" machine) ec), refl)

  pub field-FieldOrNull : FieldOrNull machine name (field machine name)
  unfolding field
  field-FieldOrNull =
      found_in (lookup name machine) config_entry (entry name (get "metadata" machine)) refl refl
        refl

  pub field-Gives : (v : Json) → Gives machine name v → field machine name ≡ v
  unfolding field
  field-Gives v (inl h) = rw h refl
  field-Gives v (inr (h, inl c)) = rw (h, config-InConfig v c) refl
  field-Gives v (inr (h, inr (n, m))) =
      rw
        (
          h,
          config-NotInConfig (get "config" machine) refl n,
          entry-HasEntry name (get "metadata" machine) v m,
        )
        refl

  field-GivesNothing : GivesNothing machine name → field machine name ≡ null
  unfolding field
  field-GivesNothing (h, n, l) =
      rw
        (
          h,
          config-NotInConfig (get "config" machine) refl n,
          entry-LacksEntry name (get "metadata" machine) l,
        )
        refl

  -- `field` gives the value that the three places determine.
  pub field_iff : (v : Json) → (field machine name ≡ v) ↔ FieldOrNull machine name v
  field_iff v = (
    λ e. subst (FieldOrNull machine name) e field-FieldOrNull,
    λ h. elim h [
      | inl g ↦ field-Gives v g
      | inr (nowhere, is_null) ↦ field-GivesNothing nowhere ∙ sym is_null
    ],
  )

  pub field_text_iff : (s : String) → (field machine name ≡ str s) ↔ Gives machine name (str s)
  field_text_iff s = (
    λ e. elim ((field_iff (str s)).0 e) [ inl g ↦ g | inr (nowhere, is_null) ↦ absurd (cc) ],
    field-Gives (str s),
  )
