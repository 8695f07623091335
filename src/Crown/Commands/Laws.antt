-- ===== src/Crown/Commands/Laws.antt =====
-- What `verify_commands` accepts.
use ex4pm.Prelude.{
  zero, suc, refl, Bool, ◌⊎◌, inr, inl, ◌↔◌, string_Eq, false, ◌==◌, arith, ok-injective, subst,
  traverse-Zip, from_bind, Zip-traverse, Zip, from_require, from_expect, ◌∷◌, true, ok-bind, some,
  ℕ, String, ◌≡◌, List,
}
use ex4pm.Json.{
  nan, infinity, finite, null, list, dict, str, float, ℤ, negsuc, pos, bool, int, Json, Dict, get,
  as_dict, as_list, is_zero,
}
use ex4pm.Json.Laws.{as_str-eq-some}
use ex4pm.Crown.Rails.Groups.{not_empty, filled}
use ex4pm.Crown.Commands.{ok, verify_command, verify_commands}
use ex4pm.Crown.World.{World}
use ex4pm.Crown.Evidence.Laws.{Attested, verify_file-Attested, verify_file_of_Attested}

-- The exit is equal to 0 as Python compares: the integer, `False` and a zero float are.
abbrev pub EqualsZero : Json → Type 0
EqualsZero v =
    (v ≡ int (pos 0))
    ⊎ ((v ≡ bool false) ⊎ ((negative : Bool) × (e : ℤ) × (v ≡ float (finite negative 0 e))))

is_zero-EqualsZero : (v : Json) → is_zero v ≡ true → EqualsZero v
is_zero-EqualsZero (bool true) h = cc
is_zero-EqualsZero (bool false) h = inr (inl refl)
is_zero-EqualsZero (int (pos zero)) h = inl refl
is_zero-EqualsZero (int (pos (suc n))) h = cc
is_zero-EqualsZero (int (negsuc n)) h = cc
is_zero-EqualsZero (float (finite negative zero e)) h = inr (inr (negative, e, refl))
is_zero-EqualsZero (float (finite negative (suc m) e)) h = cc
is_zero-EqualsZero (float (infinity negative)) h = cc
is_zero-EqualsZero (float nan) h = cc
is_zero-EqualsZero null h = cc
is_zero-EqualsZero (str s) h = cc
is_zero-EqualsZero (list xs) h = cc
is_zero-EqualsZero (dict fs) h = cc

EqualsZero-is_zero : (v : Json) → EqualsZero v → is_zero v ≡ true
EqualsZero-is_zero v z = elim z [
  | inl e ↦ rw e
  | inr r ↦ elim r [ inl e ↦ rw e | inr (negative, e, p) ↦ rw p ]
]

-- The command ended with an exit that is equal to 0, and its log is attested.
pub record CommandEvidence (w : World) (entry : Json) (command : String) : Type 0 where
  pub e : Dict Json
  pub log : Dict Json
  pub path : List String
  pub object : as_dict entry ≡ some e
  pub exit_zero : EqualsZero (get "exit" e)
  pub has_log : as_dict (get "log" e) ≡ some log
  pub attested : Attested w log path
  pub identity : get "command" e ≡ str command
  pub named : (command == "") ≡ false

verify_command-CommandEvidence :
    (w : World) (i : ℕ) (entry : Json) (command : String)
    → verify_command w (i, entry) ≡ ok command
    → CommandEvidence w entry command
unfolding verify_command
verify_command-CommandEvidence w i entry command h = from_expect _ _ _ h λ e object h.
    from_require _ _ _ h λ exit_zero h. from_expect _ _ _ h λ log has_log h.
      from_bind _ _ h λ path file h. from_expect _ _ _ h λ command' identity h.
        from_require _ _ _ h λ named h. subst (CommandEvidence w entry) (ok-injective h) (record {
          e = e;
          log = log;
          path = path;
          object = object;
          exit_zero = is_zero-EqualsZero _ exit_zero;
          has_log = has_log;
          attested = verify_file-Attested w log _ path file;
          identity = as_str-eq-some _ identity;
          named = ground arith;
        })

verify_command_of_CommandEvidence :
    (w : World) (i : ℕ) (entry : Json) (command : String)
    → CommandEvidence w entry command
    → verify_command w (i, entry) ≡ ok command
unfolding verify_command
verify_command_of_CommandEvidence w i entry command c = rw (
  c.object,
  ok-bind,
  EqualsZero-is_zero _ c.exit_zero,
  ok-bind,
  c.has_log,
  ok-bind,
  verify_file_of_Attested w c.log _ c.attested,
  ok-bind,
  c.identity,
  ok-bind,
  c.named,
  ok-bind,
)

-- There is a command, and each has its evidence; the result lists their identities in order.
pub record CommandsProven (w : World) (crown : Dict Json) (verified : List String) : Type 0 where
  pub commands : List Json
  pub listed : as_list (get "commands" crown) ≡ some commands
  pub some_command : (c : Json) × (cs : List Json) × (commands ≡ c ∷ cs)
  pub evidenced : Zip (CommandEvidence w) commands verified

pub verify_commands-CommandsProven :
    (w : World) (crown : Dict Json) (verified : List String)
    → verify_commands w crown ≡ ok verified
    → CommandsProven w crown verified
unfolding verify_commands
verify_commands-CommandsProven w crown verified h = from_expect _ _ _ h λ commands listed h.
    from_require _ _ _ h λ filled h. record {
      commands = commands;
      listed = listed;
      some_command = not_empty commands filled;
      evidenced = traverse-Zip _ _ (verify_command-CommandEvidence w) 0 commands verified h;
    }

pub verify_commands_of_CommandsProven :
    (w : World) (crown : Dict Json) (verified : List String)
    → CommandsProven w crown verified
    → verify_commands w crown ≡ ok verified
unfolding verify_commands
verify_commands_of_CommandsProven w crown verified p =
    rw (p.listed, ok-bind, filled p.commands p.some_command, ok-bind)
      (Zip-traverse (verify_command w) (CommandEvidence w) (verify_command_of_CommandEvidence w) 0
        p.commands verified p.evidenced)

-- The commands are accepted exactly if there is one, and each has an exit equal to 0, an attested
-- log and a name; the result lists the names in order.
pub verify_commands_iff :
    (w : World) (crown : Dict Json) (verified : List String)
    → (verify_commands w crown ≡ ok verified) ↔ CommandsProven w crown verified
verify_commands_iff w crown verified = (
  verify_commands-CommandsProven w crown verified,
  verify_commands_of_CommandsProven w crown verified,
)
