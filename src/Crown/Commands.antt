-- ===== src/Crown/Commands.antt =====
-- `verify_commands`: every command ended well, and its log is the one that the crown names.
pub mod Laws
use ex4pm.Prelude.{
  ℕ, String, not, List, Result, ok, ◌>>=◌, ◌>>◌, require, expect, traverse, ◌==◌, string_Eq,
  is_empty, enumerate,
}
use ex4pm.Json.{Json, Dict, get, as_dict, as_list, as_str, is_zero}
use ex4pm.Crown.World.{
  World, Failure, command_log, missing_commands, bad_exit, lacks_log, lacks_command,
}
use ex4pm.Crown.Evidence.{verify_file}

module _ (w : World) where
  -- The body of the loop: the command's identity
  unfoldable pub verify_command : ℕ × Json → Result Failure String
  verify_command (index, entry) = do
    e ← expect (as_dict entry) (bad_exit index)
    require (is_zero (get "exit" e)) (bad_exit index)
    log ← expect (as_dict (get "log" e)) (lacks_log index)
    _ ← verify_file w log (command_log index)
    command ← expect (as_str (get "command" e)) (lacks_command index)
    require (not (command == "")) (lacks_command index)
    ok command

  unfoldable pub verify_commands : Dict Json → Result Failure (List String)
  verify_commands crown = do
    commands ← expect (as_list (get "commands" crown)) missing_commands
    require (not (is_empty commands)) missing_commands
    traverse verify_command (enumerate 0 commands)
