-- ===== src/Crown/Receipts.antt =====
-- `verify_receipts`: every replayed receipt matches its chain and grants no retry.
pub mod Laws
use ex4pm.Prelude.{
  ℕ, Bool, true, not, Result, ok, ◌>>=◌, ◌>>◌, require, expect, traverse, is_empty, enumerate,
  length,
}
use ex4pm.Json.{Json, Dict, null, get, as_dict, as_list, is_str}
use ex4pm.Crown.World.{
  World, Failure, receipt_replay, missing_receipts, invalid_receipt, not_chain_match, grants_retry,
}
use ex4pm.Crown.Evidence.{load_verified_json}

-- `value in (None, "none")`
abbrev pub grants_nothing : Json → Bool
grants_nothing null = true
grants_nothing v = is_str v "none"

module _ (w : World) where
  unfoldable pub verify_receipt : ℕ × Json → Result Failure (Unit {0})
  verify_receipt (index, entry) = do
    e ← expect (as_dict entry) (invalid_receipt index)
    evidence ← load_verified_json w e (receipt_replay index)
    require (is_str (get "replay" evidence) "chain_match") (not_chain_match index)
    require (grants_nothing (get "retry_authority" evidence)) (grants_retry index)

  unfoldable pub verify_receipts : Dict Json → Result Failure ℕ
  verify_receipts crown = do
    receipts ← expect (as_list (get "receipt_replays" crown)) missing_receipts
    require (not (is_empty receipts)) missing_receipts
    _ ← traverse verify_receipt (enumerate 0 receipts)
    ok (length receipts)
