-- ===== src/Decision/Tools/Required.antt =====
-- Which fields `missing_fields` asks for.
use ai_troubleshooter.Prelude.{String, Bool, not, ◌&&◌, ◌||◌, arith, is_empty, ◌≡◌}
use ai_troubleshooter.Decision.Models.{DecisionRequest}
use ai_troubleshooter.Decision.Tools.{lacks, missing_fields}

abbrev pub has : DecisionRequest → String → Bool
has request key = not (lacks request key)

-- Nothing is missing exactly when the fields of the domain are given: for kline the four of its
-- table; for asset its three and one of the two account keys; for health_food the issue type and one
-- of the two user keys.
pub is_empty-missing_fields :
    (request : DecisionRequest)
    → (is_empty (missing_fields request "kline") ≡ (
        has request "symbol"
        && has request "interval"
        && has request "abnormal_time"
        && has request "issue_type"))
      × (is_empty (missing_fields request "asset") ≡ (
          has request "asset_symbol"
          && has request "abnormal_time"
          && has request "issue_type"
          && (has request "user_id" || has request "account_id")))
      × (is_empty (missing_fields request "health_food")
          ≡ (has request "issue_type" && (has request "user_id" || has request "uid")))
unfolding missing_fields
is_empty-missing_fields request = (ground arith, ground arith, ground arith)
