-- ===== src/Tests/Capabilities.antt =====
-- Items of a capability manifest.
use ai_troubleshooter.Prelude.{
  true, false, not, ◌||◌, some, [], ◌∷◌, any, mem, strip, lstrip, rstrip, is_space, contains, join,
  ◌==◌, ◌≡◌, refl,
}
use ai_troubleshooter.Python.{Fields, str, field, end, to_text, or_value, get, truthy}
use ai_troubleshooter.Platform.Capabilities.{
  WordOrder, danger_words, read_words, has_word, signal_of, assess_safety, normalize_path, collapse,
  name_chars, drop_leading, drop_trailing, first_word, normalize_tool_name, CapabilityVerdict,
  import_item,
}
use ai_troubleshooter.Platform.Capabilities.Names.{
  starts_with_slash, has_double_slash, normalize_path-shape, all_name_chars, ends_with_underscore,
  normalize_tool_name-shape,
}
use ai_troubleshooter.Platform.Capabilities.Verdict.{
  assess_safety-rejected, IsDraft, import_item-IsDraft,
}
use ai_troubleshooter.Tests.{ascii}

abbrev source_order : WordOrder
source_order = record { danger = danger_words; read = read_words }

normalize_path-shape_example :
    (starts_with_slash (normalize_path " //a//b/") ≡ true)
    × (has_double_slash (normalize_path " //a//b/") ≡ false)
normalize_path-shape_example = normalize_path-shape " //a//b/"

normalize_tool_name-shape_example :
    (all_name_chars (normalize_tool_name ⦃py = ascii⦄ "Get-User/profile!") ≡ true)
    × (ends_with_underscore (normalize_tool_name ⦃py = ascii⦄ "Get-User/profile!") ≡ false)
normalize_tool_name-shape_example = normalize_tool_name-shape ⦃py = ascii⦄ "Get-User/profile!"

assess_safety-rejected_example :
    ((assess_safety ⦃py = ascii⦄ source_order "drop_user" "" "POST" "/readonly/u" "").safety_status
      == "rejected")
    ≡ (not (mem "POST" ("GET" ∷ "POST" ∷ []))
        || any (has_word (signal_of ⦃py = ascii⦄ "drop_user" "" "/readonly/u" "")) danger_words)
assess_safety-rejected_example =
    assess_safety-rejected ⦃py = ascii⦄ source_order "drop_user" "" "POST" "/readonly/u" ""
      (λ w. refl)

abbrev raw_item : Fields
raw_item =
    field "tool_name" (str "Get-Quota!")
      (field "method" (str "get") (field "path" (str "api//readonly/quota") end))

abbrev draft : CapabilityVerdict
draft = record {
  tool_name = "get_quota";
  method = "GET";
  path = "/api/readonly/quota";
  safety_status = "readonly_candidate";
  safety_reasons = "readonly signal: get" ∷ [];
  tool_status = "draft";
  approval_status = "pending";
}

import_runs : import_item ⦃py = ascii⦄ source_order raw_item ≡ some draft
unfolding import_item normalize_tool_name normalize_path assess_safety collapse name_chars
    drop_leading drop_trailing first_word has_word contains join strip lstrip rstrip is_space
    to_text or_value get truthy
import_runs = refl

import_item-IsDraft_example : IsDraft ⦃py = ascii⦄ raw_item draft
import_item-IsDraft_example =
    import_item-IsDraft ⦃py = ascii⦄ source_order raw_item draft (λ w. refl) import_runs refl
