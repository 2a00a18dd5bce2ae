-- ===== src/Platform/Capabilities.antt =====
-- apps/agent-platform/agent_platform/capabilities.py: how the importer names a capability, cleans its path and
-- judges whether it only reads.
--
-- `DANGER_WORDS` and `READ_WORDS` are sets, whose order in a loop is the interpreter's: it is an
-- argument. The words are looked for with `re`, whose patterns are written out.
pub mod Verdict
pub mod Names
use Prim.Native.Char.{Char, code}
use ai_troubleshooter.Prelude.{
  ℕ, String, Bool, true, false, not, ◌||◌, ◌&&◌, Option, none, some, List, [], ◌∷◌, ◌++◌, any, mem,
  filterb, strip, contains, join, leb, nat_eq, or_else, is_empty, if◌then◌else◌, ◌==◌, ◌<>◌,
}
use ai_troubleshooter.Python.{Runtime, Fields}
use ai_troubleshooter.Platform.Brief.{field_text}

abbrev pub danger_words : List String
danger_words =
    "delete" ∷ "remove" ∷ "drop" ∷ "truncate" ∷ "insert" ∷ "update" ∷ "upsert" ∷ "create" ∷ "write"
    ∷ "execute" ∷ "exec" ∷ "run" ∷ "shell" ∷ "command" ∷ "deploy" ∷ "restart" ∷ "approve" ∷ "refund"
    ∷ "pay" ∷ "transfer" ∷ "send" ∷ "grant" ∷ "revoke" ∷ "disable" ∷ "enable" ∷ []

abbrev pub read_words : List String
read_words =
    "get" ∷ "list" ∷ "search" ∷ "query" ∷ "read" ∷ "find" ∷ "describe" ∷ "profile" ∷ "status"
    ∷ "quota" ∷ "logs" ∷ "snapshot" ∷ "events" ∷ "compare" ∷ []

-- The orders in which the loops run through the two sets.
pub record WordOrder : Type 0 where
  pub danger : List String
  pub read : List String

-- `[a-z0-9]`
abbrev is_alnum : Char → Bool
is_alnum c = leb 97 (code c) && leb (code c) 122 || leb 48 (code c) && leb (code c) 57

-- what is left of a text behind a word
after_word : String → String → Option String
after_word String.[] s = some s
after_word (String.◌∷◌ c word) String.[] = none
after_word (String.◌∷◌ c word) (String.◌∷◌ d s) =
    let rest = after_word word s in if nat_eq (code c) (code d) then rest else none

-- `([^a-z0-9]|$)`
at_end : Option String → Bool
at_end none = false
at_end (some String.[]) = true
at_end (some (String.◌∷◌ c s)) = not (is_alnum c)

-- the search from a place that is behind a letter or digit, or not
word_from : Bool → String → String → Bool
unfolding after_word at_end
word_from inside word String.[] = false
word_from inside word (String.◌∷◌ c s) =
    not inside && at_end (after_word word (String.◌∷◌ c s)) || word_from (is_alnum c) word s

-- `re.search(rf"(^|[^a-z0-9]){word}([^a-z0-9]|$)", signal)`
unfoldable pub has_word : String → String → Bool
unfolding word_from
has_word signal word = word_from false word signal

-- the first word of a loop that passes the test
unfoldable pub first_word : (String → Bool) → List String → Option String
first_word p [] = none
first_word p (word ∷ rest) = let later = first_word p rest in if p word then some word else later

pub record Assessment : Type 0 where
  pub safety_status : String
  pub reasons : List String

abbrev read_assessment : Option String → Assessment
read_assessment (some word) = record {
  safety_status = "readonly_candidate";
  reasons = ("readonly signal: " <> word) ∷ [];
}
read_assessment none = record {
  safety_status = "needs_review";
  reasons = "no clear readonly signal; manual review required" ∷ [];
}

abbrev danger_assessment : Option String → Assessment → Assessment
danger_assessment (some word) other = record {
  safety_status = "rejected";
  reasons = ("dangerous action keyword: " <> word) ∷ [];
}
danger_assessment none other = other

-- `lstrip("/")`
drop_slashes : String → String
drop_slashes String.[] = ""
drop_slashes (String.◌∷◌ c s) =
    let rest = drop_slashes s in if nat_eq (code c) 47 then rest else String.◌∷◌ c s

-- `re.sub(r"/+", "/", value)`, from a place behind a slash or not
unfoldable pub collapse : Bool → String → String
collapse behind String.[] = ""
collapse behind (String.◌∷◌ c s) =
    let slash = collapse true s in
    let other = collapse false s in
    if nat_eq (code c) 47
    then (if behind then slash else String.◌∷◌ c slash)
    else String.◌∷◌ c other

-- `_normalize_path`
unfoldable pub normalize_path : String → String
unfolding drop_slashes collapse strip
normalize_path value = collapse false (String.◌∷◌ "/" (drop_slashes (strip value)))

-- `[a-z0-9_]`
abbrev pub is_name_char : Char → Bool
is_name_char c = is_alnum c || nat_eq (code c) 95

-- `.replace("-", "_").replace("/", "_")`
underscores : String → String
underscores String.[] = ""
underscores (String.◌∷◌ c s) =
    if nat_eq (code c) 45 || nat_eq (code c) 47
    then String.◌∷◌ "_" (underscores s)
    else String.◌∷◌ c (underscores s)

-- `re.sub(r"[^a-z0-9_]+", "_", value)`, from a place inside a run or not
unfoldable pub name_chars : Bool → String → String
name_chars inside String.[] = ""
name_chars inside (String.◌∷◌ c s) =
    let run = name_chars true s in
    let other = name_chars false s in
    if is_name_char c then String.◌∷◌ c other else if inside then run else String.◌∷◌ "_" run

unfoldable pub drop_leading : String → String
drop_leading String.[] = ""
drop_leading (String.◌∷◌ c s) =
    let rest = drop_leading s in if nat_eq (code c) 95 then rest else String.◌∷◌ c s

unfoldable pub drop_trailing : String → String
drop_trailing String.[] = ""
drop_trailing (String.◌∷◌ c s) =
    let rest = drop_trailing s in if rest == "" && nat_eq (code c) 95 then "" else String.◌∷◌ c rest

module _ ⦃py : Runtime⦄ where
  -- `_normalize_tool_name`
  unfoldable pub normalize_tool_name : String → String
  unfolding underscores name_chars drop_leading drop_trailing strip
  normalize_tool_name value =
      drop_trailing (drop_leading (name_chars false (underscores (py.lower (strip value)))))

  abbrev pub signal_of : String → String → String → String → String
  signal_of tool_name description path scope =
      py.lower (join " " (tool_name ∷ description ∷ path ∷ scope ∷ []))

  -- `assess_safety`
  unfoldable pub assess_safety : WordOrder → String → String → String → String → String → Assessment
  unfolding first_word has_word contains join
  assess_safety order tool_name description method path scope =
      let signal = signal_of tool_name description path scope in
      if not (mem method ("GET" ∷ "POST" ∷ []))
      then record {
        safety_status = "rejected";
        reasons = ("method " <> method <> " is not allowed for readonly capability") ∷ [];
      }
      else danger_assessment (first_word (has_word signal) order.danger)
          (read_assessment (first_word (λ word. contains word signal) order.read))

-- What `import_capabilities` makes of one item of the manifest before it writes the row.
pub record CapabilityVerdict : Type 0 where
  pub tool_name : String
  pub method : String
  pub path : String
  pub safety_status : String
  pub safety_reasons : List String
  pub tool_status : String
  pub approval_status : String

abbrev verdict_of : String → String → String → Assessment → CapabilityVerdict
verdict_of tool_name method path assessed =
    let rejected = assessed.safety_status == "rejected" in
    record {
      tool_name = tool_name;
      method = method;
      path = path;
      safety_status = assessed.safety_status;
      safety_reasons = assessed.reasons;
      tool_status = if rejected then "rejected" else "draft";
      approval_status = if rejected then "rejected" else "pending";
    }

-- the test for `/readonly/`
abbrev under_readonly : String → Assessment → Assessment
under_readonly path assessed =
    if not (contains "/readonly/" path)
    then record {
      safety_status = "rejected";
      reasons = assessed.reasons ++ "readonly http path must be under /readonly/" ∷ [];
    }
    else assessed

module _ ⦃py : Runtime⦄ where
  -- The body of the loop over `capabilities`; `none` where it goes on with a warning.
  unfoldable pub import_item : WordOrder → Fields → Option CapabilityVerdict
  unfolding normalize_tool_name normalize_path assess_safety contains
  import_item order raw_item =
      let tool_name = normalize_tool_name (field_text raw_item "tool_name") in
      let method = py.upper (or_else (field_text raw_item "method") "POST") in
      let path = normalize_path (field_text raw_item "path") in
      let assessed =
        assess_safety order tool_name (field_text raw_item "description") method path
          (field_text raw_item "scope") in
      if tool_name == ""
      then none
      else some (verdict_of tool_name method path (under_readonly path assessed))
