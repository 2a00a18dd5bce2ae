-- ===== src/Decision/Inspector/Dicts.antt =====
-- apps/decision-engine/decision_engine/local_code.py: the methods `to_dict`, which make a hit the evidence of a report.
use ai_troubleshooter.Prelude.{
  ℕ, String, Bool, true, false, not, ◌&&◌, Option, none, some, List, [], ◌∷◌, nat_eq, is_empty,
  if◌then◌else◌, ◌==◌,
}
use ai_troubleshooter.Python.{
  Value, Fields, Items, str, int, pos, float, list, dict, nil, cons, field, end,
}
use ai_troubleshooter.Decision.Inspector.Words.{CodeSymbol, CallEdge, ImplementRelation}
use ai_troubleshooter.Decision.Inspector.Excerpt.{ExcerptLine}
use ai_troubleshooter.Decision.Inspector.Hits.{LocalCodeHit}

-- The keys of a dictionary, each with a value, in front of others.
abbrev pub given : Bool → String → Value → Fields → Fields
given true key value rest = field key value rest
given false key value rest = rest

abbrev items_of : {A : Type 0} → (A → Value) → List A → Items
items_of f [] = nil
items_of f (x ∷ xs) = cons (f x) (items_of f xs)

abbrev number : ℕ → Value
number n = int (pos n)

-- the methods `to_dict`
unfoldable pub symbol_dict : CodeSymbol → Value
symbol_dict s = dict (
    field "name" (str s.name) (
      field "kind" (str s.kind) (
        field "file_path" (str s.file_path) (
          field "line_number" (number s.line_number) (
            field "language" (str s.language)
              (given (not (s.owner == "")) "owner" (str s.owner) end))))))

unfoldable pub edge_dict : CallEdge → Value
unfolding symbol_dict
edge_dict e =
    let resolved = not (is_empty e.resolved_symbols) in
    dict (
      field "caller" (str e.caller) (
        field "callee" (str e.callee) (
          field "file_path" (str e.file_path) (
            field "line_number" (number e.line_number) (
              field "language" (str e.language) (
                given (not (e.receiver == "")) "receiver" (str e.receiver) (
                  given (not (e.receiver_type == "")) "receiver_type" (str e.receiver_type) (
                    given resolved "resolved_symbols"
                      (list (items_of symbol_dict e.resolved_symbols))
                      (given resolved "resolution_kind" (str e.resolution_kind)
                        (given resolved "confidence" (float e.confidence) end))))))))))

unfoldable pub relation_dict : ImplementRelation → Value
relation_dict r = dict (
    field "type_name" (str r.type_name) (
      field "interface_name" (str r.interface_name) (
        field "file_path" (str r.file_path)
          (field "line_number" (number r.line_number) (field "language" (str r.language) end)))))

abbrev excerpt_dict : ExcerptLine → Value
excerpt_dict line =
    dict (field "line_number" (number line.line_number) (field "text" (str line.text) end))

abbrev given_symbol : Option CodeSymbol → Fields → Fields
given_symbol none rest = rest
given_symbol (some s) rest = field "primary_symbol" (symbol_dict s) rest

abbrev given_range : ℕ × ℕ → Fields → Fields
given_range (first, last) rest =
    if nat_eq first 0 && nat_eq last 0
    then rest
    else field "line_range" (dict (field "start" (number first) (field "end" (number last) end)))
        rest

unfoldable pub hit_dict : LocalCodeHit → Fields
unfolding symbol_dict edge_dict relation_dict
hit_dict h = field "file_path" (str h.file_path) (
    field "matched_terms" (list (items_of str h.matched_terms)) (
      field "line_numbers" (list (items_of number h.line_numbers)) (
        given_symbol h.primary_symbol (
          given_range h.line_range (
            given (not (is_empty h.code_excerpt)) "code_excerpt"
              (list (items_of excerpt_dict h.code_excerpt))
              (given (not (is_empty h.suspect_reasons)) "suspect_reasons"
                (list (items_of str h.suspect_reasons))
                (given (not (is_empty h.follow_up_checks)) "follow_up_checks"
                  (list (items_of str h.follow_up_checks))
                  (given (not (is_empty h.symbols)) "symbols"
                    (list (items_of symbol_dict h.symbols))
                    (given (not (is_empty h.call_edges)) "call_edges"
                      (list (items_of edge_dict h.call_edges))
                      (given (not (is_empty h.implement_relations)) "implement_relations"
                        (list (items_of relation_dict h.implement_relations))
                        (given (not (is_empty h.analysis_modes)) "analysis_modes"
                          (list (items_of str h.analysis_modes)) end)))))))))))
