-- ===== src/Platform/Brief/Hypotheses.antt =====
-- What holds of the hypotheses of a brief.
use ai_troubleshooter.Prelude.{
  ℕ, zero, suc, ◌≤◌, String, Bool, true, false, not, ◌||◌, ◌&&◌, List, [], ◌∷◌, ◌++◌, arith, map,
  take, length, length-take, any, mem, filterb, is_empty, All, All-append, All-take, inl, inr,
  Bool-cases, if◌then◌else◌, ◌==◌, ◌≡◌, refl, strip, is_space,
}
use ai_troubleshooter.Prelude.Distinct.{Distinct, snoc-Distinct, take-Distinct, filterb-All}
use ai_troubleshooter.Python.{Runtime, Fields}
use ai_troubleshooter.Decision.Models.{Entities, Hypothesis, KnowledgeCandidate}
use ai_troubleshooter.Decision.Verifier.{is_blank}
use ai_troubleshooter.Platform.Brief.{
  add, add_quota, add_generation, add_input, add_eligibility, add_errors, add_history, add_similar,
  add_health_food, hypotheses_for, tool_name_of, hypothesis_text, brief_hypotheses,
}

abbrev pub ids : List Hypothesis → List String
ids = map (λ h. h.id)

-- A hypothesis that an agent can follow: its id and its evidence are stated, its tools are available,
-- and it has one unless it is the one on experience.
pub record IsUsable (tool_names : List String) (h : Hypothesis) : Type 0 where
  pub named : is_blank h.id ≡ false
  pub stated : is_blank h.expected_evidence ≡ false
  pub available : All (λ name. mem name tool_names ≡ true) h.candidate_tools
  pub backed : (not (is_empty h.candidate_tools) || h.id == "historical_pattern") ≡ true

pub record IsBrief (tool_names : List String) (out : List Hypothesis) : Type 0 where
  pub distinct : Distinct (ids out)
  pub usable : All (IsUsable tool_names) out

any-mem : (id : String) (out : List Hypothesis) → any (λ h. h.id == id) out ≡ mem id (ids out)
any-mem id [] = refl
any-mem id (h ∷ out) = rw (any-mem id out)

ids-snoc : (out : List Hypothesis) (h : Hypothesis) → ids (out ++ h ∷ []) ≡ ids out ++ h.id ∷ []
ids-snoc [] h = refl
ids-snoc (g ∷ out) h = rw (ids-snoc out h)

ids-take : (n : ℕ) (out : List Hypothesis) → ids (take n out) ≡ take n (ids out)
ids-take zero out = refl
ids-take (suc n) [] = refl
ids-take (suc n) (h ∷ out) = rw (ids-take n out)

-- The hypothesis that a call of `add` is for: its texts are stated, and it needs a tool unless it is
-- the one on experience.
record IsStatedCall (id evidence : String) (needed : List String) : Type 0 where
  named : is_blank id ≡ false
  stated : is_blank evidence ≡ false
  backed : (not (is_empty needed) || id == "historical_pattern") ≡ true

module _ (tool_names : List String) where
  add-IsBrief :
      (id question evidence : String) (needed : List String) (out : List Hypothesis)
      → IsStatedCall id evidence needed
      → IsBrief tool_names out
      → IsBrief tool_names (add tool_names id question evidence needed out)
  unfolding add
  add-IsBrief id question evidence needed out call h =
      let available = filterb (λ name. mem name tool_names) needed in
      elim (Bool-cases (not (is_empty needed) && is_empty available)) [
        | inl lacks ↦ rw lacks h
        | inr enough ↦ elim (Bool-cases (any (λ item. item.id == id) out)) [
          | inl known ↦ rw (enough, known) h
          | inr new ↦
              rw (enough, new)
                (record {
                  distinct =
                      rw (ids-snoc out _)
                        (snoc-Distinct id (ids out) (rw (any-mem id out) at new) h.distinct);
                  usable = All-append (IsUsable tool_names) out (_ ∷ []) h.usable (
                    record {
                      named = call.named;
                      stated = call.stated;
                      available = filterb-All (λ name. mem name tool_names) needed;
                      backed =
                          backed_by (is_empty needed) (is_empty available) _ enough call.backed;
                    },
                    tt,
                  );
                })
        ]
      ]
    where
      backed_by : (a b c : Bool) → (not a && b) ≡ false → (not a || c) ≡ true → (not b || c) ≡ true
      backed_by a b c h k = ground arith

  -- One call of `add` on every list.
  abbrev Keeps : (List Hypothesis → List Hypothesis) → Type 0
  Keeps f = (out : List Hypothesis) → IsBrief tool_names out → IsBrief tool_names (f out)

  add_quota-IsBrief : Keeps (add_quota tool_names)
  unfolding add_quota is_blank strip is_space
  add_quota-IsBrief out h =
      add-IsBrief "quota_or_entitlement" "用户 AI token/会员配额是否异常"
        "quota/account/membership readonly rows"
        ("get_health_food_ai_quota" ∷ "get_health_food_user_profile" ∷ []) out
        (record { named = refl; stated = refl; backed = refl }) h

  add_generation-IsBrief : Keeps (add_generation tool_names)
  unfolding add_generation is_blank strip is_space
  add_generation-IsBrief out h =
      add-IsBrief "recommendation_generation" "每日推荐是否生成、失败或与餐食指纹不一致"
        "recommendation status and meal fingerprint" ("get_health_food_recommendation_status" ∷ [])
        out (record { named = refl; stated = refl; backed = refl }) h

  add_input-IsBrief : Keeps (add_input tool_names)
  unfolding add_input is_blank strip is_space
  add_input-IsBrief out h =
      add-IsBrief "input_data_completeness" "推荐输入餐食记录是否缺失或发生变化" "meal record range and fingerprint"
        ("get_health_food_meal_records" ∷ []) out
        (record { named = refl; stated = refl; backed = refl }) h

  add_eligibility-IsBrief : Keeps (add_eligibility tool_names)
  unfolding add_eligibility is_blank strip is_space
  add_eligibility-IsBrief out h =
      add-IsBrief "user_eligibility" "用户资料、会员等级或设备状态是否影响结果"
        "user profile and membership readonly rows" ("get_health_food_user_profile" ∷ []) out
        (record { named = refl; stated = refl; backed = refl }) h

  add_errors-IsBrief : Keeps (add_errors tool_names)
  unfolding add_errors is_blank strip is_space
  add_errors-IsBrief out h =
      add-IsBrief "service_error" "下游服务是否有相关错误日志" "bounded log samples from readonly log adapter"
        ("search_logs_by_service" ∷ []) out (record { named = refl; stated = refl; backed = refl })
        h

  add_history-IsBrief : Keeps (add_history tool_names)
  unfolding add_history is_blank strip is_space
  add_history-IsBrief out h =
      add-IsBrief "historical_pattern" "平台历史经验是否能提供优先排查路径" "knowledge candidate id and confidence"
        [] out (record { named = refl; stated = refl; backed = refl }) h

  add_similar-IsBrief : Keeps (add_similar tool_names)
  unfolding add_similar is_blank strip is_space
  add_similar-IsBrief out h =
      add-IsBrief "similar_case" "是否存在相似历史 case 可辅助定位" "similar case ids and summaries"
        ("get_similar_cases" ∷ []) out (record { named = refl; stated = refl; backed = refl }) h

  if-IsBrief :
      (c : Bool) (more out : List Hypothesis)
      → IsBrief tool_names more
      → IsBrief tool_names out
      → IsBrief tool_names (if c then more else out)
  if-IsBrief true more out h k = h
  if-IsBrief false more out h k = k

  add_health_food-IsBrief : (text : String) → Keeps (add_health_food tool_names text)
  unfolding add_health_food
  add_health_food-IsBrief text out h = add_eligibility-IsBrief _ (
      if-IsBrief _ _ _
        (add_input-IsBrief _
          (add_generation-IsBrief _ (if-IsBrief _ _ out (add_quota-IsBrief out h) h)))
        (if-IsBrief _ _ out (add_quota-IsBrief out h) h))

  no_hypotheses-IsBrief : IsBrief tool_names []
  no_hypotheses-IsBrief = record { distinct = tt; usable = tt }

  hypotheses_for-IsBrief :
      (text : String) (knowledge : List KnowledgeCandidate)
      → IsBrief tool_names (hypotheses_for tool_names text knowledge)
  unfolding hypotheses_for
  hypotheses_for-IsBrief text knowledge = add_similar-IsBrief _ (
      if-IsBrief _ _ _ (add_history-IsBrief _ (add_errors-IsBrief _ (health_food text _)))
        (add_errors-IsBrief _ (health_food text _)))
    where
      health_food :
          (text : String) (c : Bool)
          → IsBrief tool_names (if c then add_health_food tool_names text [] else [])
      health_food text c =
          if-IsBrief c _ [] (add_health_food-IsBrief text [] no_hypotheses-IsBrief)
            no_hypotheses-IsBrief

module _ ⦃py : Runtime⦄ where
  -- A brief has at most six hypotheses, whatever the case: they have distinct ids and stated evidence,
  -- and their tools are tools of the Gateway. Each has a tool, but for the one on experience.
  pub brief_hypotheses-IsBrief :
      (case' : Fields) (entities : Entities) (tools : List Fields)
      (knowledge : List KnowledgeCandidate)
      → (length (brief_hypotheses case' entities tools knowledge) ≤ 6)
        × IsBrief (map tool_name_of tools) (brief_hypotheses case' entities tools knowledge)
  unfolding brief_hypotheses
  brief_hypotheses-IsBrief case' entities tools knowledge =
      let all_of =
        hypotheses_for (map tool_name_of tools) (hypothesis_text case' entities) knowledge in
      let h =
        hypotheses_for-IsBrief (map tool_name_of tools) (hypothesis_text case' entities)
          knowledge in
      (
        omega (arith, length-take 6 all_of),
        record {
          distinct = rw (ids-take 6 all_of) (take-Distinct 6 (ids all_of) h.distinct);
          usable = All-take (IsUsable (map tool_name_of tools)) 6 all_of h.usable;
        },
      )
