-- ===== src/Retrieval/Plan.antt =====
-- How many chunks a question fetches, and when it is rewritten before: app/rag/retrieval_plan.py and
-- app/rag/rewrite.py.
use customer_service.Prelude.{
  ℕ, ◌*◌, ◌≤◌, arith, max, min, Bool, true, false, not, ◌&&◌, ◌||◌, List, [], ◌∷◌, ◌++◌, any,
  length, if◌then◌else◌, ltb, leb,
}
use customer_service.Prelude.Text.{Text, codes, strip, or_else, contains, has_text}

pub record RetrievalPlan : Type 0 where
  pub fetch_k : ℕ
  pub result_k : ℕ
  pub profile : Text

-- the part of the settings that the plan reads
pub record Limits : Type 0 where
  pub rag_fetch_k_min : ℕ
  pub rag_fetch_k_max : ℕ

abbrev followup_hints : List Text
followup_hints = codes "这个" ∷ codes "那个" ∷ codes "难吗" ∷ codes "怎么样" ∷ codes "如何" ∷ codes "可以吗" ∷ []

abbrev complex_hints : List Text
complex_hints =
    codes "哪些"
    ∷ codes "包含"
    ∷ codes "区别"
    ∷ codes "对比"
    ∷ codes "适合"
    ∷ codes "路径"
    ∷ codes "模块"
    ∷ codes "大纲"
    ∷ codes "学习"
    ∷ codes "内容"
    ∷ []

abbrev mentions : List Text → Text → Bool
mentions hints text = any (λ hint. contains hint text) hints

-- `_clamp`
unfoldable pub clamp : ℕ → ℕ → ℕ → ℕ
clamp value low high = max low (min high value)

unfoldable pub plan_for_text : Text → ℕ → ℕ → ℕ → RetrievalPlan
unfolding clamp
plan_for_text text result_k k_min k_max =
    if ltb (length text) 8 || mentions followup_hints text
    then record {
      fetch_k = clamp (max (result_k * 3) k_min) k_min k_max;
      result_k = result_k;
      profile = codes "followup";
    }
    else if leb 16 (length text) || mentions complex_hints text
    then record { fetch_k = k_max; result_k = result_k; profile = codes "complex" }
    else record {
      fetch_k = clamp (max (result_k * 3) k_min) k_min k_max;
      result_k = result_k;
      profile = codes "default";
    }

-- `resolve_retrieval_plan`; an empty code is no code
unfoldable pub resolve_retrieval_plan : Text → ℕ → Text → Limits → RetrievalPlan
unfolding plan_for_text
resolve_retrieval_plan query result_k course_code settings =
    if has_text course_code
    then record {
      fetch_k =
          clamp (max (result_k * 2) settings.rag_fetch_k_min) settings.rag_fetch_k_min
            settings.rag_fetch_k_max;
      result_k = result_k;
      profile = codes "explicit_course";
    }
    else plan_for_text (strip query) result_k settings.rag_fetch_k_min settings.rag_fetch_k_max

abbrev pub IsWithin : Limits → RetrievalPlan → Type 0
IsWithin settings plan =
    (settings.rag_fetch_k_min ≤ plan.fetch_k) × (plan.fetch_k ≤ settings.rag_fetch_k_max)

either :
    (settings : Limits) (b : Bool) (x y : RetrievalPlan)
    → IsWithin settings x
    → IsWithin settings y
    → IsWithin settings (if b then x else y)
either settings true x y p q = p
either settings false x y p q = q

-- Whatever is asked, a plan fetches no fewer chunks than the least and no more than the most that the
-- settings allow, when the least is at most the most.
pub resolve_retrieval_plan-IsWithin :
    (query : Text) (result_k : ℕ) (course_code : Text) (settings : Limits)
    → settings.rag_fetch_k_min ≤ settings.rag_fetch_k_max
    → IsWithin settings (resolve_retrieval_plan query result_k course_code settings)
unfolding resolve_retrieval_plan
resolve_retrieval_plan-IsWithin query result_k course_code settings h =
    either settings (has_text course_code) _ _ (omega arith) (
      either settings (ltb (length (strip query)) 8 || mentions followup_hints (strip query)) _ _
        (omega arith)
        (either settings (leb 16 (length (strip query)) || mentions complex_hints (strip query)) _ _
          (omega arith) (omega arith)))

pub data Reason : Type 0 where
  followup abstract unchanged : Reason

pub record RewriteResult : Type 0 where
  pub query : Text
  pub rewritten : Bool
  pub reason : Reason

abbrev anaphora_hints : List Text
anaphora_hints =
    codes "这个" ∷ codes "那个" ∷ codes "它" ∷ codes "这门" ∷ codes "那门" ∷ codes "这门课" ∷ codes "那门课" ∷ []

-- the patterns, each a choice of literals, and their keywords
abbrev abstract_patterns : List (List Text × Text)
abstract_patterns =
    (codes "难不难" ∷ codes "难吗" ∷ codes "好不好学" ∷ codes "好学吗" ∷ [], codes "课程难度 学习要求")
    ∷ (codes "适合谁" ∷ codes "适合什么人" ∷ codes "什么人适合" ∷ codes "零基础" ∷ [], codes "适合人群 前置要求")
    ∷ (
      codes "学到什么" ∷ codes "能学到什么" ∷ codes "学什么" ∷ codes "有什么用" ∷ codes "收获" ∷ [],
      codes "课程模块 学习目标",
    )
    ∷ []

abbrev as_is : Text → RewriteResult
as_is text = record { query = text; rewritten = false; reason = unchanged }

unfoldable pub rewrite_abstract : List (List Text × Text) → Text → RewriteResult
rewrite_abstract [] text = as_is text
rewrite_abstract ((pattern_, keywords) ∷ patterns) text =
    let rest = rewrite_abstract patterns text in
    if mentions pattern_ text
    then (if contains keywords text then as_is text else record {
      query = strip (text ++ (codes " " ++ keywords));
      rewritten = true;
      reason = abstract;
    })
    else rest

unfoldable pub rewrite_text : Text → Text → Text → RewriteResult
unfolding rewrite_abstract
rewrite_text [] original course_hint = as_is []
rewrite_text (c ∷ text) original course_hint =
    if (ltb (length original) 12 && mentions anaphora_hints original)
      && (has_text course_hint && not (contains course_hint (c ∷ text)))
    then record {
      query = strip (course_hint ++ (codes " " ++ (c ∷ text)));
      rewritten = true;
      reason = followup;
    }
    else rewrite_abstract abstract_patterns (c ∷ text)

-- `maybe_rewrite_query`
unfoldable pub maybe_rewrite_query : Text → Text → Text → Text → RewriteResult
unfolding rewrite_text
maybe_rewrite_query query original_query last_course_name last_course_query =
    rewrite_text (strip query) (strip original_query)
      (strip (or_else last_course_name last_course_query))
