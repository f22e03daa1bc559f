-- ===== src/ModelRouting/ApprovedModels.antt =====
-- src/domains/model-routing-and-evaluation/approved-models.ts: the closed registry of model ids and
-- its capability order.
use agent_pool.Prelude.{
  ℕ, ◌==◌, Bool, false, List, [], ◌∷◌, map, Text, codes, text_eq, if◌then◌else◌,
}
use agent_pool.Js.{Value, mem_text}

pub data Model : Type 0 where
  luna kimi_k2_7_code terra kimi_k3 sol : Model

unfoldable pub model_id : Model → Text
model_id luna = codes "openai-codex/gpt-5.6-luna"
model_id kimi_k2_7_code = codes "moonshot/kimi-k2.7-code"
model_id terra = codes "openai-codex/gpt-5.6-terra"
model_id kimi_k3 = codes "moonshot/kimi-k3"
model_id sol = codes "openai-codex/gpt-5.6-sol"

-- Lowest capability first.
abbrev pub approved_models : List Model
approved_models = luna ∷ kimi_k2_7_code ∷ terra ∷ kimi_k3 ∷ sol ∷ []

unfoldable pub capability_rank : Model → ℕ
capability_rank luna = 1
capability_rank kimi_k2_7_code = 2
capability_rank terra = 3
capability_rank kimi_k3 = 4
capability_rank sol = 5

-- `APPROVED_MODELS`.
unfoldable pub approved_ids : List Text
unfolding model_id
approved_ids = map model_id approved_models

unfoldable pub is_approved_id : Text → Bool
unfolding mem_text approved_ids
is_approved_id s = mem_text s approved_ids

unfoldable pub is_approved_model_id : Value → Bool
unfolding is_approved_id
is_approved_model_id (Value.string s) = is_approved_id s
is_approved_model_id _ = false

abbrev rank_among : Text → List Model → ℕ
rank_among s [] = 0
rank_among s (m ∷ ms) = if text_eq (model_id m) s then capability_rank m else rank_among s ms

-- `CAPABILITY_RANK[modelId]`; 0 for an id that is not approved, which the type excludes.
unfoldable pub get_capability_rank : Text → ℕ
unfolding model_id capability_rank
get_capability_rank s = rank_among s approved_models

-- `modelId.split('/')[0]`.
unfoldable pub get_provider : Text → Text
get_provider [] = []
get_provider (u ∷ s) = let rest = get_provider s in if u == 47 then [] else u ∷ rest

-- `modelId.split('/')[1]`; no units where there is no slash, which approved ids have.
unfoldable pub get_model_name : Text → Text
unfolding get_provider
get_model_name [] = []
get_model_name (u ∷ s) = let rest = get_model_name s in if u == 47 then get_provider s else rest
