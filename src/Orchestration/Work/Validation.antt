-- ===== src/Orchestration/Work/Validation.antt =====
-- src/domains/orchestration/sqlite-store.ts: `validateWork`. Error messages are not modelled.
use agent_pool.Prelude.{
  ℕ, ◌==◌, leb, ltb, Bool, true, false, ◌&&◌, ◌||◌, not, List, [], ◌∷◌, ◌++◌, map, Option, none,
  some, Text, codes, text_eq, length, if◌then◌else◌,
}
use agent_pool.Js.{
  Value, Fields, items, keys, own, has_own, mem_text, every_in, is_non_empty_string, is_undefined,
}
use agent_pool.Orchestration.Contracts.{
  ErrorCode, invalid_work, duplicate_work, max_id_length, max_text_length, max_digest_length,
  max_version_length, max_repo_length, max_branch_length, max_nodes, max_criteria_per_node,
  max_dependencies_per_node,
}
use agent_pool.Orchestration.Work.Topology.{NodeShape, processed_nodes}

abbrev work_keys : List Text
work_keys =
    codes "work_id"
    ∷ codes "origin"
    ∷ codes "repo"
    ∷ codes "branch"
    ∷ codes "payload_hash"
    ∷ codes "approval_id"
    ∷ codes "approved_at"
    ∷ codes "approved_head"
    ∷ codes "nodes"
    ∷ []

abbrev node_keys : List Text
node_keys =
    codes "id"
    ∷ codes "intent"
    ∷ codes "change_spec"
    ∷ codes "acceptance_criteria"
    ∷ codes "depends_on"
    ∷ codes "criteria_origin_source"
    ∷ codes "criteria_origin_source_id"
    ∷ []

abbrev is_origin : Value → Bool
is_origin (Value.string s) = text_eq s (codes "decomposition") || text_eq s (codes "direct_task")
is_origin _ = false

abbrev is_decomposition : Value → Bool
is_decomposition (Value.string s) = text_eq s (codes "decomposition")
is_decomposition _ = false

-- `value === undefined || (typeof value === 'string' && value.length <= max)`.
unfoldable pub is_optional_string : ℕ → Value → Bool
is_optional_string max Value.undefined = true
is_optional_string max (Value.string s) = leb (length s) max
is_optional_string max _ = false

-- `hasOwnField(obj, key) || obj[key] === undefined`, for a key that no prototype has.
unfoldable pub own_or_missing : Fields → Text → Bool
own_or_missing fs key = has_own fs key || is_undefined (own fs key)

-- A required string field.
abbrev has_string : ℕ → Fields → Text → Bool
has_string max fs key = has_own fs key && is_non_empty_string max (own fs key)

abbrev has_optional : ℕ → Fields → Text → Bool
has_optional max fs key = own_or_missing fs key && is_optional_string max (own fs key)

-- The fields of the work, before its nodes.
unfoldable pub valid_work_fields : Fields → Bool
valid_work_fields fs =
    every_in work_keys (keys fs)
    && has_string max_id_length fs (codes "work_id")
    && (has_own fs (codes "origin") && is_origin (own fs (codes "origin")))
    && has_string max_repo_length fs (codes "repo")
    && has_string max_branch_length fs (codes "branch")
    && has_string max_digest_length fs (codes "payload_hash")
    && has_optional max_id_length fs (codes "approval_id")
    && has_optional max_version_length fs (codes "approved_at")
    && has_optional max_digest_length fs (codes "approved_head")
    && (not (is_decomposition (own fs (codes "origin")))
        || (is_non_empty_string max_id_length (own fs (codes "approval_id"))
            && is_non_empty_string max_version_length (own fs (codes "approved_at"))
            && is_non_empty_string max_digest_length (own fs (codes "approved_head"))))
    && has_own fs (codes "nodes")

unfoldable pub all_strings : ℕ → List Value → Bool
all_strings max [] = true
all_strings max (v ∷ vs) = is_non_empty_string max v && all_strings max vs

abbrev valid_criteria : Value → Bool
valid_criteria (Value.array vs) =
    ltb 0 (length (items vs))
    && leb (length (items vs)) max_criteria_per_node
    && all_strings max_text_length (items vs)
valid_criteria _ = false

abbrev valid_dependencies : Value → Bool
valid_dependencies (Value.array vs) =
    leb (length (items vs)) max_dependencies_per_node && all_strings max_id_length (items vs)
valid_dependencies _ = false

-- The checks of a node that come before the check of its id among the earlier ones.
unfoldable pub valid_node_id : Fields → Bool
valid_node_id fs = every_in node_keys (keys fs) && has_string max_id_length fs (codes "id")

-- The checks that come after it.
unfoldable pub valid_node_fields : Fields → Bool
valid_node_fields fs =
    has_string max_text_length fs (codes "intent")
    && has_string max_text_length fs (codes "change_spec")
    && valid_criteria (own fs (codes "acceptance_criteria"))
    && valid_dependencies (own fs (codes "depends_on"))
    && (has_own fs (codes "criteria_origin_source")
        && is_origin (own fs (codes "criteria_origin_source")))
    && has_string max_id_length fs (codes "criteria_origin_source_id")

-- A value that has been checked to be a string, or an array of them.
abbrev text_of : Value → Text
text_of (Value.string s) = s
text_of _ = []

abbrev texts_of : Value → List Text
texts_of (Value.array vs) = map text_of (items vs)
texts_of _ = []

unfoldable pub shape_of : Fields → NodeShape
shape_of fs = record {
  id = text_of (own fs (codes "id"));
  depends_on = texts_of (own fs (codes "depends_on"));
}

pub data Checked : Type 0 where
  refused : ErrorCode → Checked
  shapes : List NodeShape → Checked

-- The loop over the nodes, with the nodes seen so far.
unfoldable pub check_nodes : List NodeShape → List Value → Checked
unfolding valid_node_id valid_node_fields shape_of
check_nodes seen [] = shapes seen
check_nodes seen (Value.object true fs ∷ vs) =
    let rest = check_nodes (seen ++ shape_of fs ∷ []) vs in
    if not (valid_node_id fs)
    then refused invalid_work
    else if mem_text (text_of (own fs (codes "id"))) (map (λ n. n.id) seen)
    then refused duplicate_work
    else if not (valid_node_fields fs)
    then refused invalid_work
    else rest
check_nodes seen (v ∷ vs) = refused invalid_work

-- Every dependency is another node of the work.
unfoldable pub known_dependencies : List Text → Text → List Text → Bool
known_dependencies ids id [] = true
known_dependencies ids id (dep ∷ deps) =
    mem_text dep ids && not (text_eq dep id) && known_dependencies ids id deps

unfoldable pub all_known : List Text → List NodeShape → Bool
unfolding known_dependencies
all_known ids [] = true
all_known ids (n ∷ ns) = known_dependencies ids n.id n.depends_on && all_known ids ns

-- Every node was reached from the nodes without dependencies.
unfoldable pub is_acyclic : List NodeShape → Bool
is_acyclic nodes = elim (processed_nodes nodes) [ none ↦ false | some n ↦ n == length nodes ]

unfoldable pub check_graph : Checked → Option ErrorCode
unfolding all_known is_acyclic
check_graph (refused c) = some c
check_graph (shapes nodes) =
    if not (all_known (map (λ n. n.id) nodes) nodes)
    then some invalid_work
    else if not (is_acyclic nodes)
    then some invalid_work
    else none

unfoldable pub check_node_array : Value → Option ErrorCode
unfolding check_nodes check_graph
check_node_array (Value.array vs) =
    if not (ltb 0 (length (items vs)) && leb (length (items vs)) max_nodes)
    then some invalid_work
    else check_graph (check_nodes [] (items vs))
check_node_array _ = some invalid_work

unfoldable pub validate_work : Value → Option ErrorCode
unfolding valid_work_fields check_node_array
validate_work (Value.object true fs) =
    if not (valid_work_fields fs)
    then some invalid_work
    else check_node_array (own fs (codes "nodes"))
validate_work _ = some invalid_work
