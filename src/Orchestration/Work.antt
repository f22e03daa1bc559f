-- ===== src/Orchestration/Work.antt =====
-- src/domains/orchestration/contracts.ts: approved work, and the JavaScript object that it is.
pub mod Topology
pub mod Waiting
pub mod Stuck
pub mod Validation
pub mod Graph
pub mod Draining
pub mod Deadlock
pub mod Progress
pub mod Acyclicity
pub mod Canonical
use agent_pool.Prelude.{List, [], ◌∷◌, Option, none, some, Text, codes, true}
use agent_pool.Js.{Value, Values, Fields}
use agent_pool.Orchestration.Contracts.{ApprovedNode, WorkOrigin, decomposition, direct_task}

pub record ApprovedWork : Type 0 where
  pub work_id : Text
  pub origin : WorkOrigin
  pub repo : Text
  pub branch : Text
  pub payload_hash : Text
  pub approval_id : Option Text
  pub approved_at : Option Text
  pub approved_head : Option Text
  pub nodes : List ApprovedNode

abbrev origin_text : WorkOrigin → Text
origin_text decomposition = codes "decomposition"
origin_text direct_task = codes "direct_task"

abbrev optional : Text → Option Text → Fields → Fields
optional key none fs = fs
optional key (some s) fs = Fields.field key (Value.string s) fs

abbrev text_field : Text → Text → Fields → Fields
text_field key s fs = Fields.field key (Value.string s) fs

abbrev texts_value : List Text → Values
texts_value [] = Values.end
texts_value (s ∷ ss) = Values.item (Value.string s) (texts_value ss)

abbrev node_value : ApprovedNode → Value
node_value n = Value.object true (
    text_field (codes "id") n.id (
      text_field (codes "intent") n.intent (
        text_field (codes "change_spec") n.change_spec (
          Fields.field (codes "acceptance_criteria")
            (Value.array (texts_value n.acceptance_criteria))
            (Fields.field (codes "depends_on") (Value.array (texts_value n.depends_on)) (
              text_field (codes "criteria_origin_source") (origin_text n.criteria_origin_source) (
                text_field (codes "criteria_origin_source_id") n.criteria_origin_source_id
                  Fields.stop)))))))

abbrev nodes_value : List ApprovedNode → Values
nodes_value [] = Values.end
nodes_value (n ∷ ns) = Values.item (node_value n) (nodes_value ns)

unfoldable pub work_value : ApprovedWork → Value
work_value w = Value.object true (
    text_field (codes "work_id") w.work_id (
      text_field (codes "origin") (origin_text w.origin) (
        text_field (codes "repo") w.repo (
          text_field (codes "branch") w.branch (
            text_field (codes "payload_hash") w.payload_hash (
              optional (codes "approval_id") w.approval_id (
                optional (codes "approved_at") w.approved_at (
                  optional (codes "approved_head") w.approved_head (
                    Fields.field (codes "nodes") (Value.array (nodes_value w.nodes))
                      Fields.stop)))))))))
