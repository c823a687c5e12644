-- ===== src/K8s.antt =====
-- crates/core/src/k8s/crd.rs: the custom resources that prospero reads and writes. Of the metadata that
-- the kube crate gives a resource it has what the source reads. A creation time stands as it is displayed.
pub mod Task
pub mod Overlay
pub mod Diff
pub mod Watch
pub mod Plane
pub mod Stream
pub mod Control
use prospero.Prelude.{Bool, Option, none, some, List, String}
use prospero.Model.{PermissionPosture}

pub record Metadata : Type 0 where
  pub name : Option String
  pub uid : Option String
  pub creation_timestamp : Option String

pub record Source : Type 0 where
  pub name : String
  pub repo : String
  pub ref : String
  pub path : String

-- `TaskSpec` of the resource.
pub record CrdTaskSpec : Type 0 where
  pub prompt : String
  pub agent_type : Option String
  pub interactive : Option Bool
  pub permission_posture : Option PermissionPosture

pub record IsolationSpec : Type 0 where
  pub runtime_class : Option String
  pub worktrees : Option String

-- `workspace_ref` and `sandbox_ref` are the names in them.
pub record CalibanTaskSpec : Type 0 where
  pub workspace_ref : String
  pub provider_ref : Option String
  pub task : CrdTaskSpec
  pub isolation : Option IsolationSpec
  pub tools : Option (List String)

pub record CredentialsRef : Type 0 where
  pub secret_name : String
  pub key : String

pub record Provider : Type 0 where
  pub name : String
  pub kind : String
  pub base_url : Option String
  pub model : Option String
  pub credentials_ref : Option CredentialsRef

pub record EnvEntry : Type 0 where
  pub name : String
  pub value : String

-- Its provider is a `ResolvedProvider`, which has the fields of a `Provider`.
pub record ResolvedWorkspace : Type 0 where
  pub sources : List Source
  pub provider : Provider
  pub env : List EnvEntry
  pub isolation : Option IsolationSpec

pub record Condition : Type 0 where
  pub type_ : String
  pub status : String
  pub reason : String
  pub message : Option String

pub record CalibanTaskStatus : Type 0 where
  pub phase : String
  pub caliband_endpoint : Option String
  pub sandbox_ref : Option String
  pub resolved_workspace : Option ResolvedWorkspace
  pub conditions : List Condition
  pub permission_posture : Option PermissionPosture

pub record CalibanTask : Type 0 where
  pub metadata : Metadata
  pub spec : CalibanTaskSpec
  pub status : Option CalibanTaskStatus

-- The registered `Workspace`, whose status is not read.
pub record WorkspaceSpec : Type 0 where
  pub display_name : String
  pub sources : List Source
  pub providers : List Provider
  pub default_provider : Option String
  pub env : List EnvEntry
  pub isolation : Option IsolationSpec

pub record WorkspaceCr : Type 0 where
  pub metadata : Metadata
  pub spec : WorkspaceSpec
