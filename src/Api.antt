-- ===== src/Api.antt =====
-- internal/api: the HTTP handlers that sync units and that ask the cloud. A request has the caller that
-- the authenticator has verified, if it has; the lookup of units and strconv.Atoi are parameters. A
-- reply is its status code with its body; the JSON encoder is not modelled.
pub mod Sync
pub mod Views
use run_cd.Base.{ℕ, String, Bool, Option, none, some, List, []}
use run_cd.Expander.{SyncUnit}
use run_cd.Rbac
use run_cd.Rbac.{Config, Membership, get, folder_membership, can_sync_folders}

-- The fields of Handler, and the reconciler's managed fields. The lookup of units may not be one that
-- lists them.
pub record Handler : Type 0 where
  pub rbac : Rbac.Store
  pub find : String → String → Option SyncUnit
  pub list : Option (List SyncUnit)
  pub base : List String

pub record Request : Type 0 where
  pub caller : Option String
  pub app : String
  pub project : String
  pub now : ℕ

pub data Refusal : Type 0 where
  unauthorized unknown_unit forbidden unsupported : Refusal

-- http.StatusUnauthorized, StatusNotFound, StatusForbidden, StatusNotImplemented
abbrev pub code_of : Refusal → ℕ
code_of unauthorized = 401
code_of unknown_unit = 404
code_of forbidden = 403
code_of unsupported = 501

abbrev pub listed : Option (List SyncUnit) → List SyncUnit
listed none = []
listed (some units) = units

abbrev pub may_sync : Handler → String → SyncUnit → Bool
may_sync h email unit = can_sync_folders (get h.rbac) (folder_membership h.rbac) email unit
