-- ===== src/Conflict.antt =====
-- domain/container-conflict.ts: the conflicts of a list of configurations, and how a found conflict
-- is recorded. A property of `conflicts` that is not set yet is `none`; the arrays that the source
-- extends in place are reachable from `conflicts` alone, so a new list stands for each.
pub mod Append
pub mod Values
pub mod Collect
pub mod Check
pub mod Pairs
pub mod Ids
pub mod Reports
pub mod Compared
pub mod Storage
pub mod Resolved
pub mod Agreement
pub mod Keyed
pub mod External
use dyrectorio.Prelude.{
  ℕ, String, Bool, true, ◌&&◌, Option, none, some, List, [], ◌∷◌, ◌++◌, map, fold, contains, Eq,
  ◌==◌, nat_eq, string_eq, ◌≡◌, ◌↔◌, if◌then◌else◌, leb, arith,
}
use dyrectorio.Container.{PortRange}

unfoldable pub ranges_overlap : PortRange → PortRange → Bool
ranges_overlap one other = leb one.from other.to && leb other.from one.to

abbrev pub ranges_are_equal : PortRange → PortRange → Bool
ranges_are_equal one other = one.from == other.from && one.to == other.to

pub ranges_are_equal_iff :
    (one other : PortRange) → (ranges_are_equal one other ≡ true) ↔ (one ≡ other)
ranges_are_equal_iff one other = ground arith

instance abbrev pub range_eq : Eq PortRange
range_eq = record { beq = ranges_are_equal; beq_iff = ranges_are_equal_iff }

-- `ConflictedUniqueItem`, `ConflictedPort` and `ConflictedPortRange`
pub record ConflictedItem (K : Type 0) : Type 0 where
  pub item : K
  pub config_ids : List String

abbrev pub ConflictedUniqueItem : Type 0
ConflictedUniqueItem = ConflictedItem String

abbrev pub ConflictedPort : Type 0
ConflictedPort = ConflictedItem ℕ

abbrev pub ConflictedPortRange : Type 0
ConflictedPortRange = ConflictedItem PortRange

pub record ConflictedLog : Type 0 where
  pub driver : Option (List String)
  pub options : Option (List ConflictedUniqueItem)

pub record ConflictedResourceConfig : Type 0 where
  pub limits : Option (List String)
  pub requests : Option (List String)

pub record ConflictedMarker : Type 0 where
  pub service : Option (List ConflictedUniqueItem)
  pub deployment : Option (List ConflictedUniqueItem)
  pub ingress : Option (List ConflictedUniqueItem)

pub record ConflictedLogKeys : Type 0 where
  pub driver : Bool
  pub options : Option (List String)

pub record ConflictedResourceConfigKeys : Type 0 where
  pub limits : Bool
  pub requests : Bool

pub record ConflictedMarkerKeys : Type 0 where
  pub service : Option (List String)
  pub deployment : Option (List String)
  pub ingress : Option (List String)

pub record ConflictedCommon : Type 0 where
  pub name : Option (List String)
  pub environment : Option (List ConflictedUniqueItem)
  pub routing : Option (List String)
  pub expose : Option (List String)
  pub user : Option (List String)
  pub working_directory : Option (List String)
  pub tty : Option (List String)
  pub config_container : Option (List String)
  pub ports : Option (List ConflictedPort)
  pub port_ranges : Option (List ConflictedPortRange)
  pub volumes : Option (List ConflictedUniqueItem)
  pub init_containers : Option (List String)
  pub capabilities : Option (List ConflictedUniqueItem)
  pub storage : Option (List String)

pub record ConflictedDagent : Type 0 where
  pub log_config : Option ConflictedLog
  pub restart_policy : Option (List String)
  pub network_mode : Option (List String)
  pub docker_labels : Option (List ConflictedUniqueItem)
  pub expected_state : Option (List String)

pub record ConflictedCrane : Type 0 where
  pub deployment_strategy : Option (List String)
  pub proxy_headers : Option (List String)
  pub use_load_balancer : Option (List String)
  pub extra_lb_annotations : Option (List ConflictedUniqueItem)
  pub health_check_config : Option (List String)
  pub resource_config : Option ConflictedResourceConfig
  pub annotations : Option ConflictedMarker
  pub labels : Option ConflictedMarker
  pub metrics : Option (List String)

pub record ConflictedContainerConfigData : Type 0 where
  pub common : ConflictedCommon
  pub dagent : ConflictedDagent
  pub crane : ConflictedCrane
