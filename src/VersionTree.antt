-- ===== src/VersionTree.antt =====
-- domain/utils.ts: the walks over the parents and the children of a version, and domain/version-chain.ts:
-- the ends of a chain of versions. The queries of the database are arguments. A `while` loop is
-- recursion on fuel, whose end is `none`.
pub mod Walks
use dyrectorio.Prelude.{
  Bool, List, Option, String, [], false, find, if◌then◌else◌, ltb, none, not, some, suc, zero, ℕ,
  ◌++◌, ◌+◌, ◌-◌, ◌==◌, ◌or_else◌, ◌∷◌, string_eq, nat_eq,
}

-- `!target` holds of a missing id and of an empty one.
abbrev pub follow_parent :
    (String → List String → Option (List String))
    → List String
    → Option String
    → Option (List String)
follow_parent walk result none = some result
follow_parent walk result (some parent) =
    if parent == "" then some result else walk parent (result ++ parent ∷ [])

-- `parent_of` is `findFirst` on the parents of a version.
unfoldable pub collect_parents :
    ℕ → (String → Option String) → String → List String → Option (List String)
collect_parents zero parent_of target result = none
collect_parents (suc fuel) parent_of target result =
    follow_parent (collect_parents fuel parent_of) result (parent_of target)

unfoldable pub collect_parent_version_ids :
    ℕ → (String → Option String) → String → Option (List String)
unfolding collect_parents
collect_parent_version_ids fuel parent_of version_id = collect_parents fuel parent_of version_id []

-- What `result.concat(targets)` returns is dropped.
abbrev pub follow_children :
    (List String → List String → Option (List String))
    → List String
    → List String
    → Option (List String)
follow_children walk result [] = some result
follow_children walk result (child ∷ children) = walk (child ∷ children) result

-- `children_of` is `findMany` on the children of several versions.
unfoldable pub collect_children :
    ℕ → (List String → List String) → List String → List String → Option (List String)
collect_children zero children_of targets result = none
collect_children (suc fuel) children_of targets result =
    follow_children (collect_children fuel children_of) result (children_of targets)

unfoldable pub collect_child_version_ids :
    ℕ → (List String → List String) → String → Option (List String)
unfolding collect_children
collect_child_version_ids fuel children_of version_id =
    collect_children fuel children_of (version_id ∷ []) []

pub record ChainMember : Type 0 where
  pub id : String
  pub has_parent : Bool
  pub children : ℕ

pub record VersionChainWithEdges : Type 0 where
  pub id : String
  pub earliest : Option ChainMember
  pub latest : Option ChainMember

unfoldable pub version_chain_members_of : String → List ChainMember → VersionChainWithEdges
version_chain_members_of id members =
    let earliest = find (λ it. not it.has_parent) members in
    record {
      id = id;
      earliest = earliest;
      latest = find (λ it. ltb it.children 1) members or_else earliest;
    }
