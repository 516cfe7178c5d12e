-- ===== src/Tests.antt =====
-- The tests of the modules, at concrete configurations, deployments and versions.
mod Data
mod Conflict
mod Merge
mod StartDeployment
mod Agent
mod Rules
mod Shared
mod Version
mod Websockets
mod Editors
