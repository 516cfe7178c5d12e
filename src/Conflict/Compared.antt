-- ===== src/Conflict/Compared.antt =====
-- checkForConflicts of domain/container-conflict.ts on each property that is compared whole.
use dyrectorio.Prelude.{List, some, string_eq, int_eq, bool_eq, list_eq, refl}
use dyrectorio.Json.{token_eq}
use dyrectorio.Container.{ContainerConfigDataWithId}
use dyrectorio.Container.Stringify.{config_with_id_json}
use dyrectorio.Conflict.Values.{
  strings_conflict, booleans_conflict, numbers_conflict, objects_conflict,
}
use dyrectorio.Conflict.Collect.{collect_conflicts}
use dyrectorio.Conflict.Check.{all_conflicts}
use dyrectorio.Conflict.Reports.{Reports, reports}

module _ (configs : List ContainerConfigDataWithId) where
  -- For each of fifteen properties (name, routing, expose, user, working directory, tty, config
  -- container, init containers, restart policy, network mode, deployment strategy, proxy headers,
  -- use of a load balancer, health check, metrics): an id is recorded exactly when a configuration
  -- with that id has a value that differs from the value of a configuration of the list, and the
  -- property is set exactly when two values differ. A missing value differs from none.
  pub all_conflicts-Reports :
      Reports configs (λ c. c.config.body.common.name) (all_conflicts configs).common.name
      × Reports configs (λ c. c.config.body.common.routing) (all_conflicts configs).common.routing
      × Reports configs (λ c. c.config.body.common.expose) (all_conflicts configs).common.expose
      × Reports configs (λ c. c.config.body.common.user) (all_conflicts configs).common.user
      × Reports configs
          (λ c. c.config.body.common.working_directory)
          (all_conflicts configs).common.working_directory
      × Reports configs (λ c. c.config.body.common.tty) (all_conflicts configs).common.tty
      × Reports configs
          (λ c. c.config.body.common.config_container)
          (all_conflicts configs).common.config_container
      × Reports configs
          (λ c. c.config.body.common.init_containers)
          (all_conflicts configs).common.init_containers
      × Reports configs
          (λ c. c.config.body.dagent.restart_policy)
          (all_conflicts configs).dagent.restart_policy
      × Reports configs
          (λ c. c.config.body.dagent.network_mode)
          (all_conflicts configs).dagent.network_mode
      × Reports configs
          (λ c. c.config.body.crane.deployment_strategy)
          (all_conflicts configs).crane.deployment_strategy
      × Reports configs
          (λ c. c.config.body.crane.proxy_headers)
          (all_conflicts configs).crane.proxy_headers
      × Reports configs
          (λ c. c.config.body.crane.use_load_balancer)
          (all_conflicts configs).crane.use_load_balancer
      × Reports configs
          (λ c. c.config.body.crane.health_check_config)
          (all_conflicts configs).crane.health_check_config
      × Reports configs (λ c. c.config.body.crane.metrics) (all_conflicts configs).crane.metrics
  unfolding collect_conflicts strings_conflict booleans_conflict numbers_conflict objects_conflict
  all_conflicts-Reports = (
    reports (λ c. c.config.body.common.name) (λ r. r.common.name) (λ c p. refl) refl configs,
    reports (λ c. c.config.body.common.routing) (λ r. r.common.routing) (λ c p. refl) refl configs,
    reports (λ c. c.config.body.common.expose) (λ r. r.common.expose) (λ c p. refl) refl configs,
    reports (λ c. c.config.body.common.user) (λ r. r.common.user) (λ c p. refl) refl configs,
    reports (λ c. c.config.body.common.working_directory) (λ r. r.common.working_directory)
        (λ c p. refl) refl configs,
    reports (λ c. c.config.body.common.tty) (λ r. r.common.tty) (λ c p. refl) refl configs,
    reports (λ c. c.config.body.common.config_container) (λ r. r.common.config_container)
        (λ c p. refl) refl configs,
    reports (λ c. c.config.body.common.init_containers) (λ r. r.common.init_containers)
        (λ c p. refl) refl configs,
    reports (λ c. c.config.body.dagent.restart_policy) (λ r. r.dagent.restart_policy) (λ c p. refl)
        refl configs,
    reports (λ c. c.config.body.dagent.network_mode) (λ r. r.dagent.network_mode) (λ c p. refl) refl
        configs,
    reports (λ c. c.config.body.crane.deployment_strategy) (λ r. r.crane.deployment_strategy)
        (λ c p. refl) refl configs,
    reports (λ c. c.config.body.crane.proxy_headers) (λ r. r.crane.proxy_headers) (λ c p. refl) refl
        configs,
    reports (λ c. c.config.body.crane.use_load_balancer) (λ r. r.crane.use_load_balancer)
        (λ c p. refl) refl configs,
    reports (λ c. c.config.body.crane.health_check_config) (λ r. r.crane.health_check_config)
        (λ c p. refl) refl configs,
    reports (λ c. c.config.body.crane.metrics) (λ r. r.crane.metrics) (λ c p. refl) refl configs,
  )

  -- Under `storage`, an id is recorded exactly when the JSON text of a whole configuration with that
  -- id differs from the text of a configuration of the list, and `storage` is set exactly when two
  -- texts differ.
  pub all_conflicts-storage :
      Reports configs (λ c. some (config_with_id_json c)) (all_conflicts configs).common.storage
  unfolding collect_conflicts objects_conflict
  all_conflicts-storage =
      reports (λ c. some (config_with_id_json c)) (λ r. r.common.storage) (λ c p. refl) refl configs
