-- ===== src/Lib.antt =====
-- A model of the core of the dyrectorio server, crux (web/crux/src): container configurations, the
-- conflicts between them, their merges, the deployments that use them, the versions that own these,
-- and the agents that run them. A deployment of a version has instances, one for each image of the
-- version. An image, an instance, a deployment and a config bundle each have a configuration. When a
-- deployment is started, the deploy interceptor checks that its bundles are not in conflict and that
-- the secrets are there, then the bundles, the deployment, the image and the instance are merged
-- into the configuration that the agent of the node gets. An agent is one connection of a node: it
-- gets its commands on a channel, and its messages drive the status of the deployment, the watchers
-- of container states, the log streams and the requests that wait for an answer. The statuses decide
-- whether the version can be changed, increased or deleted. Browsers follow this over websockets, by
-- subscribing to paths.
--
-- Files, and the sources below web/crux/src/domain that they model:
--   Container         container.ts: the types of a configuration. Container/Stringify: their text
--                     by JSON.stringify, for the properties that the conflicts compare by text.
--   Json              the texts of JSON.stringify as sequences of tokens.
--   Conflict          container-conflict.ts: the types. Conflict/Values: stringsConflict to
--                     markersConflict. Conflict/Append: appendConflict to appendMarkerConflict.
--                     Conflict/Collect: collectConflicts. Conflict/Check: checkForConflicts and
--                     getConflictsForConcreteConfig. The other files below Conflict are proofs:
--                     Pairs (the loops over pairs), Ids, Reports, Compared, Keyed, Storage,
--                     Resolved, Agreement, External.
--   Merge             container-merge.ts: mergeNumber to mergeConfigsWithConcreteConfig.
--                     Merge/Lists: mergeUniqueKeys, mergePorts, mergePortRanges, mergeVolumes.
--                     Merge/Instance: mergeInstanceConfigWithDeploymentConfig. Proofs:
--                     Merge/Squash, Storage, Secrets, Lookup, Ranges, Override.
--   StartDeployment   start-deployment.ts: missingSecretsOf, collectInvalidSecrets,
--                     deploymentConfigOf, instanceConfigOf, with nameOfInstance of container.ts and
--                     registryImageNameToContainerName of image.ts. Proofs:
--                     StartDeployment/Secrets, Precedence, Storage.
--   NeighborSecrets   start-deployment.ts: mergePrefixNeighborSecrets; its proof is in
--                     NeighborSecrets/Recency.
--   Deployment        deployment.ts: the mappings of statuses, the policies and the class
--                     Deployment. Proofs: Deployment/Policy, Deployment/Run.
--   Version           version.ts; its proof is in Version/Policy.
--   VersionIncrease   version-increase.ts; its proofs are in VersionIncrease/Copies.
--   VersionTree       utils.ts: collectParentVersionIds and collectChildVersionIds; version-chain.ts.
--                     Proof: its Walks.
--   EnvironmentRules  image.ts: parseDyrectorioEnvRules. Proofs: its Parts, the parts of a text,
--                     Params, one parameter, and Labels, whole labels.
--   FixedLengthLinkedList  shared/fixed-length-linked-list.ts, beside domain. Proofs: its Window, the
--                     items that are kept, and Calls, sequences of calls.
--   ContainerStatusWatcher  container-status-watcher.ts, with containerPrefixNameOf of agent.ts.
--                     Proofs: its States, what is known of a container, and Lifecycle, the order
--                     of the effects.
--   ContainerLogStream  container-log-stream.ts, with the state of agent-tunnel.ts. Proof: its
--                     Replay, what a watcher is shown.
--   BufferedSubject   utils.ts: the class BufferedSubject. Proof: its Order.
--   AgentCallback     agent-callback.ts. Proof: its Requests, who hears an answer.
--   AgentCommand      the messages to an agent, and the exceptions. AgentUpdate: agent-update.ts and
--                     the types of agent-token.ts.
--   Agent             agent.ts: the state, the connection status, and the commands that are sent at
--                     once. Agent/Streams: the watchers and the log streams. Agent/Callbacks: the
--                     requests. Agent/Updates: joining, leaving, tokens and updates. Agent/Steps: all
--                     that can happen to an agent, one step each. Proofs: Agent/Status; Agent/Work,
--                     Waits and Pending, a replacement that is pending; Agent/Consistent and
--                     Invariant, deployments and updates.
--   WsRoute           websockets/route.ts and namespace.ts, beside domain: the clients of a route.
--                     WsRoute/Steps: all that can happen to a route, one step each, with the removals
--                     that wait for a callback. Proofs: its Subscribed, Kept and Sound, who is in
--                     which namespace; Pending, Waiting and Deferred, who waits; Linked.
--   WsPath            the paths of websockets/route.ts; proof: its Filled.
--   EditorService     app/editor, beside domain: editor.service.ts and editor.color.provider.ts. Proofs:
--                     its Colors and Events.
--   PipelineInputs    pipeline.ts: mergeEventWatcherInputs; its proof is in PipelineInputs/Kept.
--   Prelude           what the files share. Tests: runs at concrete inputs.
--
-- How the source is read:
--   - `undefined` and a missing property are `none`, and so is `null` wherever the code treats it
--     alike, as the checks of strings, numbers, booleans and lists do. objectsConflict does not: for
--     it null is an object, so a property of object type that is null is the text `null`, for the
--     conflicts and for the merges, whose `??` passes over it. In the text of a whole configuration
--     the properties that are missing are left out, as if they were undefined in both.
--   - A text of JSON.stringify is the sequence of its tokens, strings as single tokens. A property
--     that the code only moves or compares by its text is kept as that text. Numbers that may be
--     negative are integers; ports and the tails of logs are natural numbers.
--   - Configurations are records in the groups of the source's comments (common, dagent, crane), with
--     the three properties of the storage apart; an object is copied, never changed in place, but
--     for `conflicts`, whose state is passed on.
--   - The conflict check compares objects by identity in `it !== one`: here two positions of the
--     list are different objects. `includes` on secret keys reads the field `object`, an identity.
--     The subjects of a request to an agent are one number, an identity, too.
--   - `Array.find` used as a test is `any`. Dates are the numbers of getTime, and the time of a call
--     is an argument.
--   - A thrown error is a value of a result type, beside the state that the throwing call leaves. The
--     calls on a subject of the library rxjs are recorded in order. What the library decides is an
--     argument (whether a subject is observed or closed), or a call of its own (a function that is
--     given to `finalize`). A map with string keys is a list of pairs in the order of insertion; no
--     theorem depends on the order in which JavaScript lists keys that look like numbers.
--   - An agent's deployments, watchers and log streams are shared with their callers; Agent/Steps has
--     the callers' calls on them, which change them in place.
--   - The loops of the source go over lists and texts, and the functions here are structurally
--     recursive; the search for a colour has as many rounds as its source can have. Only the two
--     walks of utils.ts have fuel, and the one over the parents is proved to
--     end with any fuel above the age of the version.
--   - The queries of the walks are arguments. A text is the sequence of its characters.
--
-- Not modelled: the database and HTTP layers of crux, the adapter of its websockets, the protocol code, the user
-- interface (web/crux-ui), the agents in Go (golang), and the other files of web/crux/src/domain
-- (the templates of pipelines, validation schemas).
pub mod Prelude
pub mod Json
pub mod Container
pub mod Conflict
pub mod Merge
pub mod Deployment
pub mod Version
pub mod VersionIncrease
pub mod VersionTree
pub mod StartDeployment
pub mod NeighborSecrets
pub mod EnvironmentRules
pub mod FixedLengthLinkedList
pub mod ContainerLogStream
pub mod ContainerStatusWatcher
pub mod PipelineInputs
pub mod WsRoute
pub mod EditorService
pub mod WsPath
pub mod AgentCommand
pub mod Agent
pub mod AgentCallback
pub mod AgentUpdate
pub mod BufferedSubject
mod Tests
