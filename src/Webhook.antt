-- ===== src/Webhook.antt =====
-- The admission webhook (internal/webhook): the pod mutator and the admission server.
pub mod Agreement
pub mod Command
pub mod Pod
pub mod Config
pub mod ProviderEnv
pub mod InitEnv
pub mod Volumes
pub mod Containers
pub mod Mutator
pub mod Namespaces
pub mod Admitted
pub mod Refusals
pub mod Server
pub mod JsonPatch
pub mod Applied
