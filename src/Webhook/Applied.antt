-- ===== src/Webhook/Applied.antt =====
-- What a pod becomes when the API server applies the patches.
pub mod Volumes
pub mod Mounts
pub mod Whole
pub mod Again
