-- ===== src/Utils.antt =====
-- pkg/utils/utils.go.
pub mod ProviderId
pub mod Zone
pub mod Labels
pub mod Pretty
pub mod Settings
