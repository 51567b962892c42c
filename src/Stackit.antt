-- ===== src/Stackit.antt =====
-- pkg/stackit/sdk.go: the client around the SDK, and the classification of its errors.
pub mod Classify
pub mod Client
