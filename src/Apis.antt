-- ===== src/Apis.antt =====
-- The API types: pkg/apis/v1alpha1, and what the program reads of Karpenter's and the SDK's types.
pub mod LabelKeys
pub mod NodeClass
pub mod Core
