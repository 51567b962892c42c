-- ===== src/Cache.antt =====
-- pkg/cache: the times to live, and the offerings that are out of rotation.
pub mod Unavailable
use karpenter_provider_stack.Prelude.{ℕ, ◌*◌}

-- Durations in seconds.
abbrev pub default_ttl : ℕ
default_ttl = 60

abbrev pub unavailable_offerings_ttl : ℕ
unavailable_offerings_ttl = 3 * 60

abbrev pub instance_types_and_offerings_ttl : ℕ
instance_types_and_offerings_ttl = 5 * 60

abbrev pub discovered_capacity_ttl : ℕ
discovered_capacity_ttl = 60 * 24 * 60 * 60

abbrev pub validation_ttl : ℕ
validation_ttl = 30 * 60
