-- ===== src/Lib.antt =====
-- karpenter-provider-stackit: the part of Karpenter that launches, inspects and removes servers at
-- STACKIT for a Kubernetes cluster.
--
-- The program's parts, and the files that model them (paths from the repository's root):
--   * Errors, Prelude: Go's error chains and the results of fallible calls; tests, lists, byte
--     strings, association lists for Go's maps, and the order of float64. A text is its list of
--     bytes.
--   * Apis: the node class with its accessors (pkg/apis/v1alpha1), the label and annotation keys,
--     and the records of Karpenter, Kubernetes and the SDK that the program reads and writes.
--   * Env: what is not code of the repository. A cache of go-cache is a function of the history of
--     its operations, with the documented laws in IsGoCache; the IaaS SDK is a function of the
--     requests made so far; Karpenter's methods on offerings have the laws in IsKarpenter; the
--     condition set of operatorpkg, which computes Ready, has those in IsConditions. Each of these
--     has an instance that satisfies the laws. Go has the parsers and the format that the
--     instance types use.
--   * Utils: provider ids, SanitizeZone, ManagedLabels, ValidateLabels, LabelSelector,
--     PrettySlice, WithDefaultFloat64 (pkg/utils/utils.go).
--   * Stackit: the client's methods and the classification of its errors (pkg/stackit/sdk.go).
--   * Cache: the times to live and UnavailableOfferings (pkg/cache). Spec is what it promises, by the
--     history of marks alone, and Refinement relates the two.
--   * Pricing: model prices, overrides and the refresh (pkg/providers/pricing/pricing.go). A price is
--     a whole number of 1/102400000 euro, so rounding is not modelled; NaN and the infinities are.
--   * Offering: offerings per zone and their cache (pkg/providers/instancetype/offering).
--   * InstanceType: what a machine type offers and what is reserved of it, Resolve making an instance
--     type of it (pkg/providers/instancetype/types.go), Catalog the provider with its caches and
--     the memory that nodes report in Discovered (instancetype.go). Catalog.Coherence has the steps
--     of the provider.
--   * Instance: servers for claims (pkg/providers/instance): Select is cheapestOffering, Payload is
--     createPayload, Provider has the methods of DefaultProvider, Coherence the steps that they are.
--     Retry is about a refused launch and the next pass over the offerings.
--   * CloudProvider: Create, Get, List, Delete, GetInstanceTypes, IsDrifted, RepairPolicies
--     (pkg/cloudprovider/cloudprovider.go, drift.go); Launchable is about the class controller and
--     Create together, Fresh about Create and drift detection. It knows the
--     instance types, as the source does, by an interface: its field list_types is their List.
--   * Controllers: NodeClass, Hash, Termination, Labeling, GarbageCollection and Refresh, each the
--     Reconcile of its controller (pkg/controllers).
--   * Operator: the options and NewOperator (pkg/operator).
--   * Examples: concrete inputs at which the theorems apply.
--
-- How the parts interact. Garbage collection deletes through the cloud provider, which deletes
-- through the instance provider, which calls the client. Create of the cloud provider asks the
-- instance types for candidates and the instance provider for a server; a launch that fails marks
-- offerings unavailable, which the offerings of the next pass read. The class controller sets the
-- zones and the conditions that Create and drift detection read; the hash controller writes the
-- annotations that drift detection compares.
--
-- State is passed explicitly: a method takes the time and the state and gives its result and the new
-- state; the requests made are part of the state, newest first. A parallel loop is the sequence of
-- its turns. All loops of the source are structural recursion on lists. Times are in seconds;
-- sequence numbers wrap around at 2 ^ 64, as uint64 does.
--
-- The memory overhead and the percentages of eviction thresholds are products of float64: they are
-- rounded to 53 significant bits as in the source (Prelude.Binary, whose fuel of 2048 digits is more
-- than these products have). The CPU that is kept back is computed on whole vCPUs, for which the
-- source's products round to the exact ones. A panic of the quantity parsers is an outer `none`.
--
-- Not modelled: log lines, events and metrics; the registration of the controllers and of the API
-- types; generated deep copies; locks (each method runs as a whole); binary rounding of prices.
pub mod Prelude
pub mod Errors
pub mod Apis
pub mod Cache
pub mod Env
pub mod Utils
pub mod Stackit
pub mod Pricing
pub mod Instance
pub mod InstanceType
pub mod Offering
pub mod Operator
pub mod Controllers
pub mod CloudProvider
mod Examples
