-- ===== src/Examples/Data.antt =====
-- A small cluster: one class, one claim, one machine type in one zone, and an API that answers.
use karpenter_provider_stack.Prelude.{
  ◌≡◌, ◌⊎◌, refl, sym, subst, Bool, true, false, Option, none, some, List, [], ◌∷◌, Text, text_eq,
  text_eq_refl, if◌then◌else◌, In, here, there, inl, inr, arith,
}
use karpenter_provider_stack.Prelude.Float.{Float64, finite, pos, ltf, ltf_irrefl}
use karpenter_provider_stack.Errors.{ClientError, open_api, kube_not_found, ok, err}
use karpenter_provider_stack.Env.GoCache.{simple_cache}
use karpenter_provider_stack.Env.Sdk.{Sdk}
use karpenter_provider_stack.Env.Karpenter.{Karpenter, IsKarpenter}
use karpenter_provider_stack.Apis.NodeClass.{StackitNodeClass, condition_true, Condition}
use karpenter_provider_stack.Apis.Core.{Requirements, Offering, InstanceType, NodeClaim, Server}
use karpenter_provider_stack.Cache.{
  default_ttl, unavailable_offerings_ttl, instance_types_and_offerings_ttl,
}
use karpenter_provider_stack.Cache.Unavailable.{UnavailableOfferings}
use karpenter_provider_stack.Stackit.Client.{Client}
use karpenter_provider_stack.Instance.Provider
use karpenter_provider_stack.Offering
use karpenter_provider_stack.CloudProvider.{CloudProvider}

abbrev pub zone_a : Text
zone_a = b'e' ∷ b'u' ∷ b'1' ∷ []

abbrev pub zone_b : Text
zone_b = b'e' ∷ b'u' ∷ b'2' ∷ []

abbrev pub small : Text
small = b'g' ∷ b'1' ∷ b'.' ∷ b'1' ∷ []

abbrev pub team : Text
team = b't' ∷ []

abbrev pub web : Text
web = b'w' ∷ []

abbrev pub server_id : Text
server_id = b's' ∷ b'1' ∷ []

abbrev pub condition : Condition
condition = record { status = condition_true; observed_generation = 1 }

abbrev pub class : StackitNodeClass
class = record {
  name = b'c' ∷ [];
  generation = 1;
  deletion_timestamp = none;
  annotations = [];
  finalizers = [];
  spec = record {
    availability_zones = [];
    boot_volume = record {
      source = record { id = b'i' ∷ []; source_type = none };
      size = 20;
      performance_class = none;
      delete_on_termination = none;
    };
    user_data = none;
    networking = record { network_id = some (b'n' ∷ []); nic_ids = [] };
    security_groups = [];
    keypair_name = none;
    affinity_group = none;
    service_account_mails = [];
    labels = (team, web) ∷ [];
    server_name_prefix = none;
    kubelet = none;
  };
  status = record {
    availability_zones = record { id = zone_a } ∷ [];
    zones_ready = condition;
    validation_succeeded = condition;
    ready = condition;
  };
}

abbrev pub claim : NodeClaim
claim = record {
  name = b'n' ∷ b'1' ∷ [];
  labels = [];
  annotations = [];
  creation_timestamp = some 1000;
  deletion_timestamp = none;
  node_class_ref = some (b'c' ∷ []);
  requirements = [];
  requests = [];
  provider_id = [];
  capacity = [];
  allocatable = [];
  drifted_condition = false;
}

abbrev pub offering : Offering
offering = record { requirements = []; price = finite (pos 7); available = true }

abbrev pub instance_type : InstanceType
instance_type = record {
  name = small;
  requirements = [];
  offerings = offering ∷ [];
  capacity = [];
  overhead = record { kube_reserved = []; system_reserved = []; eviction_threshold = [] };
}

abbrev pub server : Server
server = record {
  id = server_id;
  name = b'n' ∷ b'1' ∷ [];
  availability_zone = zone_a;
  machine_type = small;
  status = [];
  created_at = some 1000;
  labels = [];
  boot_volume_id = none;
}

abbrev pub not_found : ClientError
not_found = open_api 404 [] []

abbrev pub sdk : Sdk
sdk = record {
  on_create_server = λ payload calls. ok server;
  on_get_server = λ id calls. ok server;
  on_delete_server = λ id calls. ok tt;
  on_list_servers = λ selector calls. ok (some (server ∷ []));
  on_update_server = λ id labels calls. ok server;
  on_list_machine_types = λ calls. ok none;
  on_list_availability_zones = λ calls. ok (some (zone_a ∷ []));
  on_delete_volume = λ id calls. ok tt;
}

abbrev pub client : Client
client = record { api = sdk; project_id = b'p' ∷ []; region = b'r' ∷ [] }

-- Offerings are all compatible, and the list holds the available ones first to last.
abbrev keep : Offering → Bool → List Offering → List Offering
keep o true os = o ∷ os
keep o false os = os

abbrev available : List Offering → List Offering
available [] = []
available (o ∷ os) = keep o o.available (available os)

abbrev choose : Bool → Offering → Offering → Offering
choose true o b = o
choose false o b = b

abbrev lesser : Offering → Option Offering → Offering
lesser o none = o
lesser o (some b) = choose (ltf o.price b.price) o b

abbrev cheapest : List Offering → Option Offering
cheapest [] = none
cheapest (o ∷ os) = some (lesser o (cheapest os))

abbrev first_of : List Text → Text
first_of [] = zone_a
first_of (v ∷ vs) = v

abbrev value_of : Requirements → Text → Text
value_of [] key = zone_a
value_of (r ∷ rs) key =
    let rest = value_of rs key in if text_eq r.key key then first_of r.values else rest

abbrev pub karpenter : Karpenter
karpenter = record {
  node_selector_requirements = λ rs. rs;
  compatible = λ rs rs'. true;
  allocatable = λ it. it.capacity;
  offerings_available = available;
  offerings_compatible = λ os rs. os;
  cheapest = cheapest;
  any_value = value_of;
}

abbrev pub all_compatible : Offering → Requirements → Bool
all_compatible o rs = true

keep_sound :
    (x o : Offering) (b : Bool) (os : List Offering)
    → o.available ≡ b
    → In x (keep o b os)
    → ((o ≡ x) × (x.available ≡ true)) ⊎ In x os
keep_sound x o true os e (here h) = inl (h, subst (λ (y : Offering). y.available ≡ true) h e)
keep_sound x o true os e (there m) = inr m
keep_sound x o false os e m = inr m

available_sound :
    (x : Offering) (os : List Offering) → In x (available os) → In x os × (x.available ≡ true)
available_sound x [] m = elim m [ ]
available_sound x (o ∷ os) m = elim (keep_sound x o o.available (available os) refl m) [
  | inl (e, a) ↦ (here e, a)
  | inr n ↦ let (i, a) = available_sound x os n in (there i, a)
]

keep_here : (o : Offering) (b : Bool) (os : List Offering) → b ≡ true → In o (keep o b os)
keep_here o true os h = here refl
keep_here o false os h = cc

keep_there : (x o : Offering) (b : Bool) (os : List Offering) → In x os → In x (keep o b os)
keep_there x o true os m = there m
keep_there x o false os m = m

available_complete :
    (x : Offering) (os : List Offering) → In x os → x.available ≡ true → In x (available os)
available_complete x (o ∷ os) (here e) a =
    subst (λ y. In y (available (o ∷ os))) e
      (keep_here o o.available (available os)
        (subst (λ (y : Offering). y.available ≡ true) (sym e) a))
available_complete x (o ∷ os) (there m) a =
    keep_there x o o.available (available os) (available_complete x os m a)
available_complete x [] m a = elim m [ ]

choose_mem : (b : Bool) (o c : Offering) (os : List Offering) → In c os → In (choose b o c) (o ∷ os)
choose_mem true o c os m = here refl
choose_mem false o c os m = there m

lesser_mem :
    (o : Offering) (os : List Offering) (r : Option Offering)
    → ((c : Offering) → r ≡ some c → In c os)
    → In (lesser o r) (o ∷ os)
lesser_mem o os none h = here refl
lesser_mem o os (some c) h = choose_mem (ltf o.price c.price) o c os (h c refl)

cheapest_mem : (os : List Offering) (c : Offering) → cheapest os ≡ some c → In c os
cheapest_mem [] c e = cc
cheapest_mem (o ∷ os) c e =
    subst (λ y. In y (o ∷ os)) (some_inj e) (lesser_mem o os (cheapest os) (cheapest_mem os))
  where
    some_inj : {a b : Offering} → some a ≡ some b → a ≡ b
    some_inj h = cc

below : (x c o : Float64) → ltf x c ≡ false → ltf o c ≡ true → ltf x o ≡ false
unfolding ltf
below x c o h e = ground arith

-- Against the chosen one: its own price, and one that was no less than the other candidate's.
choose_least :
    (b : Bool) (o c x : Offering)
    → ltf o.price c.price ≡ b
    → ((o ≡ x) ⊎ (ltf x.price c.price ≡ false))
    → ltf x.price (choose b o c).price ≡ false
choose_least true o c x e (inl h) =
    subst (λ (y : Offering). ltf y.price o.price ≡ false) h (ltf_irrefl o.price)
choose_least false o c x e (inl h) = subst (λ (y : Offering). ltf y.price c.price ≡ false) h e
choose_least true o c x e (inr h) = below x.price c.price o.price h e
choose_least false o c x e (inr h) = h

lesser_least :
    (o x : Offering) (os : List Offering) (r : Option Offering)
    → ((c : Offering) → r ≡ some c → In x os → ltf x.price c.price ≡ false)
    → (r ≡ none → os ≡ [])
    → In x (o ∷ os)
    → ltf x.price (lesser o r).price ≡ false
lesser_least o x os none h e (here m) =
    subst (λ (y : Offering). ltf y.price o.price ≡ false) m (ltf_irrefl o.price)
lesser_least o x os none h e (there m) = elim (subst (In x) (e refl) m) [ ]
lesser_least o x os (some c) h e (here m) = choose_least (ltf o.price c.price) o c x refl (inl m)
lesser_least o x os (some c) h e (there m) =
    choose_least (ltf o.price c.price) o c x refl (inr (h c refl m))

cheapest_none : (os : List Offering) → cheapest os ≡ none → os ≡ []
cheapest_none [] e = refl
cheapest_none (o ∷ os) e = cc

cheapest_least :
    (os : List Offering) (c x : Offering)
    → cheapest os ≡ some c
    → In x os
    → ltf x.price c.price ≡ false
cheapest_least [] c x e m = cc
cheapest_least (o ∷ os) c x e m =
    subst (λ (y : Offering). ltf x.price y.price ≡ false) (some_inj e)
      (lesser_least o x os (cheapest os) (λ d. cheapest_least os d x) (cheapest_none os) m)
  where
    some_inj : {a b : Offering} → some a ≡ some b → a ≡ b
    some_inj h = cc

pub karpenter-IsKarpenter : IsKarpenter karpenter all_compatible
karpenter-IsKarpenter = record {
  available_iff = λ o os. (available_sound o os, λ h. available_complete o os h.0 h.1);
  compatible_iff = λ o os r. (λ m. (m, refl), λ h. h.0);
  cheapest_none = cheapest_none;
  cheapest_mem = cheapest_mem;
  cheapest_least = λ os o o' e m. cheapest_least os o o' e m;
  any_value_single = λ r rs v e others. rw (text_eq_refl r.key, e) refl;
}

abbrev pub provider : Provider.DefaultProvider
provider = record {
  cluster_name = b'k' ∷ [];
  api = client;
  instances = simple_cache default_ttl;
  karpenter = karpenter;
}

abbrev pub unavailable : UnavailableOfferings
unavailable = record {
  offering_cache = [];
  offering_cache_seq_num = [];
  zone_cache = [];
  zone_cache_seq_num = 0;
}

abbrev pub state : Provider.State
state = record { calls = []; unavailable_offerings = unavailable; instance_cache = [] }

abbrev pub cloud : CloudProvider
cloud = record {
  region = b'r' ∷ [];
  cluster_name = b'k' ∷ [];
  instances = provider;
  list_types = λ c calls. (ok (instance_type ∷ []), calls);
  allocatable = λ it. it.capacity;
  get_node_class = λ name. ok class;
  get_node_pool = λ name. err kube_not_found;
  hash_spec = λ spec. b'h' ∷ [];
}

abbrev pub offerings : Offering.DefaultProvider
offerings = record {
  price = λ name. some (finite (pos 7));
  offerings = simple_cache instance_types_and_offerings_ttl;
  unavailable = simple_cache unavailable_offerings_ttl;
  hash_zones = λ zones. elim zones [ [] ↦ [] | z ∷ zs ↦ z ];
}
