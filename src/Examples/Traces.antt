-- ===== src/Examples/Traces.antt =====
-- The theorems on sequences of operations, at short ones.
use karpenter_provider_stack.Prelude.{
  ◌≡◌, ◌↔◌, refl, ap, true, false, Option, none, some, List, [], ◌∷◌, Text, text_eq, has_byte,
  lookup, arith, insert, assign,
}
use karpenter_provider_stack.Prelude.Binary.{Binary, ceil, div, mul, rounded, bits, nearest}
use karpenter_provider_stack.Errors.{ClientError, Err, Result, ok, err}
use karpenter_provider_stack.Env.Go.{Go}
use karpenter_provider_stack.Env.GoCache.{simple_cache, simple_cache-IsGoCache}
use karpenter_provider_stack.Apis.NodeClass.{kubelet_configuration, availability_zone_ids}
use karpenter_provider_stack.Apis.Core.{InstanceType, MachineType, NodeClaim, Server}
use karpenter_provider_stack.Cache.{
  default_ttl, unavailable_offerings_ttl, instance_types_and_offerings_ttl, discovered_capacity_ttl,
}
use karpenter_provider_stack.Cache.Unavailable.{UnavailableOfferings, is_unavailable}
use karpenter_provider_stack.Cache.Unavailable.Spec.{
  Event, marked, zone_marked, deleted, cleaned, unavailable as unavailable_by, NotExpiring,
  marked_at, zone_marked_at,
}
use karpenter_provider_stack.Cache.Unavailable.Refinement.{run, run_refines}
use karpenter_provider_stack.Stackit.Client.{Client, client_get_server}
use karpenter_provider_stack.Utils.ProviderId.{provider_id}
use karpenter_provider_stack.Instance.Provider
use karpenter_provider_stack.Instance.Provider.{get, remember, fetch, fetched}
use karpenter_provider_stack.Instance.{new_instance}
use karpenter_provider_stack.Instance.Keyed.{AnswersById}
use karpenter_provider_stack.Instance.Coherence.{start, next, gets, get-id}
use karpenter_provider_stack.InstanceType.Resolve.{
  overhead_mib, resolve, new_instance_type, kube_reserved_resources, parse_quantities,
  eviction_threshold, eviction_signal,
}
use karpenter_provider_stack.InstanceType.Catalog
use karpenter_provider_stack.InstanceType.Catalog.{
  list, list_types, new_state, updated, resolve_all, get_type, cache_key,
}
use karpenter_provider_stack.InstanceType.Catalog.Names.{InCatalog}
use karpenter_provider_stack.InstanceType.Catalog.Coherence.{listed, refreshed}
use karpenter_provider_stack.InstanceType.Catalog.Coherence
use karpenter_provider_stack.InstanceType.Catalog.Resolved.{Has}
use karpenter_provider_stack.InstanceType.Catalog.Exact.{Got, list_exact}
use karpenter_provider_stack.Offering.{inject_offerings}
use karpenter_provider_stack.Controllers.GarbageCollection.{Kube, State}
use karpenter_provider_stack.Controllers.GarbageCollection.Safety.{request_to_delete}
use karpenter_provider_stack.Examples.Data.{
  small, zone_a, zone_b, server_id, class, claim, server, client, sdk, provider, state, cloud,
  offerings, unavailable,
}

abbrev offering_events : List Event
offering_events =
    cleaned 16 ∷ zone_marked 15 zone_b ∷ deleted small zone_b ∷ marked 10 small zone_a ∷ []

no_colon : has_byte b':' small ≡ false
unfolding has_byte
no_colon = refl

pair-NotExpiring : NotExpiring (marked_at offering_events small zone_a) 20
unfolding text_eq
pair-NotExpiring = omega arith

zone-NotExpiring : NotExpiring (zone_marked_at offering_events zone_a) 20
unfolding text_eq
zone-NotExpiring = tt

run_refines_example :
    (u : UnavailableOfferings) × (run (simple_cache unavailable_offerings_ttl) offering_events
      ≡ some u)
    × (is_unavailable (simple_cache unavailable_offerings_ttl) u 20 small zone_a
        ≡ unavailable_by offering_events 20 small zone_a)
run_refines_example =
    run_refines (simple_cache unavailable_offerings_ttl)
      (simple_cache-IsGoCache unavailable_offerings_ttl) offering_events 20 small zone_a
      (omega arith, (omega arith, (no_colon, (omega arith, no_colon, tt)))) (omega arith) no_colon
      pair-NotExpiring zone-NotExpiring

-- An API that answers by the id.
abbrev answering : Client
answering = record client {
  api = record sdk { on_get_server = λ id calls. ok (record server { id = id }) };
}

abbrev instances : Provider.DefaultProvider
instances = record provider { api = answering }

abbrev answered_id : Result ClientError Server → Text
answered_id (err e) = []
answered_id (ok s) = s.id

answering-AnswersById : AnswersById answering
unfolding new_instance client_get_server
answering-AnswersById id h s e = cc (ap (λ (r : Result ClientError Server). answered_id r) e)

abbrev after_get : Provider.State
after_get = (get instances 5 false server_id state).1

got_again : get instances 6 false server_id after_get ≡ (ok (new_instance server), after_get)
unfolding get fetch fetched remember new_instance client_get_server text_eq
got_again = refl

get-id_example : (new_instance server).id ≡ server_id
get-id_example =
    get-id instances answering-AnswersById (simple_cache-IsGoCache default_ttl) 6 false server_id
      (new_instance server) after_get (next (start {s = state} refl) (gets 5 false server_id refl))
      got_again

abbrev managed : NodeClaim
managed = record claim { provider_id = provider_id server_id }

abbrev kube : Kube
kube = record { list_managed = ok (managed ∷ []); list_nodes = ok []; delete_node = λ node. none }

-- An earlier request to delete the server stands in the history.
abbrev collector : State
collector = record {
  provider = record state { calls = request_to_delete cloud kube 2000 server_id ∷ [] };
  successful_count = 0;
  deleted_nodes = [];
}

abbrev pub go : Go
go = record {
  format = λ n. b'1' ∷ [];
  parse_quantity = λ text. none;
  parse_percentage = λ text. none;
}

-- The float64 that is closest to 0.07.
abbrev pub seven_percent : Binary
seven_percent = record { mantissa = 5044031582654956; scale = 56 }

-- The product is a little above 3584, and is rounded up.
overhead_above : overhead_mib 51200 seven_percent ≡ 3585
unfolding overhead_mib ceil div mul rounded bits nearest
overhead_above = refl

abbrev pub types : Catalog.DefaultProvider
types = record {
  api = client;
  go = go;
  share = seven_percent;
  region = b'r' ∷ [];
  instance_types = simple_cache instance_types_and_offerings_ttl;
  discovered_capacity = simple_cache discovered_capacity_ttl;
  hash_settings = λ region zones size kubelet. region;
  has_changed = λ shown v. true;
}

abbrev pub machine : MachineType
machine = record { name = small; vcpus = 1; ram = 1024; disk = 0 }

abbrev loaded : Catalog.State
loaded = (updated types (ok (machine ∷ [])) new_state).1

-- The first listing is made afresh, and the second is served from the cache.
abbrev answer_of :
    Option (Result Err (List InstanceType) × Catalog.State) → List InstanceType × Catalog.State
answer_of none = ([], new_state)
answer_of (some (err e, s)) = ([], s)
answer_of (some (ok its, s)) = (its, s)

abbrev first : List InstanceType × Catalog.State
first = answer_of (list types 5 (some offerings) unavailable class loaded)

abbrev second : List InstanceType × Catalog.State
second = answer_of (list types 6 (some offerings) unavailable class first.1)

first_given : list types 5 (some offerings) unavailable class loaded ≡ some (ok first.0, first.1)
unfolding list list_types resolve_all get_type resolve new_instance_type kube_reserved_resources
    parse_quantities eviction_threshold eviction_signal lookup updated cache_key insert assign
    text_eq kubelet_configuration inject_offerings availability_zone_ids
first_given = refl

second_given :
    list types 6 (some offerings) unavailable class first.1 ≡ some (ok second.0, second.1)
unfolding list list_types resolve_all get_type resolve new_instance_type kube_reserved_resources
    parse_quantities eviction_threshold eviction_signal lookup updated cache_key insert assign
    text_eq kubelet_configuration inject_offerings availability_zone_ids
second_given = refl

list_exact_example :
    (Has small second.0 ↔ InCatalog first.1.machine_types small)
    × (Got types 6 (some offerings) unavailable class small first.1 second.1 second.0
        ↔ InCatalog first.1.machine_types small)
list_exact_example =
    list_exact types (λ shown v h. cc) (simple_cache-IsGoCache instance_types_and_offerings_ttl) 6
      (some offerings) unavailable class second.0 second.1 small
      (Coherence.next (Coherence.next Coherence.start (refreshed (ok (machine ∷ [])) refl))
        (listed 5 (some offerings) unavailable class (ok first.0) first_given))
      second_given
