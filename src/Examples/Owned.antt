-- ===== src/Examples/Owned.antt =====
-- The theorems on a server's labels and on a class's reconcile, at one server and one class.
use karpenter_provider_stack.Prelude.{
  ◌≡◌, ◌↔◌, refl, All, Bool, true, false, ◌&&◌, none, List, [], ◌∷◌, Text, str, text_eq,
  text_eq_refl, Map, lookup, insert, assign, has_byte,
}
use karpenter_provider_stack.Errors.{ok}
use karpenter_provider_stack.Env.GoCache.{simple_cache, simple_cache-IsGoCache}
use karpenter_provider_stack.Env.Conditions.{simple_conditions, simple_conditions-IsConditions}
use karpenter_provider_stack.Env.Sdk.{Call, Request, get_server, update_server}
use karpenter_provider_stack.Apis.Core.{NodeClaim, Server, LabelValue}
use karpenter_provider_stack.Cache.{default_ttl, validation_ttl}
use karpenter_provider_stack.Stackit.Client.{
  Client, call, client_list_availability_zones, client_get_server, client_update_server_labels,
}
use karpenter_provider_stack.Utils.ProviderId.{provider_id}
use karpenter_provider_stack.Utils.Labels.{
  managed_entries, managed_labels, labels_to_api, labels_from_api,
}
use karpenter_provider_stack.Instance.{new_instance}
use karpenter_provider_stack.Instance.Provider
use karpenter_provider_stack.Instance.Provider.{get, fetch, fetched, remember, managed_by_selector}
use karpenter_provider_stack.Instance.Ownership.{Selects, managed_by_selector_iff}
use karpenter_provider_stack.Controllers.NodeClass
use karpenter_provider_stack.Controllers.NodeClass.{done}
use karpenter_provider_stack.Controllers.NodeClass.Outcomes.{Reconciled, reconcile_lem}
use karpenter_provider_stack.Controllers.Labeling.{Kube, reconcile}
use karpenter_provider_stack.Controllers.Labeling.Convergence.{
  StoresLabels, IsOurs, asked, reconcile_converges,
}
use karpenter_provider_stack.Controllers.NodeClass.Zones.{Known, requested}
use karpenter_provider_stack.Controllers.NodeClass.Reconcile.{IsValid}
use karpenter_provider_stack.CloudProvider.{readiness}
use karpenter_provider_stack.CloudProvider.Launchable.{launchable_iff}
use karpenter_provider_stack.Examples.Data.{
  cloud, zone_a, server_id, class, claim, server, client, sdk, provider, state,
}

no_comma : has_byte b',' provider.cluster_name ≡ false
unfolding has_byte
no_comma = refl

managed_by_selector_iff_example :
    Selects
      (managed_by_selector provider 5)
      (labels_from_api (labels_to_api (managed_labels class claim (b'k' ∷ []))))
    ↔ (provider.cluster_name ≡ b'k' ∷ [])
managed_by_selector_iff_example =
    managed_by_selector_iff provider 5 class claim (b'k' ∷ []) no_comma

-- An API that keeps the labels of the last request.
abbrev labels_of : Request → Map LabelValue
labels_of (update_server id labels) = labels
labels_of _ = []

abbrev last_labels : List Call → Map LabelValue
last_labels [] = []
last_labels (c ∷ calls) = labels_of c.request

abbrev storing : Client
storing = record client {
  api = record sdk {
    on_get_server = λ id calls. ok (record server { id = id; labels = last_labels calls });
  };
}

storing-StoresLabels : StoresLabels storing
unfolding client_get_server
storing-StoresLabels id labels h taken =
    (record server { id = id; labels = labels_to_api labels }, refl, refl)

abbrev labelled : Provider.DefaultProvider
labelled = record provider { api = storing }

abbrev same_maps : Map Text → Map Text → Bool
same_maps [] [] = true
same_maps [] (e ∷ m) = false
same_maps (e ∷ m) [] = false
same_maps ((k, v) ∷ m) ((k', v') ∷ m') =
    let rest = same_maps m m' in text_eq k k' && (text_eq v v' && rest)

same_maps_refl : (m : Map Text) → same_maps m m ≡ true
same_maps_refl [] = refl
same_maps_refl ((k, v) ∷ m) = rw (text_eq_refl k, text_eq_refl v, same_maps_refl m) refl

abbrev kube : Kube
kube = record { get_node_class = λ name. ok class; maps_equal = same_maps }

abbrev ours : NodeClaim
ours = record claim { provider_id = provider_id server_id }

ours-IsOurs : IsOurs kube ours server_id class
unfolding text_eq has_byte
ours-IsOurs = record {
  not_deleting = refl;
  has_id = refl;
  is_instance_id = (refl, refl);
  class_name = b'c' ∷ [];
  has_class = refl;
  class_found = refl;
}

abbrev read : Provider.State
read = (get labelled 5 false server_id state).1

abbrev first_server : Server
first_server = record server { id = server_id }

read_given : get labelled 5 false server_id state ≡ (ok (new_instance first_server), read)
unfolding get fetch fetched remember new_instance client_get_server
read_given = refl

labels_differ :
    same_maps (managed_labels class ours (b'k' ∷ [])) (new_instance first_server).labels ≡ false
unfolding managed_labels managed_entries new_instance labels_from_api assign insert str text_eq
    lookup
labels_differ = refl

update_taken :
    (client_update_server_labels storing server_id
      (managed_labels class ours (b'k' ∷ []))
      read.calls).0
    ≡ ok tt
unfolding client_update_server_labels
update_taken = refl

reconcile_converges_example :
    let sent =
      asked kube labelled
        (b'k' ∷ [])
        server_id
        (managed_labels class ours (b'k' ∷ []))
        read.calls in
    (s1 : Provider.State) × (s2 : Provider.State) × (reconcile kube labelled
        (b'k' ∷ [])
        5
        ours
        state
      ≡ (done, s1))
    × (s1.calls ≡ sent)
    × (reconcile kube labelled (b'k' ∷ []) 99 ours s1 ≡ (done, s2))
    × (s2.calls ≡ call labelled.api (get_server server_id) ∷ sent)
reconcile_converges_example =
    reconcile_converges kube labelled (b'k' ∷ []) (simple_cache-IsGoCache default_ttl)
      storing-StoresLabels same_maps_refl 5 99 ours server_id class (new_instance first_server)
      state read ours-IsOurs read_given labels_differ update_taken

-- A class is reconciled with the zones that the API lists.
abbrev class_kube : NodeClass.Kube
class_kube = record { same = λ a b. false; patch_status = λ c. none }

abbrev class_controller : NodeClass.Controller
class_controller = record {
  api = client;
  zones = simple_cache validation_ttl;
  conditions = simple_conditions;
}

abbrev class_state : NodeClass.State
class_state = record { calls = []; validation_cache = [] }

reconcile_lem_example :
    Reconciled class_kube class_controller 5 class class_state
      (NodeClass.reconcile class_kube class_controller 5 class class_state)
reconcile_lem_example = reconcile_lem class_kube class_controller 5 class class_state refl

class_listed :
    (NodeClass.list_availability_zones class_controller 5 class_state).0 ≡ ok (zone_a ∷ [])
unfolding NodeClass.list_availability_zones client_list_availability_zones
class_listed = refl

launchable_iff_example :
    let left = (NodeClass.reconcile class_kube class_controller 5 class class_state).0.1 in
    (readiness cloud left ≡ none) ↔ (
      (left.generation ≡ 1)
      × All (Known (zone_a ∷ [])) (requested (zone_a ∷ []) class)
      × IsValid class)
launchable_iff_example =
    launchable_iff cloud class_kube class_controller 5 class class_state
      (NodeClass.reconcile class_kube class_controller 5 class class_state).0.1 zone_a []
      simple_conditions-IsConditions refl class_listed refl
