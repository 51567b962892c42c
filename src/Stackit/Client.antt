-- ===== src/Stackit/Client.antt =====
-- The methods of Client: each makes one SDK request in the client's project and region, and wraps
-- the error. The state is the list of the requests made, newest first.
use karpenter_provider_stack.Prelude.{
  Option, none, some, List, [], ◌∷◌, Text, text_eq, Map, if◌then◌else◌,
}
use karpenter_provider_stack.Errors.{ClientError, plain, wrapped, Result, ok, err}
use karpenter_provider_stack.Env.Sdk.{
  Sdk, Call, Request, CreateServerPayload, create_server, get_server, delete_server, list_servers,
  update_server, list_machine_types, list_availability_zones, delete_volume,
}
use karpenter_provider_stack.Apis.Core.{Server, MachineType}
use karpenter_provider_stack.Utils.Labels.{labels_to_api}

pub record Client : Type 0 where
  pub api : Sdk
  pub project_id : Text
  pub region : Text

-- NewClient: both settings are required. The SDK client's own construction is a parameter.
unfoldable pub new_client : Result ClientError Sdk → Text → Text → Result ClientError Client
new_client made project_id region =
    if text_eq project_id []
    then err plain
    else if text_eq region []
    then err plain
    else elim made [
      | err e ↦ err (wrapped e)
      | ok api ↦ ok (record { api = api; project_id = project_id; region = region })
    ]

abbrev pub Io : Type 0 → Type 0
Io A = List Call → Result ClientError A × List Call

abbrev pub wrap_err {ℓ} : {A : Type ℓ} → Result ClientError A → Result ClientError A
wrap_err (ok a) = ok a
wrap_err (err e) = err (wrapped e)

-- `resp.Items`, and nothing for a nil response.
abbrev pub items {ℓ} :
    {A : Type ℓ} → Result ClientError (Option (List A)) → Result ClientError (List A)
items (ok none) = ok []
items (ok (some l)) = ok l
items (err e) = err (wrapped e)

module _ (c : Client) where
  abbrev pub call : Request → Call
  call r = record { project_id = some c.project_id; region = c.region; request = r }

  unfoldable pub client_create_server : CreateServerPayload → Io Server
  client_create_server payload h =
      (wrap_err (c.api.on_create_server payload h), call (create_server payload) ∷ h)

  unfoldable pub client_get_server : Text → Io Server
  client_get_server id h = (wrap_err (c.api.on_get_server id h), call (get_server id) ∷ h)

  unfoldable pub client_delete_server : Text → Io (Unit {0})
  client_delete_server id h = (wrap_err (c.api.on_delete_server id h), call (delete_server id) ∷ h)

  unfoldable pub client_list_servers : Text → Io (List Server)
  client_list_servers selector h =
      let filter = if text_eq selector [] then none else some selector in
      (items (c.api.on_list_servers filter h), call (list_servers filter) ∷ h)

  unfoldable pub client_update_server_labels : Text → Map Text → Io (Unit {0})
  client_update_server_labels id labels h = (
    elim (c.api.on_update_server id (labels_to_api labels) h) [
      | ok s ↦ ok tt
      | err e ↦ err (wrapped e)
    ],
    call (update_server id (labels_to_api labels)) ∷ h,
  )

  unfoldable pub client_list_machine_types : Io (List MachineType)
  client_list_machine_types h = (items (c.api.on_list_machine_types h), call list_machine_types ∷ h)

  -- The one call that is region-scoped but not project-scoped.
  unfoldable pub client_list_availability_zones : Io (List Text)
  client_list_availability_zones h = (
    items (c.api.on_list_availability_zones h),
    record { project_id = none; region = c.region; request = list_availability_zones } ∷ h,
  )

  unfoldable pub client_delete_volume : Text → Io (Unit {0})
  client_delete_volume id h = (wrap_err (c.api.on_delete_volume id h), call (delete_volume id) ∷ h)
