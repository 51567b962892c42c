-- ===== src/Utils/ProviderId.antt =====
-- Provider ids (pkg/utils/utils.go).
use karpenter_provider_stack.Prelude.{
  ◌≡◌, ◌↔◌, false, ◌||◌, ◌++◌, [], none, some, Text, str, text_eq, cut_prefix, has_byte,
  if◌then◌else◌, arith, cut_prefix-append, cut_prefix_sound,
}
use karpenter_provider_stack.Errors.{ClientError, plain, Result, ok, err}

unfoldable pub provider_id_prefix : Text
unfolding str
provider_id_prefix = str "stackit://"

unfoldable pub parse_instance_id : Text → Result ClientError Text
parse_instance_id provider_id = elim (cut_prefix provider_id provider_id_prefix) [
  | none ↦ err plain
  | some id ↦ if text_eq id [] || has_byte b'/' id then err plain else ok id
]

unfoldable pub provider_id : Text → Text
provider_id id = provider_id_prefix ++ id

-- An instance id that can stand in a provider id: not empty, and without a slash.
abbrev pub IsInstanceId : Text → Type 0
IsInstanceId id = (text_eq id [] ≡ false) × (has_byte b'/' id ≡ false)

-- Parsing a provider id gives an instance id exactly if the provider id is the rendering of that id
-- and the id is not empty and has no slash.
pub parse_instance_id_iff :
    (p id : Text) → (parse_instance_id p ≡ ok id) ↔ ((p ≡ provider_id id) × IsInstanceId id)
unfolding parse_instance_id provider_id
parse_instance_id_iff p id = (
  λ h. ground (arith, cut_prefix_sound p provider_id_prefix id),
  λ h. ground (arith, cut_prefix-append provider_id_prefix id),
)
