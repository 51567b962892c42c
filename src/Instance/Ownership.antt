-- ===== src/Instance/Ownership.antt =====
-- Whose servers a cluster lists: the labels of a launch against the selector of a listing.
use karpenter_provider_stack.Prelude.{
  ℕ, ◌≡◌, ◌↔◌, refl, sym, ap, ◌∙◌, Option, none, some, [], ◌∷◌, map, Text, text_eq, str, join,
  has_byte, cut_byte, cut_byte-append, split_byte-join, false, Map, lookup, All,
}
use karpenter_provider_stack.Apis.LabelKeys.{label_key_managed_by}
use karpenter_provider_stack.Apis.NodeClass.{StackitNodeClass}
use karpenter_provider_stack.Apis.Core.{NodeClaim}
use karpenter_provider_stack.Utils.Labels.{
  at, label_part, label_selector, sorted_keys, sort_loop, sink, managed_labels, labels_to_api,
  labels_from_api,
}
use karpenter_provider_stack.Utils.Labels.Managed.{managed_labels-managed_by}
use karpenter_provider_stack.Utils.Labels.Selector.{read_selector}
use karpenter_provider_stack.Instance.Provider.{DefaultProvider, managed_by_selector}

-- Labels that are sent as they are come back so.
pub labels_from_api-labels_to_api : (m : Map Text) → labels_from_api (labels_to_api m) ≡ m
unfolding labels_from_api labels_to_api
labels_from_api-labels_to_api [] = refl
labels_from_api-labels_to_api ((k, v) ∷ m) = ap (λ r. (k, v) ∷ r) (labels_from_api-labels_to_api m)

-- A selector takes a server that has each of its labels; a piece without '=' takes none.
abbrev pub Meets : Map Text → Option (Text × Text) → Type 0
Meets labels none = ⊥
Meets labels (some (k, v)) = lookup k labels ≡ some v

abbrev pub Selects : Text → Map Text → Type 0
Selects selector labels = All (Meets labels) (read_selector selector)

abbrev mine : DefaultProvider → Map Text
mine p = (label_key_managed_by, p.cluster_name) ∷ []

sorted_keys-mine : (p : DefaultProvider) → sorted_keys (mine p) ≡ label_key_managed_by ∷ []
unfolding sorted_keys sort_loop sink
sorted_keys-mine p = refl

at-mine : (p : DefaultProvider) → at (mine p) label_key_managed_by ≡ p.cluster_name
unfolding lookup text_eq str
at-mine p = refl

same_name : {A : Type 0} {a b : A} → some a ≡ some b → a ≡ b
same_name e = cc

part_no_comma :
    (p : DefaultProvider)
    → has_byte b',' p.cluster_name ≡ false
    → has_byte b',' (label_part (mine p) label_key_managed_by) ≡ false
unfolding label_part str has_byte
part_no_comma p h = rw (at-mine p) h

cut_part :
    (p : DefaultProvider)
    → cut_byte b'=' (label_part (mine p) label_key_managed_by)
      ≡ some (label_key_managed_by, p.cluster_name)
unfolding label_part str
cut_part p =
    rw (at-mine p)
      (cut_byte-append b'=' label_key_managed_by p.cluster_name (unfold has_byte in refl))

read_mine :
    (p : DefaultProvider) (now : ℕ)
    → has_byte b',' p.cluster_name ≡ false
    → read_selector (managed_by_selector p now) ≡ some (label_key_managed_by, p.cluster_name) ∷ []
unfolding managed_by_selector label_selector read_selector join
read_mine p now h =
    let part = label_part (mine p) label_key_managed_by in
    ap (λ ks. read_selector (join (str ",") (map (label_part (mine p)) ks))) (sorted_keys-mine p)
    ∙ ap (map (cut_byte b'=')) (split_byte-join b',' part [] (part_no_comma p h, tt))
    ∙ ap (λ r. r ∷ []) (cut_part p)

-- If the cluster's name has no comma: the listing of a cluster selects a server that was
-- launched with the labels of some class and claim for some cluster exactly if that is the same
-- cluster.
pub managed_by_selector_iff :
    (p : DefaultProvider) (now : ℕ) (c : StackitNodeClass) (n : NodeClaim) (cluster : Text)
    → has_byte b',' p.cluster_name ≡ false
    → Selects
        (managed_by_selector p now)
        (labels_from_api (labels_to_api (managed_labels c n cluster)))
      ↔ (p.cluster_name ≡ cluster)
managed_by_selector_iff p now c n cluster h =
    let labels = managed_labels c n cluster in
    rw
      (
        read_mine p now h,
        labels_from_api-labels_to_api labels,
        managed_labels-managed_by c n cluster,
      )
      ((λ m. sym (same_name m.0)), λ e. (ap some (sym e), tt))
