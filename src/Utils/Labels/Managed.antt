-- ===== src/Utils/Labels/Managed.antt =====
-- ManagedLabels: what a launched server carries.
use karpenter_provider_stack.Prelude.{
  ◌≡◌, refl, true, false, Option, none, some, Text, str, text_eq, lookup, insert, lookup-assign,
  last_entry, ◌∙◌, arith,
}
use karpenter_provider_stack.Apis.LabelKeys.{
  label_key_managed_by, label_key_node_pool, label_key_node_claim, label_key_node_class,
  is_reserved, managed_label_keys,
}
use karpenter_provider_stack.Apis.NodeClass.{StackitNodeClass}
use karpenter_provider_stack.Apis.Core.{NodeClaim}
use karpenter_provider_stack.Utils.Labels.{managed_entries, managed_labels}

-- The managed keys are distinct.
distinct_keys :
    (text_eq label_key_managed_by label_key_managed_by ≡ true)
    × (text_eq label_key_managed_by label_key_node_class ≡ false)
    × (text_eq label_key_managed_by label_key_node_claim ≡ false)
    × (text_eq label_key_managed_by label_key_node_pool ≡ false)
    × (text_eq label_key_node_class label_key_managed_by ≡ false)
    × (text_eq label_key_node_class label_key_node_class ≡ true)
    × (text_eq label_key_node_class label_key_node_claim ≡ false)
    × (text_eq label_key_node_class label_key_node_pool ≡ false)
    × (text_eq label_key_node_claim label_key_managed_by ≡ false)
    × (text_eq label_key_node_claim label_key_node_class ≡ false)
    × (text_eq label_key_node_claim label_key_node_claim ≡ true)
    × (text_eq label_key_node_claim label_key_node_pool ≡ false)
    × (text_eq label_key_node_pool label_key_managed_by ≡ false)
    × (text_eq label_key_node_pool label_key_node_class ≡ false)
    × (text_eq label_key_node_pool label_key_node_claim ≡ false)
    × (text_eq label_key_node_pool label_key_node_pool ≡ true)
unfolding str text_eq
distinct_keys =
    (refl, refl, refl, refl, refl, refl, refl, refl, refl, refl, refl, refl, refl, refl, refl, refl)

entries_lem :
    (cluster class claim : Text) (pool : Option Text)
    → let m = managed_entries cluster class claim pool in
      (last_entry label_key_managed_by m ≡ some cluster)
      × (last_entry label_key_node_class m ≡ some class)
      × (last_entry label_key_node_claim m ≡ some claim)
      × (last_entry label_key_node_pool m ≡ pool)
unfolding managed_entries insert
entries_lem cluster class claim none = let d = distinct_keys in ground arith
entries_lem cluster class claim (some p) = let d = distinct_keys in ground arith

entries_other :
    (cluster class claim : Text) (pool : Option Text) (k : Text)
    → is_reserved k ≡ false
    → last_entry k (managed_entries cluster class claim pool) ≡ none
unfolding managed_entries insert is_reserved managed_label_keys
entries_other cluster class claim none k h = ground arith
entries_other cluster class claim (some p) k h = let d = distinct_keys in ground arith

-- The cluster's name stands under managed-by, with or without a node pool.
pub managed_labels-managed_by :
    (c : StackitNodeClass) (n : NodeClaim) (cluster : Text)
    → lookup label_key_managed_by (managed_labels c n cluster) ≡ some cluster
unfolding managed_labels
managed_labels-managed_by c n cluster =
    let e = entries_lem cluster c.name n.name (lookup label_key_node_pool n.labels) in
    rw (lookup-assign, e.0)

-- The four managed keys of a server for a claim of a node pool carry the cluster, the class, the
-- claim and the pool, whatever the user's labels are.
pub managed_labels_lem :
    (c : StackitNodeClass) (n : NodeClaim) (cluster pool : Text)
    → lookup label_key_node_pool n.labels ≡ some pool
    → let m = managed_labels c n cluster in
      (lookup label_key_managed_by m ≡ some cluster)
      × (lookup label_key_node_class m ≡ some c.name)
      × (lookup label_key_node_claim m ≡ some n.name)
      × (lookup label_key_node_pool m ≡ some pool)
unfolding managed_labels
managed_labels_lem c n cluster pool h =
    let e = entries_lem cluster c.name n.name (lookup label_key_node_pool n.labels) in
    (
      managed label_key_managed_by e.0,
      managed label_key_node_class e.1,
      managed label_key_node_claim e.2,
      managed label_key_node_pool (e.3 ∙ h),
    )
  where
    managed :
        (k : Text) {v : Text}
        → last_entry k (managed_entries cluster c.name n.name (lookup label_key_node_pool n.labels))
          ≡ some v
        → lookup k (managed_labels c n cluster) ≡ some v
    managed k e = rw (lookup-assign, e)

-- At any other key the server carries the user's label, or none.
pub managed_labels_user :
    (c : StackitNodeClass) (n : NodeClaim) (cluster k : Text)
    → is_reserved k ≡ false
    → lookup k (managed_labels c n cluster) ≡ lookup k c.spec.labels
unfolding managed_labels
managed_labels_user c n cluster k h =
    rw
      (lookup-assign, entries_other cluster c.name n.name (lookup label_key_node_pool n.labels) k h)
