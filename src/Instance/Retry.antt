-- ===== src/Instance/Retry.antt =====
-- A launch that fails for lack of capacity, and the next launch: Create, the offerings' provider and
-- the unavailable offerings together.
use karpenter_provider_stack.Prelude.{
  ℕ, ◌+◌, ◌≤◌, ◌<◌, ◌≡◌, ◌≢◌, inl, refl, sym, ap, subst, ◌∙◌, List, Bool, Text, Map, true, false,
}
use karpenter_provider_stack.Errors.{ClientError, ok, err}
use karpenter_provider_stack.Env.GoCache.{IsGoCache}
use karpenter_provider_stack.Env.Karpenter.{IsKarpenter}
use karpenter_provider_stack.Env.Sdk.{CreateServerPayload}
use karpenter_provider_stack.Apis.NodeClass.{StackitNodeClass}
use karpenter_provider_stack.Apis.Core.{
  Requirements, Offering as KarpenterOffering, InstanceType, NodeClaim,
}
use karpenter_provider_stack.Cache.{unavailable_offerings_ttl, instance_types_and_offerings_ttl}
use karpenter_provider_stack.Cache.Unavailable.{is_unavailable, seq_at, seq_num, mark_unavailable}
use karpenter_provider_stack.Cache.Unavailable.Marks.{mark_unavailable_lem}
use karpenter_provider_stack.Stackit.Classify.{is_unauthorized, is_insufficient_capacity}
use karpenter_provider_stack.Stackit.Client.{client_create_server}
use karpenter_provider_stack.Instance.Payload.{create_payload}
use karpenter_provider_stack.Instance.Select.{cheapest_offering}
use karpenter_provider_stack.Instance.Select.Chosen.{cheapest_offering-Offers}
use karpenter_provider_stack.Instance.Provider
use karpenter_provider_stack.Instance.Provider.{
  State, create, launch, launched, record_launch_failure,
}
use karpenter_provider_stack.Offering
use karpenter_provider_stack.Offering.{inject_offerings}
use karpenter_provider_stack.Offering.Freshness.{inject_offerings-Current}
use karpenter_provider_stack.Offering.Withdrawn.{inject_offerings-Withdrawn}

module _ (p : Provider.DefaultProvider) (now : ℕ) (c : StackitNodeClass) (claim : NodeClaim)
    (labels : Map Text) (its : List InstanceType) (s : State) where
  -- What a Create whose request is refused for lack of capacity marks.
  create-marks :
      (it : InstanceType) (z : Text) (payload : CreateServerPayload) (e : ClientError)
      → cheapest_offering p.karpenter its claim ≡ ok (it, z)
      → create_payload c claim it z labels ≡ ok payload
      → (client_create_server p.api payload s.calls).0 ≡ err e
      → is_insufficient_capacity e ≡ true
      → is_unauthorized e ≡ false
      → (create p now c claim labels its s).1.unavailable_offerings
        ≡ mark_unavailable now it.name z s.unavailable_offerings
  unfolding create launch launched record_launch_failure
  create-marks it z payload e chosen built refused capacity authorized =
      rw (chosen, built, refused, authorized, capacity) refl

module _ (p : Provider.DefaultProvider) (o : Offering.DefaultProvider)
    (offering_compatible : KarpenterOffering → Requirements → Bool)
    (karpenter : IsKarpenter p.karpenter offering_compatible)
    (offerings : IsGoCache instance_types_and_offerings_ttl o.offerings)
    (unavailable : IsGoCache unavailable_offerings_ttl o.unavailable) where
  -- With caches and Karpenter's methods as documented: take the instance types of a pass of the
  -- offerings' provider, and a Create from them whose request for a machine type in a zone the API
  -- refuses for lack of capacity, and not with status 401 or 403. Then in the next pass, while the
  -- time to live of unavailable offerings lasts, whatever instance types and zones it is given, no
  -- instance type is chosen of that name in that zone, for any claim.
  pub retry_elsewhere :
      (region : Text) (types types' : List InstanceType) (zones zones' : List Text)
      (st : Offering.State) (listed now t : ℕ) (c : StackitNodeClass) (claim claim' : NodeClaim)
      (labels : Map Text) (s : State) (it it' : InstanceType) (z z' : Text)
      (payload : CreateServerPayload) (e : ClientError)
      → let listing = inject_offerings o s.unavailable_offerings listed region types zones st in
        let s' = (create p now c claim labels listing.0 s).1 in
        cheapest_offering p.karpenter listing.0 claim ≡ ok (it, z)
        → create_payload c claim it z labels ≡ ok payload
        → (client_create_server p.api payload s.calls).0 ≡ err e
        → is_insufficient_capacity e ≡ true
        → is_unauthorized e ≡ false
        → now ≤ t
        → t < now + unavailable_offerings_ttl
        → cheapest_offering p.karpenter
            (inject_offerings o s'.unavailable_offerings t region types' zones' listing.1).0
            claim'
          ≡ ok (it', z')
        → ¬ ((it'.name ≡ it.name) × (z' ≡ z))
  retry_elsewhere region types types' zones zones' st listed now t c claim claim' labels s it it' z
        z' payload e chosen built refused capacity authorized early late again (same, zone) =
      let k = p.karpenter in
      let u = s.unavailable_offerings in
      let listing = inject_offerings o u listed region types zones st in
      let u' = (create p now c claim labels listing.0 s).1.unavailable_offerings in
      let marks =
        create-marks p now c claim labels listing.0 s it z payload e chosen built refused capacity
          authorized in
      let (first, taken, offers, first_zone) =
        cheapest_offering-Offers k offering_compatible karpenter listing.0 claim it z chosen in
      let current = inject_offerings-Current o u listed region zones types st it taken in
      let marked =
        mark_unavailable_lem o.unavailable unavailable u now t it.name z it.name early late in
      let out =
        subst (λ v. is_unavailable o.unavailable v t it.name z ≡ true) (sym marks) marked.0 in
      let outdated : seq_at listing.1.last_seq_num it.name ≢ seq_num u' it.name =
        λ f. marked.1 (ap (λ v. seq_num v it.name) (sym marks) ∙ sym f ∙ current) in
      let (second, taken', (offered, available), second_zone) =
        cheapest_offering-Offers k offering_compatible karpenter
          (inject_offerings o u' t region types' zones' listing.1).0 claim' it' z' again in
      inject_offerings-Withdrawn k offering_compatible karpenter o offerings u' t region it.name z
        zones' out types' listing.1 it' (inl outdated) taken' same second offered available
        (second_zone ∙ zone)
