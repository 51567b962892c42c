-- ===== src/Instance/Payload/Laws.antt =====
-- When a launch request can be built, and what it asks for.
use karpenter_provider_stack.Prelude.{
  ◌≤◌, ◌≡◌, refl, sym, ap, subst, Bool, true, false, not, [], Text, text_eq, Map, length, arith,
  ltb, ◌⊎◌, inl, inr, if◌then◌else◌, ◌∷◌, ◌++◌, ◌&&◌,
}
use karpenter_provider_stack.Errors.{ClientError, plain, Result, ok, err, ◌>>=◌}
use karpenter_provider_stack.Env.Sdk.{CreateServerPayload, with_network, with_nics, Networking}
use karpenter_provider_stack.Apis.NodeClass.{
  StackitNodeClass, from_ptr_or, delete_boot_volume_on_termination,
}
use karpenter_provider_stack.Apis.Core.{NodeClaim, InstanceType}
use karpenter_provider_stack.Utils.Labels.{labels_to_api}
use karpenter_provider_stack.Instance.Payload.{
  is_set, is_empty, networking, server_name, max_server_name_length, create_payload, payload_of,
}

-- Exactly one of a network and of network interfaces is given.
abbrev pub OneNetworking : StackitNodeClass → Type 0
OneNetworking c =
    let spec = c.spec.networking in
    ((is_set spec.network_id ≡ true) × (is_empty spec.nic_ids ≡ true))
    ⊎ ((is_set spec.network_id ≡ false) × (is_empty spec.nic_ids ≡ false))

-- The full name of the server.
abbrev pub full_name : StackitNodeClass → NodeClaim → Text
full_name c n =
    let prefix = from_ptr_or c.spec.server_name_prefix [] in
    if text_eq prefix [] then n.name else prefix ++ (b'-' ∷ n.name)

pub networking-OneNetworking :
    (c : StackitNodeClass) (net : Networking) → networking c ≡ ok net → OneNetworking c
unfolding networking
networking-OneNetworking c net h =
    tests (is_set c.spec.networking.network_id) (is_empty c.spec.networking.nic_ids) h
  where
    tests :
        (a b : Bool)
        → (if a && not b
            then err plain
            else if a
            then ok (with_network c.spec.networking.network_id)
            else if not b
            then ok (with_nics c.spec.networking.nic_ids)
            else err plain)
          ≡ ok net
        → ((a ≡ true) × (b ≡ true)) ⊎ ((a ≡ false) × (b ≡ false))
    tests true true h = inl (refl, refl)
    tests true false h = cc
    tests false true h = cc
    tests false false h = inr (refl, refl)

pub OneNetworking-networking :
    (c : StackitNodeClass) → OneNetworking c → (net : Networking) × (networking c ≡ ok net)
unfolding networking
OneNetworking-networking c (inl (a, b)) =
    (with_network c.spec.networking.network_id, rw (a, b, networking))
OneNetworking-networking c (inr (a, b)) =
    (with_nics c.spec.networking.nic_ids, rw (a, b, networking))

pub server_name_sound :
    (c : StackitNodeClass) (n : NodeClaim) (name : Text)
    → server_name c n ≡ ok name
    → (name ≡ full_name c n) × (length name ≤ max_server_name_length)
unfolding server_name
server_name_sound c n name h =
    let prefix : Text = from_ptr_or c.spec.server_name_prefix [] in
    tests (text_eq prefix []) n.name (prefix ++ (b'-' ∷ n.name)) h
  where
    tests :
        (b : Bool) (short long : Text)
        → (if ltb 63 (length (if not b then long else short))
            then err plain
            else ok (if not b then long else short))
          ≡ ok name
        → (name ≡ (if b then short else long)) × (length name ≤ 63)
    tests true short long h = ground arith
    tests false short long h = ground arith

-- The network of the class, or its network interfaces.
abbrev pub Networks : StackitNodeClass → Networking → Type 0
Networks c net =
    let spec = c.spec.networking in
    ((is_set spec.network_id ≡ true) × (net ≡ with_network spec.network_id))
    ⊎ ((is_set spec.network_id ≡ false) × (net ≡ with_nics spec.nic_ids))

networking-Networks :
    (c : StackitNodeClass) (net : Networking) → networking c ≡ ok net → Networks c net
unfolding networking
networking-Networks c net h =
    tests (is_set c.spec.networking.network_id) (is_empty c.spec.networking.nic_ids) h
  where
    tests :
        (a b : Bool)
        → (if a && not b
            then err plain
            else if a
            then ok (with_network c.spec.networking.network_id)
            else if not b
            then ok (with_nics c.spec.networking.nic_ids)
            else err plain)
          ≡ ok net
        → ((a ≡ true) × (net ≡ with_network c.spec.networking.network_id))
          ⊎ ((a ≡ false) × (net ≡ with_nics c.spec.networking.nic_ids))
    tests true true h = inl (refl, cc h)
    tests true false h = cc
    tests false true h = cc
    tests false false h = inr (refl, cc h)

-- A launch request asks for what it was built from.
abbrev pub AsksFor :
    StackitNodeClass → NodeClaim → InstanceType → Text → Map Text → CreateServerPayload → Type 0
AsksFor c n t zone labels p =
    (p.name ≡ full_name c n)
    × (p.machine_type ≡ t.name)
    × (p.availability_zone ≡ zone)
    × (p.labels ≡ labels_to_api labels)
    × Networks c p.networking
    × (p.boot_volume.delete_on_termination ≡ delete_boot_volume_on_termination c)

pub server_name_complete :
    (c : StackitNodeClass) (n : NodeClaim)
    → length (full_name c n) ≤ max_server_name_length
    → server_name c n ≡ ok (full_name c n)
unfolding server_name
server_name_complete c n l =
    tests (text_eq (from_ptr_or c.spec.server_name_prefix []) []) n.name
      (from_ptr_or c.spec.server_name_prefix [] ++ (b'-' ∷ n.name)) l
  where
    tests :
        (b : Bool) (short long : Text)
        → length (if b then short else long) ≤ 63
        → (if ltb 63 (length (if not b then long else short))
            then err plain
            else ok (if not b then long else short))
          ≡ ok (if b then short else long)
    tests true short long h = ground arith
    tests false short long h = ground arith

abbrev named :
    StackitNodeClass
    → NodeClaim
    → InstanceType
    → Text
    → Map Text
    → Networking
    → Result ClientError CreateServerPayload
named c n t zone labels net = server_name c n >>= λ name. ok (payload_of c t zone labels net name)

bind_ok :
    {A B : Type 0} (r : Result ClientError A) (f : A → Result ClientError B) (b : B)
    → r >>= f ≡ ok b
    → (a : A) × (r ≡ ok a) × (f a ≡ ok b)
bind_ok (ok a) f b h = (a, refl, h)
bind_ok (err e) f b h = cc

-- A request can be built if the class has one kind of networking and the name is short enough.
abbrev pub IsBuildable : StackitNodeClass → NodeClaim → Type 0
IsBuildable c n = OneNetworking c × (length (full_name c n) ≤ max_server_name_length)

-- A launch request is built exactly if the class has one network or some network interfaces, not
-- both, and the server's full name has at most 63 bytes: a longer name is an error and is never cut
-- short. The request then asks for the chosen type and zone, with the full name, those labels and
-- that networking.
pub create_payload_lem :
    (c : StackitNodeClass) (n : NodeClaim) (t : InstanceType) (zone : Text) (labels : Map Text)
    → (IsBuildable c n
        × ((p : CreateServerPayload) × (create_payload c n t zone labels ≡ ok p)
            × AsksFor c n t zone labels p))
      ⊎ ((¬ (IsBuildable c n)) × ((e : ClientError) × (create_payload c n t zone labels ≡ err e)))
unfolding create_payload
create_payload_lem c n t zone labels = cases (networking c) refl (server_name c n) refl
  where
    cases :
        (r : Result ClientError Networking)
        → networking c ≡ r
        → (q : Result ClientError Text) → server_name c n ≡ q
        → (IsBuildable c n
            × ((p : CreateServerPayload) × (r >>= named c n t zone labels ≡ ok p)
                × AsksFor c n t zone labels p))
          ⊎ ((¬ (IsBuildable c n)) × ((e : ClientError) × (r >>= named c n t zone labels ≡ err e)))
    cases (err e) en q em =
        inr
          ((λ (one, l). let (net, en') = OneNetworking-networking c one in cc (en, en')), (e, refl))
    cases (ok net) en (err e) em =
        inr ((λ (one, l). let em' = server_name_complete c n l in cc (em, em')), (e, rw em refl))
    cases (ok net) en (ok name) em =
        let (same, short) = server_name_sound c n name em in
        inl (
          (
            networking-OneNetworking c net en,
            subst (λ s. length s ≤ max_server_name_length) same short,
          ),
          (
            payload_of c t zone labels net name,
            rw em refl,
            (same, refl, refl, refl, networking-Networks c net en, refl),
          ),
        )

-- A launch request is for the chosen zone.
pub create_payload_zone :
    (c : StackitNodeClass) (n : NodeClaim) (t : InstanceType) (zone : Text) (labels : Map Text)
    (p : CreateServerPayload)
    → create_payload c n t zone labels ≡ ok p
    → p.availability_zone ≡ zone
unfolding create_payload
create_payload_zone c n t zone labels p e =
    let (net, en, rest) = bind_ok (networking c) (named c n t zone labels) p e in
    let (name, em, last) =
      bind_ok (server_name c n) (λ name. ok (payload_of c t zone labels net name)) p rest in
    let same : payload_of c t zone labels net name ≡ p = cc last in
    sym (ap (λ (q : CreateServerPayload). q.availability_zone) same)
