-- ===== src/Controllers/GarbageCollection/Listing.antt =====
-- The claims that the cloud provider lists are those of the servers that the API lists, and listing
-- asks for nothing else.
use karpenter_provider_stack.Prelude.{
  ℕ, ◌≡◌, refl, sym, ap, subst, ◌∙◌, Option, List, [], ◌∷◌, map, Text, In, here, there,
}
use karpenter_provider_stack.Errors.{ClientError, Err, Result, ok, err}
use karpenter_provider_stack.Env.Sdk.{Call, list_servers}
use karpenter_provider_stack.Apis.NodeClass.{StackitNodeClass}
use karpenter_provider_stack.Apis.Core.{NodeClaim, NodePool, InstanceType, Server}
use karpenter_provider_stack.Stackit.Client.{call, client_list_servers}
use karpenter_provider_stack.Instance.{Instance, new_instance}
use karpenter_provider_stack.Instance.Provider
use karpenter_provider_stack.Instance.Provider.{State, managed_by_selector, remember_all, remember}
use karpenter_provider_stack.CloudProvider.{
  CloudProvider, instance_to_node_claim, resolve_node_pool, resolve_node_class, get_instance_types,
  types_of, type_in, resolve_instance_type, claim_of, prepend, state_after, claims_of, listed, list,
}

-- Listing instance types sends no request.
abbrev pub IsQuiet : CloudProvider → Type 0
IsQuiet cp = (c : StackitNodeClass) (calls : List Call) → (cp.list_types c calls).1 ≡ calls

module _ (cp : CloudProvider) (now : ℕ) where
  types_of-quiet :
      IsQuiet cp → (r : Result Err StackitNodeClass) (s : State) → (types_of cp now r s).1 ≡ s
  types_of-quiet quiet (err e) s = refl
  types_of-quiet quiet (ok c) s = ap (λ (l : List Call). record s { calls = l }) (quiet c s.calls)

  type_in-quiet :
      IsQuiet cp
      → (inst : Instance) (r : Result Err NodePool) (s : State) → (type_in cp now inst r s).1 ≡ s
  unfolding get_instance_types
  type_in-quiet quiet inst (err e) s = refl
  type_in-quiet quiet inst (ok pool) s =
      types_of-quiet quiet (resolve_node_class cp pool.node_class_ref) s

  claim_of-state :
      (inst : Instance) (r : Result Err (Option InstanceType) × State)
      → (claim_of cp now inst r).1 ≡ r.1
  claim_of-state inst (err e, s) = refl
  claim_of-state inst (ok t, s) = refl

  -- The claim is one of the server's.
  abbrev pub Claims : Instance → NodeClaim → Type 0
  Claims inst nc = (t : Option InstanceType) × (instance_to_node_claim cp inst t ≡ nc)

  claim_of-Claims :
      (inst : Instance) (r : Result Err (Option InstanceType) × State) (nc : NodeClaim)
      → (claim_of cp now inst r).0 ≡ ok nc
      → Claims inst nc
  claim_of-Claims inst (err e, s) nc h = cc
  claim_of-Claims inst (ok t, s) nc h = (t, cc h)

  abbrev first : Instance → State → Result Err NodeClaim × State
  first inst s = claim_of cp now inst (resolve_instance_type cp now inst s)

  first-state : IsQuiet cp → (inst : Instance) (s : State) → (first inst s).1 ≡ s
  unfolding resolve_instance_type
  first-state quiet inst s =
      claim_of-state inst (type_in cp now inst (resolve_node_pool cp inst) s)
      ∙ type_in-quiet quiet inst (resolve_node_pool cp inst) s

  claims_of-state : IsQuiet cp → (is : List Instance) (s : State) → (claims_of cp now is s).1 ≡ s
  unfolding claims_of
  claims_of-state quiet [] s = refl
  claims_of-state quiet (inst ∷ is) s =
      after (first inst s).0 (first-state quiet inst s)
        (claims_of-state quiet is (first inst s).1 ∙ first-state quiet inst s)
    where
      after :
          (r : Result Err NodeClaim) {a b : State} → a ≡ s → b ≡ s → state_after cp now r a b ≡ s
      after (err e) h k = h
      after (ok nc) h k = k

  abbrev pub OfServers : List Instance → NodeClaim → Type 0
  OfServers is nc = (inst : Instance) × In inst is × Claims inst nc

  of_cons :
      (inst : Instance) (is : List Instance) (c nc : NodeClaim) (cs : List NodeClaim)
      → Claims inst c
      → (In nc cs → OfServers is nc)
      → In nc (c ∷ cs)
      → OfServers (inst ∷ is) nc
  of_cons inst is c nc cs own rest (here e) = (inst, here refl, subst (Claims inst) e own)
  of_cons inst is c nc cs own rest (there i) = let (x, m, d) = rest i in (x, there m, d)

  prepend-Claims :
      (inst : Instance) (is : List Instance) (nc : NodeClaim) (ncs : List NodeClaim)
      (a : Result Err NodeClaim) (b : Result Err (List NodeClaim))
      → ((c : NodeClaim) → a ≡ ok c → Claims inst c)
      → ((cs : List NodeClaim) → b ≡ ok cs → In nc cs → OfServers is nc)
      → prepend cp now a b ≡ ok ncs
      → In nc ncs
      → OfServers (inst ∷ is) nc
  prepend-Claims inst is nc ncs (err e) b own rest h i = cc
  prepend-Claims inst is nc ncs (ok c) (err e) own rest h i = cc
  prepend-Claims inst is nc ncs (ok c) (ok cs) own rest h i =
      let same : c ∷ cs ≡ ncs = cc h in
      of_cons inst is c nc cs (own c refl) (rest cs refl) (subst (In nc) (sym same) i)

  nothing : {xs : List NodeClaim} → ◌≡◌ {A = Result Err (List NodeClaim)} (ok []) (ok xs) → xs ≡ []
  nothing e = cc

  claims_of-Claims :
      (is : List Instance) (s : State) (ncs : List NodeClaim) (nc : NodeClaim)
      → (claims_of cp now is s).0 ≡ ok ncs
      → In nc ncs
      → OfServers is nc
  unfolding claims_of
  claims_of-Claims [] s ncs nc h i = elim (subst (In nc) (nothing h) i) [ ]
  claims_of-Claims (inst ∷ is) s ncs nc h i =
      prepend-Claims inst is nc ncs (first inst s).0 (claims_of cp now is (first inst s).1).0
        (λ c e. claim_of-Claims inst (resolve_instance_type cp now inst s) c e)
        (λ cs e j. claims_of-Claims is (first inst s).1 cs nc e j) h i

  -- The loop of the instance provider's listing.
  remember_all-calls :
      (servers : List Server) (s : State)
      → (remember_all cp.instances now servers s).1.calls ≡ s.calls
  unfolding remember_all remember
  remember_all-calls [] s = refl
  remember_all-calls (x ∷ servers) s =
      remember_all-calls servers (remember now (new_instance x).id (new_instance x) s)

  remember_all-instances :
      (servers : List Server) (s : State)
      → (remember_all cp.instances now servers s).0 ≡ map new_instance servers
  unfolding remember_all remember
  remember_all-instances [] s = refl
  remember_all-instances (x ∷ servers) s =
      ap (λ l. new_instance x ∷ l)
        (remember_all-instances servers (remember now (new_instance x).id (new_instance x) s))

  In-map :
      (servers : List Server) (inst : Instance)
      → In inst (map new_instance servers)
      → (x : Server) × In x servers × (new_instance x ≡ inst)
  In-map [] inst i = elim i [ ]
  In-map (x ∷ servers) inst (here e) = (x, here refl, e)
  In-map (x ∷ servers) inst (there i) = let (y, j, e) = In-map servers inst i in (y, there j, e)

  -- The servers that the API lists for the cluster.
  abbrev pub answer : State → Result ClientError (List Server)
  answer s = (client_list_servers cp.instances.api (managed_by_selector cp.instances now) s.calls).0

  abbrev pub Listed : State → Result Err (List NodeClaim) × State → Type 0
  Listed s r =
      ((f : Option Text) × (r.1.calls ≡ call cp.instances.api (list_servers f) ∷ s.calls))
      × ((ncs : List NodeClaim) (nc : NodeClaim)
          → r.0 ≡ ok ncs
          → In nc ncs
          → (servers : List Server) × (x : Server) × (answer s ≡ ok servers)
            × In x servers
            × Claims (new_instance x) nc)

  -- After the request of the listing.
  abbrev asked : State → State
  asked s = record s {
    calls = (client_list_servers cp.instances.api (managed_by_selector cp.instances now) s.calls).1;
  }

  pub list-Listed : IsQuiet cp → (s : State) → Listed s (list cp now s)
  unfolding list Provider.list client_list_servers
  list-Listed quiet s = by_answer (answer s) refl
    where
      by_answer :
          (a : Result ClientError (List Server))
          → answer s ≡ a
          → Listed s (listed cp now (Provider.listed cp.instances now a (asked s)))
      by_answer (err e) h = ((_, refl), λ ncs nc k i. cc k)
      by_answer (ok servers) h =
          let remembered = remember_all cp.instances now servers (asked s) in
          (
            (
              _,
              ap (λ (x : State). x.calls) (claims_of-state quiet remembered.0 remembered.1)
                  ∙ remember_all-calls servers (asked s),
            ),
            λ ncs nc k i.
                let (inst, j, d) = claims_of-Claims remembered.0 remembered.1 ncs nc k i in
                let (x, m, q) =
                  In-map servers inst
                    (subst (In inst) (remember_all-instances servers (asked s)) j) in
                (servers, x, h, m, subst (λ y. Claims y nc) (sym q) d),
          )
