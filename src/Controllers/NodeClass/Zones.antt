-- ===== src/Controllers/NodeClass/Zones.antt =====
-- The zones that a node class resolves to.
use karpenter_provider_stack.Prelude.{
  ◌≡◌, ◌⊎◌, inl, inr, refl, sym, ap, ◌∙◌, true, false, none, some, List, [], ◌∷◌, map, Text,
  text_eq, any, All, arith, Bool-cases, if◌then◌else◌,
}
use karpenter_provider_stack.Errors.{plain, ok}
use karpenter_provider_stack.Env.Conditions.{Conditions}
use karpenter_provider_stack.Apis.NodeClass.{
  StackitNodeClass, AvailabilityZone, availability_zone_ids, condition_true, condition_false,
}
use karpenter_provider_stack.Instance.Payload.{is_empty}
use karpenter_provider_stack.Controllers.NodeClass.{split_zones, resolve_with}

-- The zones that a class asks for: those it names, or all that there are.
abbrev pub requested : List Text → StackitNodeClass → List Text
requested available c =
    if is_empty c.spec.availability_zones then available else c.spec.availability_zones

abbrev pub Known : List Text → Text → Type 0
Known available id = any (λ z. text_eq z id) available ≡ true

split_zones-Known :
    (available ids : List Text)
    → All (Known available) ids
    → (map (λ (z : AvailabilityZone). z.id) (split_zones available ids).0 ≡ ids)
      × ((split_zones available ids).1 ≡ [])
unfolding split_zones
split_zones-Known available [] h = (refl, refl)
split_zones-Known available (id ∷ ids) h = ground (arith, split_zones-Known available ids h.1)

Known-split_zones :
    (available ids : List Text) → (split_zones available ids).1 ≡ [] → All (Known available) ids
unfolding split_zones
Known-split_zones available [] h = tt
Known-split_zones available (id ∷ ids) h = ground (arith, Known-split_zones available ids)

is_empty-eq : (l : List Text) → is_empty l ≡ true → l ≡ []
is_empty-eq [] h = refl
is_empty-eq (x ∷ xs) h = cc

false-true : ¬ (false ≡ true)
false-true e = cc

-- With a zone list from the API that is not empty, a class becomes zone-ready exactly if all zones
-- that it asks for are in the list, and then it resolves to just those; if not, it resolves to none.
pub resolve_with_lem :
    (k : Conditions) (z : Text) (zs : List Text) (c : StackitNodeClass)
    → let available = z ∷ zs in
      let r = resolve_with k (ok available) c in
      (All (Known available) (requested available c)
        × (r.0 ≡ none)
        × (r.1.status.zones_ready.status ≡ condition_true)
        × (availability_zone_ids r.1 ≡ requested available c))
      ⊎ ((¬ All (Known available) (requested available c))
          × (r.0 ≡ some plain)
          × (r.1.status.zones_ready.status ≡ condition_false)
          × (availability_zone_ids r.1 ≡ []))
resolve_with_lem k z zs c =
    let ids = requested (z ∷ zs) c in
    elim (Bool-cases (is_empty (split_zones (z ∷ zs) ids).1)) [
      | inl found ↦
          let known = Known-split_zones (z ∷ zs) ids (is_empty-eq _ found) in
          inl (
            known,
            unfold resolve_with in rw found,
            unfold resolve_with in rw found,
            unfold resolve_with availability_zone_ids in
                rw found (split_zones-Known (z ∷ zs) ids known).0,
          )
      | inr missing ↦ inr (
        (λ k. false-true (sym missing ∙ ap is_empty (split_zones-Known (z ∷ zs) ids k).1)),
        unfold resolve_with in rw missing,
        unfold resolve_with in rw missing,
        unfold resolve_with availability_zone_ids in rw missing,
      )
    ]
