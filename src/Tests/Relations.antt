-- ===== src/Tests/Relations.antt =====
-- Runs of the union of edges (runtime/relate.go).
use eka_core.Base.{
  String, ◌≡◌, refl, ◌↔◌, ◌⊎◌, List, [], ◌∷◌, any, Member, is_space, trim_space, sort,
}
use eka_core.Exchange.{Relationship}
use eka_core.Runtime.Relate.{
  is_seen, distinct_edges, trimmed, is_skipped, added_edges, edge_order, merge_relationships,
}
use eka_core.Runtime.Relate.Union.{requested, merge_relationships_lem}

abbrev edge : String → Relationship
edge target = record { ty = "depends-on"; target = target }

abbrev unit_edges : List Relationship
unit_edges = edge "acme/sto:login" ∷ []

abbrev asked : List Relationship
asked = edge " acme/sto:zoom " ∷ edge "acme/sto:audit" ∷ edge "acme/sto:login" ∷ []

merge_relationships_lem_example :
    let merged = (merge_relationships unit_edges asked).0 in
    (Member (edge "acme/sto:zoom") merged ↔ (
      Member (edge "acme/sto:zoom") unit_edges ⊎ Member (edge "acme/sto:zoom") (requested asked)))
    × ((merge_relationships merged asked).1 ≡ [])
merge_relationships_lem_example = merge_relationships_lem unit_edges asked (edge "acme/sto:zoom")

-- The merged edges are sorted, the added ones stand in the order of the request.
merged_in_order : merge_relationships unit_edges asked ≡ (
  edge "acme/sto:audit" ∷ edge "acme/sto:login" ∷ edge "acme/sto:zoom" ∷ [],
  edge "acme/sto:zoom" ∷ edge "acme/sto:audit" ∷ [],
)
unfolding merge_relationships distinct_edges added_edges is_skipped is_seen trimmed edge_order
    trim_space is_space any sort
merged_in_order = refl
