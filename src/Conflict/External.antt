-- ===== src/Conflict/External.antt =====
-- portRangesConflict of domain/container-conflict.ts and the ranges on the outside.
use dyrectorio.Prelude.{
  Option, none, some, List, map, any, any-map, filter-congr, ◌≡◌, refl, sym, ◌∙◌, ap, ◌||◌,
}
use dyrectorio.Container.{ContainerPortRange}
use dyrectorio.Conflict.{ranges_overlap}
use dyrectorio.Conflict.Values.{port_ranges_conflict, port_range_conflicts, none_if_empty}

port_range_conflicts-internals :
    (xs ys : List ContainerPortRange) (item : ContainerPortRange)
    → map (λ it. it.internal) xs ≡ map (λ it. it.internal) ys
    → port_range_conflicts xs item ≡ port_range_conflicts ys item
port_range_conflicts-internals xs ys item h =
    sym (any-map _ (λ it. it.internal) xs)
    ∙ ap (any (λ r. ranges_overlap item.internal r || ranges_overlap item.external item.internal)) h
    ∙ any-map _ (λ it. it.internal) ys

-- If two lists of port ranges have the same internal ranges, then a list is in conflict with both
-- in the same ranges, whatever the external ranges of the two are.
pub port_ranges_conflict-external :
    (one : Option (List ContainerPortRange)) (xs ys : List ContainerPortRange)
    → map (λ it. it.internal) xs ≡ map (λ it. it.internal) ys
    → port_ranges_conflict one (some xs) ≡ port_ranges_conflict one (some ys)
unfolding port_ranges_conflict
port_ranges_conflict-external none xs ys h = refl
port_ranges_conflict-external (some one) xs ys h =
    ap (λ l. none_if_empty (map (λ it. it.internal) l))
      (filter-congr (port_range_conflicts xs) (port_range_conflicts ys) one
        (λ item. port_range_conflicts-internals xs ys item h))
