-- ===== src/Assemble/Ranking.antt =====
-- `top_contributors` of map-server/src/crawler.rs.
use kwaai_net_map.Prelude.{Bool, List, [], ◌∷◌, ◌==◌, if◌then◌else◌, take, Assoc}
use kwaai_net_map.Prelude.Int.{pos, ◌+ℤ◌, ◌-ℤ◌}
use kwaai_net_map.Prelude.F64.{total_le, gt}
use kwaai_net_map.Prelude.Sorting.{sort}
use kwaai_net_map.Snapshot.{ServerRow, ModelReport, Contributor}

unfoldable pub candidate : ServerRow → Contributor
candidate row = record {
  peer_id = row.peer_id;
  public_name = row.span.server_info.public_name;
  throughput = row.span.server_info.throughput;
  blocks = row.span.end -ℤ row.span.start +ℤ pos 1;
}

-- `best.entry(id).and_modify(..).or_insert(candidate)`
unfoldable pub keep_best : Contributor → Assoc Contributor → Assoc Contributor
keep_best c [] = (c.peer_id, c) ∷ []
keep_best c ((id, old) ∷ best) =
    if id == c.peer_id
    then (id, if gt c.throughput old.throughput then c else old) ∷ best
    else (id, old) ∷ keep_best c best

unfoldable pub best_of_rows : List ServerRow → Assoc Contributor → Assoc Contributor
unfolding keep_best candidate
best_of_rows [] best = best
best_of_rows (row ∷ rows) best = best_of_rows rows (keep_best (candidate row) best)

unfoldable pub best_of : List ModelReport → Assoc Contributor → Assoc Contributor
unfolding best_of_rows
best_of [] best = best
best_of (report ∷ reports) best = best_of reports (best_of_rows report.server_rows best)

abbrev pub faster : Contributor → Contributor → Bool
faster a b = total_le b.throughput a.throughput

-- `into_values` gives the values of a `HashMap` in an order that the language leaves open.
unfoldable pub top_contributors :
    (Assoc Contributor → List Contributor) → List ModelReport → List Contributor
unfolding best_of
top_contributors into_values reports = take 5 (sort faster (into_values (best_of reports [])))
