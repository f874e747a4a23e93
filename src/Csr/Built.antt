-- ===== src/Csr/Built.antt =====
-- What a node has in a built segment: the edges that the runs show, each as often as they hold it, in order.
use nervusdb.Base.{ℕ, ◌≡◌, ◌&&◌, ap, ◌∙◌, Bool, Option, List, []}
use nervusdb.Base.{if◌then◌else◌, ◌==◌, retain, ok}
use nervusdb.Base.OrdMap.{contains}
use nervusdb.Api.Edge.{EdgeKey, node_key, edge_key, edge_eq}
use nervusdb.Run.{L0Run, sort_edges}
use nervusdb.Csr.{EdgeRecord, rel_matches, outgoing_keys, neighbors}
use nervusdb.Csr.Build.{sort_records, build_segment_from_runs, visible_edges}
use nervusdb.Csr.Layout.{records_from, neighbors-visible_edges}
use nervusdb.Csr.Counts.{
  count_of, shown_count, count_of-sort_edges, visible_edges-count, keys-count,
}
use nervusdb.Csr.Ordered.{AreInOrder, sort_records-InOrder, retain-InOrder, outgoing_keys-InOrder}

-- Looking up a source in the segment that a compaction builds of the runs does not panic. It gives an
-- edge of the source and of the type that is asked for as often as the runs hold it, newest first, down to
-- the first that has a tombstone of it or of an end of it, and no other edge; by type and destination.
pub neighbors-build_segment_from_runs :
    (seg_id src : ℕ) (rel : Option ℕ) (runs : List L0Run)
    → (keys : List EdgeKey) × (neighbors (build_segment_from_runs seg_id runs) src rel ≡ ok keys)
      × ((e : EdgeKey)
          → count_of (edge_eq e) keys
            ≡ (if e.src == src && rel_matches rel e.rel then shown_count e runs else 0))
      × AreInOrder keys
unfolding contains
neighbors-build_segment_from_runs seg_id src rel runs =
    let es = sort_edges (visible_edges [] [] runs) in
    let rs = sort_records (records_from src es) in
    let wanted : EdgeRecord → Bool = λ r. rel_matches rel r.rel in
    (
      outgoing_keys src (retain wanted rs),
      neighbors-visible_edges seg_id src rel runs,
      (λ e.
          keys-count e src rel es
          ∙ ap (λ n. if e.src == src && rel_matches rel e.rel then n else 0)
              (count_of-sort_edges (edge_eq e) (visible_edges [] [] runs)
                ∙ visible_edges-count e [] [] runs)),
      outgoing_keys-InOrder src (retain wanted rs)
          (retain-InOrder wanted rs (sort_records-InOrder (records_from src es))),
    )
