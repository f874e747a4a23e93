-- ===== src/Csr/Build.antt =====
-- `build_segment_from_runs` of nervusdb-storage/src/engine.rs: the segment that a compaction makes of the
-- runs, newest first.
use nervusdb.Base.{ℕ, zero, suc, ◌+◌, ◌-◌, ◌^◌, Bool, not, ◌&&◌, ◌||◌, List, [], ◌∷◌, ◌++◌}
use nervusdb.Base.{if◌then◌else◌, ltb, ◌==◌, length, is_empty, retain}
use nervusdb.Base.OrdMap.{Map, Set, get_or, insert, add, contains}
use nervusdb.Api.Edge.{EdgeKey, node_key, edge_key}
use nervusdb.Run.{L0Run, iter_edges, sort_edges}
use nervusdb.Csr.{EdgeRecord, CsrSegment}

-- `HashSet::extend` with nodes, and with edges
unfoldable pub block_nodes : Set ℕ → List ℕ → Set ℕ
block_nodes blocked [] = blocked
block_nodes blocked (n ∷ ns) = block_nodes (add n blocked) ns

unfoldable pub block_edges : Set EdgeKey → List EdgeKey → Set EdgeKey
block_edges blocked [] = blocked
block_edges blocked (e ∷ es) = block_edges (add e blocked) es

unfoldable pub is_kept : Set ℕ → Set EdgeKey → EdgeKey → Bool
is_kept nodes edges e = not (contains e.src nodes || contains e.dst nodes) && not (contains e edges)

-- The edges that no newer run and not their own buries.
unfoldable pub visible_edges : Set ℕ → Set EdgeKey → List L0Run → List EdgeKey
unfolding block_nodes block_edges is_kept iter_edges
visible_edges nodes edges [] = []
visible_edges nodes edges (run ∷ runs) =
    let more_nodes = block_nodes nodes run.tombstoned_nodes in
    let more_edges = block_edges edges run.tombstoned_edges in
    retain (is_kept more_nodes more_edges) (iter_edges run)
    ++ visible_edges more_nodes more_edges runs

-- The least and the greatest source
unfoldable pub src_range : ℕ × ℕ → List EdgeKey → ℕ × ℕ
src_range range [] = range
src_range (lo, hi) (e ∷ es) =
    src_range (if ltb e.src lo then e.src else lo, if ltb hi e.src then e.src else hi) es

abbrev pub to_record : EdgeKey → EdgeRecord
to_record e = record { rel = e.rel; dst = e.dst }

-- `edges_by_src.entry(e.src).or_default().push(..)`
unfoldable pub group : Map ℕ (List EdgeRecord) → List EdgeKey → Map ℕ (List EdgeRecord)
group m [] = m
group m (e ∷ es) = group (insert e.src (get_or [] e.src m ++ (to_record e ∷ [])) m) es

-- `sort_by_key(|r| (r.rel, r.dst))`
unfoldable pub insert_record : EdgeRecord → List EdgeRecord → List EdgeRecord
insert_record r [] = r ∷ []
insert_record r (x ∷ xs) =
    let rest = insert_record r xs in
    if ltb x.rel r.rel || x.rel == r.rel && ltb x.dst r.dst then x ∷ rest else r ∷ x ∷ xs

unfoldable pub sort_records : List EdgeRecord → List EdgeRecord
unfolding insert_record
sort_records [] = []
sort_records (r ∷ rs) = insert_record r (sort_records rs)

-- The offsets from `src` on for `n` sources and their end, and the edges; a source is removed from the
-- map when it is taken, but none is taken twice.
unfoldable pub layout : Map ℕ (List EdgeRecord) → ℕ → ℕ → ℕ → List ℕ × List EdgeRecord
unfolding sort_records
layout edges_by_src zero src cursor = (cursor ∷ [], [])
layout edges_by_src (suc n) src cursor =
    let list = sort_records (get_or [] src edges_by_src) in
    let rest = layout edges_by_src n (suc src) (cursor + length list) in
    (cursor ∷ rest.0, list ++ rest.1)

abbrev empty_segment : ℕ → CsrSegment
empty_segment seg_id = record {
  id = seg_id;
  meta_page_id = 0;
  min_src = 0;
  max_src = 0;
  min_dst = 0;
  max_dst = 0;
  offsets = 0 ∷ 0 ∷ [];
  edges = [];
  in_offsets = [];
  in_edges = [];
}

unfoldable pub segment_of_edges : ℕ → List EdgeKey → CsrSegment
unfolding src_range group layout
segment_of_edges seg_id edges =
    let range = src_range (2 ^ 32 - 1, 0) edges in
    let laid = layout (group [] edges) (suc (range.1 - range.0)) (range.0) 0 in
    let full : CsrSegment = record {
      id = seg_id;
      meta_page_id = 0;
      min_src = range.0;
      max_src = range.1;
      min_dst = 0;
      max_dst = 0;
      offsets = laid.0;
      edges = laid.1;
      in_offsets = [];
      in_edges = [];
    } in
    if is_empty edges then empty_segment seg_id else full

unfoldable pub build_segment_from_runs : ℕ → List L0Run → CsrSegment
unfolding visible_edges segment_of_edges sort_edges
build_segment_from_runs seg_id runs =
    segment_of_edges seg_id (sort_edges (visible_edges [] [] runs))
