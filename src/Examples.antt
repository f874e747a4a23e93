-- ===== src/Examples.antt =====
-- Runs of the model on small inputs, each an instance of a general theorem.
use nervusdb.Base.{zero, suc, ltb, ◌||◌, ◌&&◌}
use nervusdb.Csr.Bounds.{IsValid, AreOffsets, found_neighbors, found_incoming, neighbors-ok}
use nervusdb.OrderedKey.{encode_index_key}
use nervusdb.OrderedKey.Values.{value_lt, same_within, encode_index_key_lt}
use nervusdb.LabelInterner.{LabelInterner, get_id, get_name, get_or_create}
use nervusdb.LabelInterner.Merge.{merge, either_id, merge_lem}
use nervusdb.LabelInterner.Inverse.{IsInverse, get_or_create-IsInverse}
use nervusdb.Api.Edge.{bytes_eq_iff}
use nervusdb.Base.{ℕ, ◌<◌, ◌≡◌, refl, true, some, List, [], ◌∷◌, ◌++◌, arith}
use nervusdb.Base.{ok}
use nervusdb.Base.Bytes.{le_bytes}
use nervusdb.Base.OrdMap.{get, get_or, insert, remove, add, erase, contains}
use nervusdb.Api.Property.{Text, PropertyValue, int, string, list, map, nil, cons, end, field}
use nervusdb.Api.Edge.{EdgeKey, bytes_eq, bytes_lt}
use nervusdb.Api.Codec.{encode, is_utf8}
use nervusdb.Api.Decode.{decode}
use nervusdb.Api.RoundTrip.{decode-encode}
use nervusdb.Error.{Error}
use nervusdb.MemTable.{
  remove_edge_property, drop_property, mark_removed, set_node_property, remove_node_property,
  tombstone_edge, set_edge_property, create_edge, apply, drop_edge, push_edge, put_property,
  tombstone_node, unmark_removed,
}
use nervusdb.MemTable.{
  GraphOp, empty, apply_all, add_edge, bury_edge, set_node, set_edge, unset_node, unset_edge,
}
use nervusdb.Run.{
  L0Run, run_is_empty, freeze_into_run, edges_for_src, insert_edge, sort_buckets, sort_edges,
}
use nervusdb.Run.Effect.{
  node_effect, edge_effect, followed_by, node_history, edge_history, value_after,
  node_effect-apply_all, edge_effect-apply_all,
}
use nervusdb.ReadPath.{
  node_property_from_runs, edge_property_from_runs, merge_node_properties_from_runs,
  merge_edge_properties_from_runs,
}
use nervusdb.ReadPath.History.{all_ops, node_property-commit_all, edge_property-commit_all}
use nervusdb.ReadPath.Merged.{merged_get, node_properties_agree, edge_properties_agree}
use nervusdb.Engine.{run_of, commit_all, publish_unless_empty}
use nervusdb.Csr
use nervusdb.Csr.{CsrSegment, EdgeRecord, bucket, outgoing_keys, rel_matches}
use nervusdb.Neighbors.{outgoing, new, extend}
use nervusdb.Neighbors.Reference.{reference, runs_cost, segments_cost, own_edges}
use nervusdb.Base.{All}
use nervusdb.Neighbors.Reference.{found_edges, Answers}
use nervusdb.Csr.{index_at, edge_slice}
use nervusdb.Neighbors.Collect.{collect, total_cost, collect-new}

abbrev name_key : Text
name_key = 110 ∷ 97 ∷ []

abbrev knows : EdgeKey
knows = record { src = 1; rel = 7; dst = 2 }

-- Transaction 1 makes three edges and two properties; transaction 2 buries an edge and sets one anew;
-- transaction 3 removes the edge's.
abbrev history : List (ℕ × List GraphOp)
history =
    (
      1,
      add_edge 1 7 2
          ∷ add_edge 1 7 3
          ∷ add_edge 1 8 4
          ∷ set_node 1 name_key (int 5)
          ∷ set_edge knows name_key (int 6)
          ∷ [],
    )
    ∷ (2, bury_edge 1 7 2 ∷ unset_node 1 name_key ∷ set_node 1 name_key (int 9) ∷ [])
    ∷ (3, unset_edge knows name_key ∷ [])
    ∷ []

abbrev second_ops : List GraphOp
second_ops = unset_node 1 name_key ∷ set_node 1 name_key (int 9) ∷ unset_edge knows name_key ∷ []

unfoldable published : List L0Run
published = commit_all history []

abbrev segment : CsrSegment
segment = record {
  id = 1;
  meta_page_id = 4;
  min_src = 1;
  max_src = 1;
  min_dst = 2;
  max_dst = 5;
  offsets = 0 ∷ 2 ∷ [];
  edges = record { rel = 7; dst = 2 } ∷ record { rel = 7; dst = 5 } ∷ [];
  in_offsets = 0 ∷ 1 ∷ 1 ∷ 1 ∷ 2 ∷ [];
  in_edges = record { rel = 7; dst = 1 } ∷ record { rel = 7; dst = 1 } ∷ [];
}

cheap : total_cost outgoing published (segment ∷ []) 1 (some 7) < 20
unfolding total_cost published runs_cost segments_cost own_edges outgoing commit_all run_is_empty
    freeze_into_run apply_all remove_edge_property drop_property get mark_removed insert contains
    extend get_or set_node_property remove_node_property tombstone_edge add set_edge_property
    create_edge bytes_eq bytes_lt erase remove bucket Csr.neighbors index_at edge_slice
    outgoing_keys found_edges rel_matches publish_unless_empty run_of apply drop_edge push_edge
    put_property tombstone_node unmark_removed edges_for_src insert_edge sort_buckets sort_edges
cheap = omega arith

answering : All (Answers outgoing 1 (some 7)) (segment ∷ [])
unfolding found_edges outgoing bucket Csr.neighbors index_at edge_slice outgoing_keys rel_matches
answering = (refl, tt)

collect-new_example :
    collect outgoing 20 20 (new published (segment ∷ []) 1 (some 7))
    ≡ some (ok (reference outgoing 1 (some 7) published (segment ∷ [])))
collect-new_example = collect-new outgoing published (segment ∷ []) 1 (some 7) 20 answering cheap

node_property-commit_all_example :
    node_property_from_runs (commit_all history []) 1 name_key
    ≡ value_after
        (node_history (all_ops history) 1 name_key)
        (node_property_from_runs [] 1 name_key)
node_property-commit_all_example = node_property-commit_all history [] 1 name_key

edge_property-commit_all_example :
    edge_property_from_runs (commit_all history []) knows name_key
    ≡ value_after
        (edge_history (all_ops history) knows name_key)
        (edge_property_from_runs [] knows name_key)
edge_property-commit_all_example = edge_property-commit_all history [] knows name_key

node_properties_agree_example :
    merged_get name_key (merge_node_properties_from_runs published 1)
    ≡ node_property_from_runs published 1 name_key
node_properties_agree_example = node_properties_agree published 1 name_key

edge_properties_agree_example :
    merged_get name_key (merge_edge_properties_from_runs published knows)
    ≡ edge_property_from_runs published knows name_key
edge_properties_agree_example = edge_properties_agree published knows name_key

node_effect-apply_all_example :
    node_effect (apply_all second_ops empty) 1 name_key
    ≡ followed_by (node_effect empty 1 name_key) (node_history second_ops 1 name_key)
node_effect-apply_all_example = node_effect-apply_all second_ops empty 1 name_key

edge_effect-apply_all_example :
    edge_effect (apply_all second_ops empty) knows name_key
    ≡ followed_by (edge_effect empty knows name_key) (edge_history second_ops knows name_key)
edge_effect-apply_all_example = edge_effect-apply_all second_ops empty knows name_key

abbrev person : PropertyValue
person = map (field name_key (string name_key) (field (122 ∷ []) (list (cons (int 3) nil)) end))

abbrev person_bytes : List ℕ
person_bytes =
    8 ∷ 2 ∷ 0 ∷ 0 ∷ 0 ∷ 2 ∷ 0 ∷ 0 ∷ 0 ∷ 110 ∷ 97 ∷ 4 ∷ 2 ∷ 0 ∷ 0 ∷ 0 ∷ 110 ∷ 97 ∷ 1 ∷ 0 ∷ 0 ∷ 0
    ∷ 122 ∷ 7 ∷ 1 ∷ 0 ∷ 0 ∷ 0 ∷ 2 ∷ 3 ∷ 0 ∷ 0 ∷ 0 ∷ 0 ∷ 0 ∷ 0 ∷ 0 ∷ []

person_encoded : encode {E = Error} person ≡ ok person_bytes
unfolding encode le_bytes
person_encoded = refl

ascending : bytes_lt name_key (122 ∷ []) ≡ true
unfolding bytes_lt
ascending = refl

name_key-is_utf8 : is_utf8 name_key ≡ true
unfolding is_utf8
name_key-is_utf8 = refl

z-is_utf8 : is_utf8 (122 ∷ []) ≡ true
unfolding is_utf8
z-is_utf8 = refl

decode-encode_example : decode (person_bytes ++ (7 ∷ [])) ≡ ok person
decode-encode_example =
    decode-encode {E = Error} person person_bytes (7 ∷ [])
      (name_key-is_utf8, name_key-is_utf8, (ascending, tt), (z-is_utf8, (omega arith, tt), tt, tt))
      person_encoded

segment-IsValid : IsValid segment
segment-IsValid = record { out_offsets = out; in_offsets = back }
  where
    out : AreOffsets segment.offsets segment.edges 0
    out zero h = (0, 2, refl, refl, omega arith, omega arith)
    out (suc i) h = absurd (omega arith)

    back : AreOffsets segment.in_offsets segment.in_edges 3
    back zero h = (0, 1, refl, refl, omega arith, omega arith)
    back (suc zero) h = (1, 1, refl, refl, omega arith, omega arith)
    back (suc (suc zero)) h = (1, 1, refl, refl, omega arith, omega arith)
    back (suc (suc (suc zero))) h = (1, 2, refl, refl, omega arith, omega arith)
    back (suc (suc (suc (suc i)))) h = absurd (omega arith)

neighbors-ok_example :
    (Csr.neighbors segment 1 (some 7) ≡ ok (found_neighbors segment 1 (some 7)))
    × (Csr.incoming_neighbors segment 1 (some 7) ≡ ok (found_incoming segment 1 (some 7)))
neighbors-ok_example = neighbors-ok segment 1 (some 7) segment-IsValid

zero_text : Text
zero_text = 97 ∷ 0 ∷ 98 ∷ []

encode_index_key_lt_example :
    bytes_lt (encode_index_key 3 (string zero_text) 9) (encode_index_key 3 (string name_key) 4) ≡ (
      value_lt (string zero_text) (string name_key)
      || (same_within (string zero_text) (string name_key) && ltb 9 4))
unfolding zero_text
encode_index_key_lt_example =
    encode_index_key_lt 3 (string zero_text) (string name_key) 9 4
      (omega arith, (omega arith, (omega arith, tt))) (omega arith, (omega arith, tt)) (omega arith)
      (omega arith)

abbrev labels : LabelInterner
labels = record { s2i = (name_key, 0) ∷ []; i2s = name_key ∷ [] }

labels-IsInverse : IsInverse labels
unfolding get_id get_name get
labels-IsInverse name zero = ground (arith, bytes_eq_iff name_key name)
labels-IsInverse name (suc i) = ground (arith, bytes_eq_iff name_key name)

get_or_create-IsInverse_example :
    IsInverse (get_or_create labels zero_text).1
    × (get_id (get_or_create labels zero_text).1 zero_text
        ≡ some (get_or_create labels zero_text).0)
    × (get_name (get_or_create labels zero_text).1 (get_or_create labels zero_text).0
        ≡ some zero_text)
    × ((other : Text) (id : ℕ)
        → get_id labels other ≡ some id
        → get_id (get_or_create labels zero_text).1 other ≡ some id)
get_or_create-IsInverse_example =
    get_or_create-IsInverse labels zero_text labels-IsInverse (omega arith)

abbrev more_labels : LabelInterner
more_labels = record { s2i = (zero_text, 1) ∷ (name_key, 0) ∷ []; i2s = name_key ∷ zero_text ∷ [] }

merge_lem_example :
    ((name : Text)
      → get_id (merge labels more_labels).1 name
        ≡ either_id (get_id labels name) (get_id more_labels name))
    × ((id : ℕ) (name : Text)
        → get_name labels id ≡ some name
        → get_name (merge labels more_labels).1 id ≡ some name)
merge_lem_example = merge_lem labels more_labels
