-- ===== src/PagerExamples.antt =====
-- The pager, the byte strings and the id map at concrete inputs.
use nervusdb.Base.{
  ℕ, ◌≡◌, ◌≢◌, refl, false, none, some, List, [], ◌∷◌, arith, if◌then◌else◌, ◌==◌, ok, err, panic,
  ◌>>=◌,
}
use nervusdb.Base.{◌*◌, ◌%◌, ltb}
use nervusdb.Pager.{write_page_raw}
use nervusdb.Pager.Bytes.{File, bytes_at, write_page_bytes}
use nervusdb.Pager.Bytes.Transfers.{
  IsGrant, Represents, paged-Represents, write_page_bytes-Represents,
}
use nervusdb.Error.{Storage}
use nervusdb.Pager.{
  Disk, Pager, create, open_pager, allocate_page, write_page, read_page, set_i2e_start_page,
  set_next_internal_id, set_i2e_len,
}
use nervusdb.Pager.Bitmap.{page_size, zeros, length-zeros, get_bit, find_free_in_range}
use nervusdb.Pager.MetaPage.{Meta, new_meta, encode_page, decode_page}
use nervusdb.Pager.MetaRoundTrip.{IsMeta, repair, decode_page-encode_page}
use nervusdb.Pager.Reopen.{IsOpen}
use nervusdb.Pager.Steps.{PagerOp, allocate, free, len, run_ops, create-IsOpen, open_pager-run_ops}
use nervusdb.Pager.Pages.{Holds, allocate_page-Holds}
use nervusdb.BlobStore.{write_direct, read_direct, delete}
use nervusdb.BlobStore.Written.{read_direct-write_direct}
use nervusdb.BlobStore.Deleted.{delete-write_direct}
use nervusdb.IdMap.{IdMap, bare, load, lookup, apply_create_node}
use nervusdb.IdMap.Stored.{IsStored}
use nervusdb.IdMap.Create.{apply_create_node-IsStored}
use nervusdb.IdMap.Reload.{create_nodes, create-IsStored, load-create_nodes}

abbrev empty_file : Disk
empty_file = record { pages = 0; page = λ i. zeros page_size }

abbrev used_meta : Meta
used_meta = record new_meta { next_page_id = 7; i2e_len = 3; i2e_start_page_id = 2 }

used_meta-IsMeta : IsMeta used_meta
used_meta-IsMeta = ground arith

decode_page-encode_page_example : decode_page (encode_page used_meta) ≡ ok (repair used_meta)
decode_page-encode_page_example = decode_page-encode_page used_meta used_meta-IsMeta

abbrev run_of : Storage Pager → Pager
run_of (ok p) = p
run_of (err e) = create empty_file
run_of panic = create empty_file

abbrev some_ops : List PagerOp
some_ops = allocate ∷ allocate ∷ len 4 ∷ free 2 ∷ allocate ∷ []

some_ops-ok :
    run_ops some_ops (create empty_file) ≡ ok (run_of (run_ops some_ops (create empty_file)))
unfolding run_ops find_free_in_range create
some_ops-ok = refl

open_pager-run_ops_example :
    open_pager (run_of (run_ops some_ops (create empty_file))).disk
    ≡ ok (record (run_of (run_ops some_ops (create empty_file))) {
      meta = repair ((run_of (run_ops some_ops (create empty_file))).meta);
    })
open_pager-run_ops_example =
    open_pager-run_ops empty_file some_ops (run_of (run_ops some_ops (create empty_file)))
      (omega arith) some_ops-ok

abbrev first_of : {A : Type 0} → A → Storage (A × Pager) → A
first_of a (ok r) = r.0
first_of a (err e) = a
first_of a panic = a

abbrev second_of : {A : Type 0} → Storage (A × Pager) → Pager
second_of (ok r) = r.1
second_of (err e) = create empty_file
second_of panic = create empty_file

abbrev started : Pager
started = create empty_file

started-IsOpen : IsOpen started
started-IsOpen = create-IsOpen empty_file

allocated-ok : allocate_page started ≡ ok (2, second_of (allocate_page started))
unfolding allocate_page find_free_in_range create
allocated-ok = refl

allocate_page-Holds_example :
    IsOpen (second_of (allocate_page started))
    × (get_bit started.bitmap 2 ≡ false)
    × Holds (second_of (allocate_page started)) 2 ((second_of (allocate_page started)).disk.page 2)
    × ((other : ℕ) (bytes : List ℕ)
        → Holds started other bytes
        → (other ≢ 2) × Holds (second_of (allocate_page started)) other bytes)
allocate_page-Holds_example =
    allocate_page-Holds started 2 (second_of (allocate_page started)) started-IsOpen allocated-ok

abbrev one_page : Pager
one_page = second_of (allocate_page started)

abbrev page_two : List ℕ
page_two = one_page.disk.page 2

-- A system that moves 1000 bytes at most in a call
unfoldable thousand : ℕ → ℕ → ℕ
thousand offset wanted = if ltb 1000 wanted then 1000 else wanted

thousand-IsGrant : IsGrant thousand
unfolding thousand
thousand-IsGrant offset wanted h = (ground (arith, h), ground (arith, h))

abbrev three_pages : File
three_pages = record { len = 24576; byte = λ i. i % 256 }

abbrev their_disk : Disk
their_disk = record { pages = 3; page = λ id. bytes_at three_pages (id * page_size) page_size }

write_page_bytes-Represents_example :
    (after : File) × (write_page_bytes thousand three_pages 1 (zeros page_size) ≡ ok after)
    × Represents thousand thousand-IsGrant after (write_page_raw their_disk 1 (zeros page_size))
write_page_bytes-Represents_example =
    write_page_bytes-Represents thousand thousand-IsGrant three_pages their_disk 1 (zeros page_size)
      (paged-Represents thousand thousand-IsGrant three_pages 3 (omega arith))
      (length-zeros page_size) (omega arith)

abbrev blob : List ℕ
blob = 7 ∷ 0 ∷ 255 ∷ []

abbrev with_blob : Pager
with_blob = second_of (write_direct blob started)

blob-ok : write_direct blob started ≡ ok (2, with_blob)
unfolding write_direct find_free_in_range create
blob-ok = refl

read_direct-write_direct_example :
    (read_direct 4 with_blob 2 ≡ some (ok blob))
    × IsOpen with_blob
    × ((other : ℕ) (kept : List ℕ) → Holds started other kept → Holds with_blob other kept)
read_direct-write_direct_example =
    read_direct-write_direct blob started 2 with_blob 4 started-IsOpen blob-ok (omega arith)

delete-write_direct_example :
    (r : Pager) × (delete 4 2 with_blob ≡ some (ok r))
    × IsOpen r
    × ((i : ℕ) → get_bit r.bitmap i ≡ get_bit started.bitmap i)
delete-write_direct_example =
    delete-write_direct blob started 2 with_blob 4 started-IsOpen blob-ok (omega arith)

abbrev two_nodes : List (ℕ × ℕ × ℕ)
two_nodes = (100, 7, 0) ∷ (200, 7, 1) ∷ []

abbrev map_of : Storage (IdMap × Pager) → IdMap
map_of = first_of (bare none 0)

two_nodes-ok :
    create_nodes two_nodes (bare none 0) started
    ≡ ok (
      map_of (create_nodes two_nodes (bare none 0) started),
      second_of (create_nodes two_nodes (bare none 0) started),
    )
unfolding create_nodes find_free_in_range create allocate_page read_page set_i2e_start_page
    write_page set_next_internal_id set_i2e_len
two_nodes-ok = refl

load-create_nodes_example :
    (l : IdMap) × ((open_pager (second_of (create_nodes two_nodes (bare none 0) started)).disk
        >>= load)
      ≡ ok l)
    × (l.i2e ≡ (map_of (create_nodes two_nodes (bare none 0) started)).i2e)
    × ((x : ℕ)
        → lookup l x ≡ (
            if x == 0
            then none
            else lookup (map_of (create_nodes two_nodes (bare none 0) started)) x))
load-create_nodes_example =
    load-create_nodes empty_file two_nodes (map_of (create_nodes two_nodes (bare none 0) started))
      (second_of (create_nodes two_nodes (bare none 0) started)) (λ i. length-zeros page_size)
      (omega arith) two_nodes-ok

abbrev one_node : Storage (IdMap × Pager)
one_node = apply_create_node 100 7 0 (bare none 0) started

one_node-ok : one_node ≡ ok (map_of one_node, second_of one_node)
unfolding apply_create_node find_free_in_range create allocate_page read_page set_i2e_start_page
    write_page set_next_internal_id set_i2e_len
one_node-ok = refl

apply_create_node-IsStored_example :
    IsStored (map_of one_node) (second_of one_node)
    × ((x : ℕ) → lookup (map_of one_node) x ≡ (if 100 == x then some 0 else lookup (bare none 0) x))
apply_create_node-IsStored_example =
    apply_create_node-IsStored 100 7 0 (bare none 0) (map_of one_node) started (second_of one_node)
      (omega arith) (omega arith) (create-IsStored empty_file (λ i. length-zeros page_size))
      one_node-ok
