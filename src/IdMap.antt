-- ===== src/IdMap.antt =====
-- nervusdb-storage/src/idmap.rs: internal numbers for external ids, with their labels, and the records of
-- them in pages of the pager. A failing call keeps no state here: `commit` gives up at the first error.
pub mod Splice
pub mod Records
pub mod Stored
pub mod Create
pub mod Reload
use nervusdb.Base.{
  ℕ, zero, suc, ◌+◌, ◌-◌, ◌*◌, ◌/◌, ◌%◌, ◌^◌, Bool, true, false, not, Option, none, some, List, [],
  ◌∷◌, ◌++◌,
}
use nervusdb.Base.{
  if◌then◌else◌, ltb, leb, ◌==◌, length, take, drop, get_elem?, retain, any, is_some, ok, err,
  panic, ◌>>=◌, ◌>>◌, guard,
}
use nervusdb.Base.Bytes.{words, slice, from_le_bytes}
use nervusdb.Error.{Error, Storage, wal_protocol}
use nervusdb.Pager.{
  Pager, i2e_start_page, allocate_page, ensure_allocated, read_page, write_page, set_i2e_start_page,
  set_i2e_len, set_next_internal_id,
}
use nervusdb.Pager.Bitmap.{page_size}

pub record I2eRecord : Type 0 where
  pub external_id : ℕ
  pub label_id : ℕ
  pub flags : ℕ

unfoldable pub encode_i2e_record : I2eRecord → List ℕ
encode_i2e_record r = words ((8, r.external_id) ∷ (4, r.label_id) ∷ (4, r.flags) ∷ [])

unfoldable pub decode_i2e_record : List ℕ → I2eRecord
decode_i2e_record bytes = record {
  external_id = from_le_bytes (take 8 bytes);
  label_id = from_le_bytes (take 4 (drop 8 bytes));
  flags = from_le_bytes (take 4 (drop 12 bytes));
}

-- `e2i` is a list of pairs, the newest in front.
pub record IdMap : Type 0 where
  pub e2i : List (ℕ × ℕ)
  pub i2l : List (List ℕ)
  pub i2e : List I2eRecord
  pub i2e_start : Option ℕ
  pub i2e_len : ℕ

unfoldable pub find : List (ℕ × ℕ) → ℕ → Option ℕ
find [] external_id = none
find ((k, i) ∷ rest) external_id =
    let found = find rest external_id in if k == external_id then some i else found

unfoldable pub lookup : IdMap → ℕ → Option ℕ
unfolding find
lookup m external_id = find m.e2i external_id

abbrev pub get_labels : IdMap → ℕ → Option (List ℕ)
get_labels m internal_id = get_elem? m.i2l internal_id

-- `u32::try_from(..).unwrap_or(u32::MAX)`
unfoldable pub next_internal_id : IdMap → ℕ
next_internal_id m = if ltb m.i2e_len (2 ^ 32) then m.i2e_len else 2 ^ 32 - 1

abbrev pub record_size : ℕ
record_size = 16

abbrev pub records_per_page : ℕ
records_per_page = page_size / record_size

-- The page of a record and the offset in it.
abbrev pub i2e_location : ℕ → ℕ → ℕ × ℕ
i2e_location start internal_id =
    (start + internal_id / records_per_page, internal_id % records_per_page * record_size)

unfoldable pub read_i2e_record : Pager → ℕ → ℕ → Storage I2eRecord
unfolding decode_i2e_record
read_i2e_record p start internal_id = do
  let (page_id, offset) = i2e_location start internal_id
  page ← read_page p page_id
  bytes ← slice page offset (offset + record_size)
  ok (decode_i2e_record bytes)

-- `page[offset..offset + 16].copy_from_slice(..)`
unfoldable pub splice : List ℕ → ℕ → List ℕ → List ℕ
splice page offset bytes = take offset page ++ (bytes ++ drop (offset + length bytes) page)

unfoldable pub write_i2e_record : ℕ → ℕ → I2eRecord → Pager → Storage Pager
unfolding encode_i2e_record splice
write_i2e_record start internal_id r p = do
  let (page_id, offset) = i2e_location start internal_id
  q ← ensure_allocated page_id p
  page ← read_page q page_id
  write_page page_id (splice page offset (encode_i2e_record r)) q

abbrev pub add_record : ℕ → Storage I2eRecord → Storage IdMap → Storage IdMap
add_record internal_id r before = do
  m ← before
  found ← r
  let e2i : List (ℕ × ℕ) =
      if found.external_id == 0 then m.e2i else (found.external_id, internal_id % 2 ^ 32) ∷ m.e2i
  ok (record m {
    e2i = e2i;
    i2l = m.i2l ++ ((found.label_id ∷ []) ∷ []);
    i2e = m.i2e ++ (found ∷ []);
  })

-- The loop of `load`: the records below a number, in order.
unfoldable pub load_records : Pager → ℕ → ℕ → IdMap → Storage IdMap
unfolding read_i2e_record
load_records p start zero m = ok m
load_records p start (suc n) m = add_record n (read_i2e_record p start n) (load_records p start n m)

abbrev pub bare : Option ℕ → ℕ → IdMap
bare start len = record { e2i = []; i2l = []; i2e = []; i2e_start = start; i2e_len = len }

abbrev pub load_from : Pager → ℕ → Option ℕ → Storage IdMap
load_from p len none = ok (bare none len)
load_from p len (some start) = load_records p start len (bare (some start) len)

unfoldable pub load : Pager → Storage IdMap
unfolding load_records
load p = load_from p p.meta.i2e_len (i2e_start_page p)

-- `sort_unstable`
unfoldable pub insert_label : ℕ → List ℕ → List ℕ
insert_label l [] = l ∷ []
insert_label l (x ∷ xs) = let rest = insert_label l xs in if leb l x then l ∷ x ∷ xs else x ∷ rest

unfoldable pub sort_labels : List ℕ → List ℕ
unfolding insert_label
sort_labels [] = []
sort_labels (x ∷ xs) = insert_label x (sort_labels xs)

unfoldable pub dedup : List ℕ → List ℕ
dedup [] = []
dedup (x ∷ []) = x ∷ []
dedup (x ∷ y ∷ ys) = let rest = dedup (y ∷ ys) in if x == y then rest else x ∷ rest

abbrev pub first_or_zero : List ℕ → ℕ
first_or_zero [] = 0
first_or_zero (x ∷ xs) = x

abbrev pub first_page : Pager → Storage (ℕ × Pager)
first_page p = do
  allocated ← allocate_page p
  ok (allocated.0, set_i2e_start_page (some (allocated.0)) (allocated.1))

unfoldable pub ensure_start : IdMap → Pager → Storage (ℕ × Pager)
ensure_start m p = elim (m.i2e_start) [ some start ↦ ok (start, p) | none ↦ first_page p ]

unfoldable pub apply_create_node_multi_label :
    ℕ → List ℕ → ℕ → IdMap → Pager → Storage (IdMap × Pager)
unfolding next_internal_id lookup ensure_start write_i2e_record sort_labels dedup
apply_create_node_multi_label external_id labels internal_id m p = do
  guard (internal_id == next_internal_id m) (wal_protocol "non-dense internal id")
  guard (not (is_some (lookup m external_id))) (wal_protocol "duplicate external id")
  let sorted = dedup (sort_labels labels)
  started ← ensure_start m p
  let r : I2eRecord = record {
    external_id = external_id;
    label_id = first_or_zero sorted;
    flags = 0;
  }
  written ← write_i2e_record (started.0) internal_id r (started.1)
  let created : IdMap = record {
    e2i = (external_id, internal_id) ∷ m.e2i;
    i2l = m.i2l ++ (sorted ∷ []);
    i2e = m.i2e ++ (r ∷ []);
    i2e_start = some (started.0);
    i2e_len = m.i2e_len + 1;
  }
  ok (
    created,
    set_next_internal_id (next_internal_id created) (set_i2e_len (m.i2e_len + 1) written),
  )

unfoldable pub apply_create_node : ℕ → ℕ → ℕ → IdMap → Pager → Storage (IdMap × Pager)
unfolding apply_create_node_multi_label
apply_create_node external_id label_id internal_id =
    apply_create_node_multi_label external_id (label_id ∷ []) internal_id

abbrev update_labels : List (List ℕ) → ℕ → (List ℕ → List ℕ) → List (List ℕ)
update_labels [] i f = []
update_labels (x ∷ xs) zero f = f x ∷ xs
update_labels (x ∷ xs) (suc i) f = x ∷ update_labels xs i f

unfoldable pub apply_add_label : ℕ → ℕ → IdMap → Storage IdMap
unfolding sort_labels
apply_add_label internal_id label m = do
  guard (ltb internal_id (length m.i2l)) (wal_protocol "node not found")
  ok (record m {
    i2l =
        update_labels m.i2l internal_id
          (λ ls. if any (λ l. l == label) ls then ls else sort_labels (ls ++ (label ∷ [])));
  })

unfoldable pub apply_remove_label : ℕ → ℕ → IdMap → Storage IdMap
apply_remove_label internal_id label m = do
  guard (ltb internal_id (length m.i2l)) (wal_protocol "node not found")
  ok (record m { i2l = update_labels m.i2l internal_id (retain (λ l. not (l == label))) })
