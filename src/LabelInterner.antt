-- ===== src/LabelInterner.antt =====
-- nervusdb-storage/src/label_interner.rs: label names and their numbers, in both directions.
-- `get_or_create_owned` differs from `get_or_create` only in how it takes the name.
pub mod Inverse
pub mod Merge
use nervusdb.Base.{ℕ, ◌+◌, ◌%◌, ◌^◌, Option, none, some, List, [], ◌∷◌, ◌++◌}
use nervusdb.Base.{length, get_elem?}
use nervusdb.Base.OrdMap.{Map, get, insert}
use nervusdb.Api.Property.{Text}
use nervusdb.Api.Edge.{text_key}

pub record LabelInterner : Type 0 where
  pub s2i : Map Text ℕ
  pub i2s : List Text

-- `LabelInterner::new()`
abbrev pub new : LabelInterner
new = record { s2i = []; i2s = [] }

unfoldable pub get_id : LabelInterner → Text → Option ℕ
get_id t name = get name t.s2i

unfoldable pub get_name : LabelInterner → ℕ → Option Text
get_name t id = get_elem? t.i2s id

-- `self.i2s.len() as LabelId`
unfoldable pub next_id : LabelInterner → ℕ
next_id t = length t.i2s % 2 ^ 32

unfoldable pub get_or_create : LabelInterner → Text → ℕ × LabelInterner
unfolding next_id
get_or_create t name = elim (get name t.s2i) [
  | some id ↦ (id, t)
  | none ↦ (next_id t, record { s2i = insert name (next_id t) t.s2i; i2s = t.i2s ++ (name ∷ []) })
]
