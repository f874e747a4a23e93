-- ===== src/Api/Property.antt =====
-- `PropertyValue` of nervusdb-api/src/lib.rs. A `String` is the list of its UTF-8 bytes, an `i64` its
-- two's complement bit pattern (a number below 2^64), an `f64` the bit pattern `to_bits`, a
-- `BTreeMap` its entries in key order.
use nervusdb.Base.{ℕ, List, Bool}

abbrev pub Text : Type 0
Text = List ℕ

mutual
  pub data PropertyValue : Type 0 where
    null : PropertyValue
    bool : Bool → PropertyValue
    int : ℕ → PropertyValue
    float : ℕ → PropertyValue
    string : Text → PropertyValue
    date_time : ℕ → PropertyValue
    blob : List ℕ → PropertyValue
    list : Items → PropertyValue
    map : Fields → PropertyValue

  pub data Items : Type 0 where
    nil : Items
    cons : PropertyValue → Items → Items

  pub data Fields : Type 0 where
    end : Fields
    field : Text → PropertyValue → Fields → Fields
