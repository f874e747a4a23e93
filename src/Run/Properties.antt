-- ===== src/Run/Properties.antt =====
-- How the memtable's updates of the property maps show in the lookups of a run, for any owner type.
use nervusdb.Base.{not, ◌≡◌, ◌&&◌, ◌||◌, none, some, [], arith, if◌then◌else◌}
use nervusdb.Base.OrdMap.{
  Key, Map, Set, get, get_or, insert, remove, contains, add, erase, get-nil, get-insert, get-remove,
  contains-add, contains-erase,
}
use nervusdb.Api.Property.{Text, PropertyValue}
use nervusdb.Api.Edge.{bytes_eq, text_key}
use nervusdb.MemTable.{PropertyMap, put_property, unmark_removed, drop_property, mark_removed}
use nervusdb.Run.{is_removed, property_in}

module _ {K : Type 0} ⦃k : Key K⦄ (o o' : K) (key key' : Text) where
  pub is_removed-mark :
      (m : Map K (Set Text))
      → is_removed (mark_removed o key m) o' key'
        ≡ (k.eq o o' && bytes_eq key key' || is_removed m o' key')
  unfolding is_removed mark_removed get_or
  is_removed-mark m =
      let s = get_or [] o m in
      ground (arith, k.eq_iff o o', get-insert o o' (add key s) m, contains-add key key' s)

  pub is_removed-unmark :
      (m : Map K (Set Text))
      → is_removed (unmark_removed o key m) o' key'
        ≡ (not (k.eq o o' && bytes_eq key key') && is_removed m o' key')
  unfolding is_removed unmark_removed get_or contains
  is_removed-unmark m =
      let s = get_or [] o m in
      ground (arith, k.eq_iff o o', get-insert o o' (erase key s) m, contains-erase key key' s)

  pub property_in-put :
      (v : PropertyValue) (m : Map K PropertyMap)
      → property_in (put_property o key v m) o' key'
        ≡ (if k.eq o o' && bytes_eq key key' then some v else property_in m o' key')
  unfolding property_in put_property get_or get
  property_in-put v m =
      let p = get_or [] o m in
      ground (arith, k.eq_iff o o', get-insert o o' (insert key v p) m, get-insert key key' v p)

  pub property_in-drop :
      (m : Map K PropertyMap)
      → property_in (drop_property o key m) o' key'
        ≡ (if k.eq o o' && bytes_eq key key' then none else property_in m o' key')
  unfolding property_in drop_property get_or
  property_in-drop m =
      let p = remove key (get_or [] o m) in
      ground (
        arith,
        k.eq_iff o o',
        get-insert o o' p m,
        get-remove o o' m,
        get-remove key key' (get_or [] o m),
        get-nil {V = PropertyValue} key',
      )
