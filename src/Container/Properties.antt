-- ===== src/Container/Properties.antt =====
-- The properties of linux_container.go.
use garden_linux.Common.{
  ◌≡◌, ◌↔◌, inl, inr, refl, Bool, true, false, not, [], ◌∷◌, none, some, if◌then◌else◌, Outcome, ok,
  err, arith, Option-cases, Text, text_beq, text_beq_iff, text_eq, nat_eq,
}
use garden_linux.Common.Map
use garden_linux.Common.Map.{Map, UniqueKeys}
use garden_linux.Container.{Host, LinuxContainer, ContainerError, undefined_property}

-- `SetProperty` copies the map before it writes.
unfoldable pub copy : Map Text Text → Map Text Text → Map Text Text
copy [] props = props
copy ((k, v) ∷ m) props = copy m (Map.insert k v props)

-- The loop of `HasProperties`.
unfoldable pub has_each : Map Text Text → Map Text Text → Bool
has_each [] own = true
has_each ((k, v) ∷ wanted) own =
    let rest = has_each wanted own in
    elim (Map.lookup k own) [
      | none ↦ false
      | some value ↦ if not (text_beq value v) then false else rest
    ]

module _ {h : Host} where
  unfoldable pub property : Text → LinuxContainer h → Outcome ContainerError Text
  property key c = elim (Map.lookup key c.spec.properties) [
    | none ↦ err (undefined_property key)
    | some value ↦ ok value
  ]

  unfoldable pub set_property : Text → Text → LinuxContainer h → LinuxContainer h
  unfolding copy
  set_property key value c = record c {
    spec = record c.spec { properties = Map.insert key value (copy c.spec.properties []) };
  }

  unfoldable pub remove_property :
      Text → LinuxContainer h → LinuxContainer h × Outcome ContainerError (Unit {0})
  remove_property key c = elim (Map.lookup key c.spec.properties) [
    | none ↦ (c, err (undefined_property key))
    | some value ↦
        (record c { spec = record c.spec { properties = Map.delete key c.spec.properties } }, ok tt)
  ]

  unfoldable pub has_properties : Map Text Text → LinuxContainer h → Bool
  unfolding has_each
  has_properties wanted c = has_each wanted c.spec.properties

copy-UniqueKeys : (m props : Map Text Text) → UniqueKeys props → UniqueKeys (copy m props)
unfolding copy
copy-UniqueKeys [] props u = u
copy-UniqueKeys ((k, v) ∷ m) props u =
    copy-UniqueKeys m (Map.insert k v props) (Map.insert-UniqueKeys k v props u)

-- A copy has the entries of the map.
lookup-copy :
    (m props : Map Text Text) (j : Text)
    → UniqueKeys m
    → Map.lookup j (copy m props)
      ≡ (elim (Map.lookup j m) [ none ↦ Map.lookup j props | some v ↦ some v ])
unfolding copy Map.lookup
lookup-copy [] props j u = refl
lookup-copy ((k, v) ∷ m) props j u = ground (
  arith,
  lookup-copy m (Map.insert k v props) j,
  Map.lookup-insert k j v props,
  Map.has_key-lookup j m,
  text_beq_iff k j,
)

has_each-lookup :
    (wanted own : Map Text Text) (k v : Text)
    → has_each wanted own ≡ true
    → Map.lookup k wanted ≡ some v
    → Map.lookup k own ≡ some v
unfolding has_each Map.lookup
has_each-lookup [] own k v h e = absurd (cc)
has_each-lookup ((j, w) ∷ wanted) own k v h e = elim (Option-cases (Map.lookup j own)) [
  | inl missing ↦ absurd (ground arith)
  | inr (value, found) ↦
      ground (arith, has_each-lookup wanted own k v, text_beq_iff j k, text_beq_iff value w)
]

lookup-has_each :
    (wanted own : Map Text Text)
    → UniqueKeys wanted
    → ((k v : Text) → Map.lookup k wanted ≡ some v → Map.lookup k own ≡ some v)
    → has_each wanted own ≡ true
unfolding has_each Map.lookup
lookup-has_each [] own u h = refl
lookup-has_each ((j, w) ∷ wanted) own u h =
    let found : Map.lookup j own ≡ some w = h j w (ground (arith, text_beq_iff j j)) in
    let rest =
      lookup-has_each wanted own u.1
        (λ k v e. h k v (ground (arith, e, u.0, Map.has_key-lookup j wanted, text_beq_iff j k))) in
    ground (arith, found, rest, text_beq_iff w w)

module _ {h : Host} where
  -- When a container has each property once: a property that was set is read back and the others
  -- are as before; one that was removed is undefined and the others are as before;
  -- `RemoveProperty` fails exactly when the property is undefined; and each property stays there
  -- once.
  pub property_laws :
      (c : LinuxContainer h) (key value j : Text)
      → UniqueKeys c.spec.properties
      → (property j (set_property key value c)
          ≡ (if text_beq key j then ok value else property j c))
        × (property j (remove_property key c).0
            ≡ (if text_beq key j then err (undefined_property j) else property j c))
        × (((remove_property key c).1 ≡ err (undefined_property key))
            ↔ (property key c ≡ err (undefined_property key)))
        × UniqueKeys (set_property key value c).spec.properties
        × UniqueKeys (remove_property key c).0.spec.properties
  unfolding property set_property remove_property Map.lookup
  property_laws c key value j u =
      let m = c.spec.properties in
      (
        ground (arith, Map.lookup-insert key j value (copy m []), lookup-copy m [] j u),
        ground (arith, Map.lookup-delete key j m, text_beq_iff key j),
        (λ e. ground arith, λ e. ground arith),
        Map.insert-UniqueKeys key value (copy m []) (copy-UniqueKeys m [] tt),
        ground (arith, Map.delete-UniqueKeys key m u),
      )

  -- For wanted properties whose keys are unique, `HasProperties` answers true exactly if
  -- `Property` returns the wanted value for each wanted key.
  pub has_properties_iff :
      (wanted : Map Text Text) (c : LinuxContainer h)
      → UniqueKeys wanted
      → (has_properties wanted c ≡ true)
        ↔ ((k v : Text) → Map.lookup k wanted ≡ some v → property k c ≡ ok v)
  unfolding has_properties property
  has_properties_iff wanted c u = (
    λ e k v w. ground (arith, has_each-lookup wanted c.spec.properties k v e w),
    λ f. lookup-has_each wanted c.spec.properties u (λ k v w. ground (arith, f k v w)),
  )
