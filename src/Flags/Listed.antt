-- ===== src/Flags/Listed.antt =====
-- The registry against the table: the lookup finds every row, and nothing else.
use core_engine_ge_m.Base.{
  Among, ◌≡◌, refl, subst, ◌↔◌, inl, inr, String, Bool, true, false, not, ◌&&◌, ◌==◌, ==-self,
  string_eq, Option, none, some, List, [], ◌∷◌, Map, lookup, insert, lookup-insert, ok,
  if◌then◌else◌, arith,
}
use core_engine_ge_m.Flags.Model.{FlagDefinition}
use core_engine_ge_m.Flags.{flags, registry_from, flag_registry, or_unknown, get_flag_definition}

has_id : String → List FlagDefinition → Bool
has_id id [] = false
has_id id (item ∷ items) = if item.flag_id == id then true else has_id id items

distinct : List FlagDefinition → Bool
distinct [] = true
distinct (item ∷ items) = not (has_id item.flag_id items) && distinct items

-- The first row with the ID, or what the registry had before.
row_or : String → List FlagDefinition → Option FlagDefinition → Option FlagDefinition
row_or id [] before = before
row_or id (item ∷ items) before = if item.flag_id == id then some item else row_or id items before

row_or_absent :
    (id : String) (items : List FlagDefinition) (before : Option FlagDefinition)
    → has_id id items ≡ false
    → row_or id items before ≡ before
unfolding row_or has_id
row_or_absent id [] before h = refl
row_or_absent id (item ∷ items) before h = ground (arith, row_or_absent id items before)

lookup-registry_from :
    (id : String) (items : List FlagDefinition) (m : Map String FlagDefinition)
    → distinct items ≡ true
    → lookup id (registry_from items m) ≡ row_or id items (lookup id m)
unfolding registry_from row_or distinct
lookup-registry_from id [] m h = refl
lookup-registry_from id (item ∷ items) m h = ground (
  arith,
  lookup-registry_from id items (insert item.flag_id item m),
  lookup-insert item.flag_id id item m,
  row_or_absent id items (some item),
  string_eq.equals_iff item.flag_id id,
)

Among-has_id :
    (d : FlagDefinition) (items : List FlagDefinition)
    → Among d items
    → has_id d.flag_id items ≡ true
unfolding has_id
Among-has_id d [] l = absurd l
Among-has_id d (item ∷ items) (inl e) = rw (← e, ==-self d.flag_id) refl
Among-has_id d (item ∷ items) (inr l) = ground (arith, Among-has_id d items l)

row_or-Among :
    (id : String) (d : FlagDefinition) (items : List FlagDefinition)
    → row_or id items none ≡ some d
    → Among d items × (d.flag_id ≡ id)
unfolding row_or
row_or-Among id d [] h = cc
row_or-Among id d (item ∷ items) h =
    ground (arith, row_or-Among id d items, string_eq.equals_iff item.flag_id id)

Among-row_or :
    (d : FlagDefinition) (items : List FlagDefinition)
    → distinct items ≡ true
    → Among d items
    → row_or d.flag_id items none ≡ some d
unfolding row_or distinct
Among-row_or d [] h l = absurd l
Among-row_or d (item ∷ items) h (inl e) = rw (← e, ==-self d.flag_id) refl
Among-row_or d (item ∷ items) h (inr l) = ground (
  arith,
  Among-row_or d items,
  Among-has_id d items l,
  string_eq.equals_iff item.flag_id d.flag_id,
)

flags-distinct : distinct flags ≡ true
unfolding flags distinct has_id
flags-distinct = refl

lookup-flag_registry : (id : String) → lookup id flag_registry ≡ row_or id flags none
unfolding flag_registry lookup
lookup-flag_registry id = lookup-registry_from id flags [] flags-distinct

or_unknown-ok :
    (id : String) (o : Option FlagDefinition) (d : FlagDefinition)
    → (or_unknown id o ≡ ok d) ↔ (o ≡ some d)
or_unknown-ok id none d = (λ h. cc, λ h. cc)
or_unknown-ok id (some c) d = (λ h. cc, λ h. cc)

-- The lookup of a flag returns a definition exactly when it is a row of the table that has this ID:
-- no two rows share an ID, so that none is lost when the registry is built.
pub get_flag_definition_iff :
    (id : String) (d : FlagDefinition)
    → (get_flag_definition id ≡ ok d) ↔ (Among d flags × (d.flag_id ≡ id))
unfolding get_flag_definition
get_flag_definition_iff id d = rw lookup-flag_registry (
  λ h. row_or-Among id d flags ((or_unknown-ok id (row_or id flags none) d).0 h),
  λ (l, e).
      subst (λ k. or_unknown k (row_or k flags none) ≡ ok d) e
        ((or_unknown-ok d.flag_id (row_or d.flag_id flags none) d).1
          (Among-row_or d flags flags-distinct l)),
)
