-- ===== src/Variables/Persist.antt =====
-- app/engine/variables.c: the file of the store, `save_locked`, `load` and what calls them.
use event_engine_acap.Prelude.{
  ◌+◌, ◌≤◌, ◌<◌, ◌≡◌, refl, ap, sym, ◌∙◌, Bool, true, false, if◌then◌else◌, Option, none, some,
  List, [], ◌∷◌, ◌++◌, Str, codes, str_eq_refl, strcase_eq, snprintf, snprintf_fits, length,
  length-append, map, arith,
}
use mathlib.Core.List.{append-nil, append_assoc}
use event_engine_acap.Cjson.{Cjson, CjsonLaws, string_of}
use event_engine_acap.Table.{Distinct, occurs, occurs-append, find_none_of_occurs}
use event_engine_acap.Variables.Store.{
  Doubles, Variable, Variables, max_vars, var_name_len, var_value_len, var_key, find_var, with_var,
  new_var,
}

module _ {J D : Type 0} (c : Cjson J D) where
  unfoldable pub variable_to_json : Variable D → J
  variable_to_json v =
      c.add_item
        (c.add_item (c.add_item c.create_object (codes "name") (c.create_string v.name))
          (codes "value") (c.create_string v.value))
        (codes "is_counter") (c.create_bool v.is_counter)

  -- The new state, and what is written to localdata/variables.json.
  unfoldable pub save_locked : Variables D → Variables D × J
  save_locked vs = (record vs { dirty = false }, c.create_array (map variable_to_json vs.store))

  unfoldable pub variables_flush : Variables D → Variables D × Option J
  variables_flush vs =
      let (saved, file) = save_locked vs in if vs.dirty then (saved, some file) else (vs, none)

  -- `Variables_Cleanup` writes as `Variables_Flush` does.
  unfoldable pub variables_cleanup : Variables D → Variables D × Option J
  unfolding variables_flush
  variables_cleanup vs = variables_flush vs

  abbrev pub flag_of : J → Str → Bool
  flag_of obj key = elim (c.get_object_item obj key) [ none ↦ false | some item ↦ c.is_true item ]

  -- The object that `Variables_List` returns.
  unfoldable pub list_from : J → List (Variable D) → J
  list_from obj [] = obj
  list_from obj (v ∷ rest) =
      list_from
        (c.add_item obj v.name
          (if v.is_counter then c.create_number v.numeric else c.create_string v.value))
        rest

  unfoldable pub variables_list : Variables D → J
  variables_list vs = list_from c.create_object vs.store

abbrev pub keep_or :
    {D : Type 0} → List (Variable D) → Option (List (Variable D)) → List (Variable D)
keep_or store none = store
keep_or store (some store') = store'

-- What `load` writes through the pointer: the value if there is one, then the kind.
unfoldable pub loaded : {D : Type 0} → Doubles D → Option Str → Bool → Variable D → Variable D
loaded d none counter var = record var {
  is_counter = counter;
  numeric = if counter then d.atof var.value else var.numeric;
}
loaded d (some v) counter var =
    let value = snprintf var_value_len v in
    record var {
      value = value;
      is_counter = counter;
      numeric = if counter then d.atof value else var.numeric;
    }

module _ {J D : Type 0} (c : Cjson J D) (d : Doubles D) where
  -- One round of the loop of `load`: an item that is no object, or has no name, is passed over.
  unfoldable pub load_named : List (Variable D) → J → Option Str → List (Variable D)
  load_named store item none = store
  load_named store item (some name) = keep_or store (
      with_var d store name
        (loaded d (string_of c item (codes "value")) (flag_of c item (codes "is_counter"))))

  unfoldable pub load_item : List (Variable D) → J → List (Variable D)
  unfolding load_named
  load_item store item =
      if c.is_object item then load_named store item (string_of c item (codes "name")) else store

  unfoldable pub load_items : List (Variable D) → List J → List (Variable D)
  load_items store [] = store
  load_items store (item ∷ rest) = load_items (load_item store item) rest

  -- `Variables_Init`; the argument is what `ACAP_FILE_Read` returns.
  unfoldable pub variables_init : Variables D → Option J → Variables D
  variables_init vs none = vs
  variables_init vs (some json) = record vs { store = load_items vs.store (c.children json) }

-- The name and the value fit their buffers.
pub record Fits {D : Type 0} (v : Variable D) : Type 0 where
  pub name_fits : length v.name < var_name_len
  pub value_fits : length v.value < var_value_len

abbrev pub AllFit : {D : Type 0} → List (Variable D) → Type 0
AllFit [] = Unit {0}
AllFit (v ∷ vs) = Fits v × AllFit vs

-- A counter comes back as the number that its text stands for.
abbrev pub reloaded : {D : Type 0} → Doubles D → Variable D → Variable D
reloaded d v = record v { numeric = if v.is_counter then d.atof v.value else d.zero }

module _ {J D : Type 0} (c : Cjson J D) (laws : CjsonLaws c) (d : Doubles D) where
  module _ (v : Variable D) where
    json_IsObject : c.is_object (variable_to_json c v) ≡ true
    unfolding variable_to_json
    json_IsObject =
        laws.object_added _ _ _
          (laws.object_added _ _ _ (laws.object_added _ _ _ laws.object_created))

    json_name : string_of c (variable_to_json c v) (codes "name") ≡ some v.name
    unfolding variable_to_json strcase_eq
    json_name = simp (string_of, laws.get_added, laws.get_created, laws.string_created)

    json_value : string_of c (variable_to_json c v) (codes "value") ≡ some v.value
    unfolding variable_to_json strcase_eq
    json_value = simp (string_of, laws.get_added, laws.get_created, laws.string_created)

    json_counter : flag_of c (variable_to_json c v) (codes "is_counter") ≡ v.is_counter
    unfolding variable_to_json strcase_eq
    json_counter = simp (flag_of, laws.get_added, laws.get_created, laws.true_created)

  loaded_new :
      (v : Variable D)
      → Fits v
      → loaded d (some v.value) v.is_counter (new_var d v.name) ≡ reloaded d v
  unfolding loaded
  loaded_new v f =
      rw
        (
          snprintf_fits var_name_len v.name f.name_fits,
          snprintf_fits var_value_len v.value f.value_fits,
        )
        refl

  load_item-variable_to_json :
      (store : List (Variable D)) (v : Variable D)
      → Fits v
      → find_var store v.name ≡ none
      → length store < max_vars
      → load_item c d store (variable_to_json c v) ≡ store ++ (reloaded d v ∷ [])
  unfolding load_item with_var find_var
  load_item-variable_to_json store v f fresh room =
      rw (json_IsObject v, json_name v)
        (ground (arith, json_value v, json_counter v, loaded_new v f))

  load_items-map :
      (store vs : List (Variable D))
      → AllFit vs
      → Distinct var_key (store ++ vs)
      → length store + length vs ≤ max_vars
      → load_items c d store (map (variable_to_json c) vs) ≡ store ++ map (reloaded d) vs
  unfolding load_items
  load_items-map store [] f dist h = sym (append-nil store)
  load_items-map store (v ∷ vs) f dist h =
      ap (λ s. load_items c d s (map (variable_to_json c) vs))
        (load_item-variable_to_json store v f.0 fresh (omega arith))
      ∙ load_items-map (store ++ (reloaded d v ∷ [])) vs f.1 shifted
          (omega (arith, length-append store (reloaded d v ∷ [])))
      ∙ append_assoc store (reloaded d v ∷ []) (map (reloaded d) vs)
    where
      fresh : find_var store v.name ≡ none
      fresh =
          unfold find_var occurs in
          find_none_of_occurs var_key v.name store (
            ground
              (arith, dist v.name, occurs-append var_key v.name store (v ∷ vs), str_eq_refl v.name))

      same_keys : (k : Str) → occurs var_key k (reloaded d v ∷ []) ≡ occurs var_key k (v ∷ [])
      same_keys k = unfold occurs in refl

      shifted : Distinct var_key ((store ++ (reloaded d v ∷ [])) ++ vs)
      shifted k =
          unfold occurs in
          (omega (
            arith,
            dist k,
            occurs-append var_key k store (v ∷ vs),
            occurs-append var_key k (store ++ (reloaded d v ∷ [])) vs,
            occurs-append var_key k store (reloaded d v ∷ []),
            occurs-append var_key k (v ∷ []) vs,
            same_keys k,
          ))

  -- `Variables_Init`, on an empty store and the file that a save wrote, gives back every variable
  -- in its order; a counter then has the number that its "%g" text stands for. The names are
  -- distinct and the strings fit their buffers.
  pub init-save :
      (vs start : Variables D)
      → AllFit vs.store
      → Distinct var_key vs.store
      → length vs.store ≤ max_vars
      → start.store ≡ []
      → (variables_init c d start (some (save_locked c vs).1)).store ≡ map (reloaded d) vs.store
  unfolding variables_init save_locked
  init-save vs start f dist h e =
      rw (e, laws.children_created) (load_items-map [] vs.store f dist (omega arith))
