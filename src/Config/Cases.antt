-- ===== src/Config/Cases.antt =====
-- `expand_cases` of rust/src/config/expansion.rs: correlated alternatives.
use scientific_workflow.Prelude.{
  ℕ, ◌+◌, Bool, true, false, ◌&&◌, ◌||◌, Option, none, some, if◌then◌else◌, Result, ok, err, ◌>>=◌,
  ◌>>◌, List, [], ◌∷◌, ◌++◌,
}
use scientific_workflow.Prelude.Texts.{Text, text, text_eq, text_lt, starts_with}
use scientific_workflow.Config.Json.{
  Value, null, bool, number, string, array, object, Items, nil, cons, Fields, end, field, get,
  insert,
}
use scientific_workflow.Config.Errors.{
  Pointer, key, index, child_pointer, ConfigError, invalid, cases_not_array, cases_empty,
  case_not_object, case_empty, cases_differ, cases_overlap, literal_marker, unknown_marker,
}

abbrev pub is_dollar : Text → Bool
is_dollar k = starts_with b'$' k

abbrev pub is_reserved : Text → Bool
is_reserved k = is_dollar k || (text_eq k (text "linspace") || text_eq k (text "logspace"))

module _ {N : Type 0} where
  unfoldable mutual
    pub reject_reserved_markers : Pointer → Value N → Result ConfigError (Unit {0})
    reject_reserved_markers pointer null = ok tt
    reject_reserved_markers pointer (bool b) = ok tt
    reject_reserved_markers pointer (number n) = ok tt
    reject_reserved_markers pointer (string s) = ok tt
    reject_reserved_markers pointer (array vs) = reject_items pointer vs
    reject_reserved_markers pointer (object fs) = reject_fields pointer fs

    pub reject_items : Pointer → Items N → Result ConfigError (Unit {0})
    reject_items pointer nil = ok tt
    reject_items pointer (cons v vs) = reject_reserved_markers pointer v >> reject_items pointer vs

    pub reject_fields : Pointer → Fields N → Result ConfigError (Unit {0})
    reject_fields pointer end = ok tt
    reject_fields pointer (field k v fs) =
        if is_reserved k
        then err (invalid (child_pointer pointer k) literal_marker)
        else reject_reserved_markers (child_pointer pointer k) v >> reject_fields pointer fs

  -- `visit` of `flattened_paths`, with the prefix as an argument.
  unfoldable mutual
    pub visit : List Text → Value N → List (List Text)
    visit prefix null = prefix ∷ []
    visit prefix (bool b) = prefix ∷ []
    visit prefix (number n) = prefix ∷ []
    visit prefix (string s) = prefix ∷ []
    visit prefix (array vs) = prefix ∷ []
    visit prefix (object end) = prefix ∷ []
    visit prefix (object (field k v fs)) = visit (prefix ++ k ∷ []) v ++ visit_fields prefix fs

    pub visit_fields : List Text → Fields N → List (List Text)
    visit_fields prefix end = []
    visit_fields prefix (field k v fs) = visit (prefix ++ k ∷ []) v ++ visit_fields prefix fs

-- The order of `Vec<String>`.
abbrev pub path_eq : List Text → List Text → Bool
path_eq [] [] = true
path_eq [] (b ∷ q) = false
path_eq (a ∷ p) [] = false
path_eq (a ∷ p) (b ∷ q) = text_eq a b && path_eq p q

abbrev pub path_lt : List Text → List Text → Bool
path_lt [] [] = false
path_lt [] (b ∷ q) = true
path_lt (a ∷ p) [] = false
path_lt (a ∷ p) (b ∷ q) = text_lt a b || (text_eq a b && path_lt p q)

abbrev pub paths_eq : List (List Text) → List (List Text) → Bool
paths_eq [] [] = true
paths_eq [] (b ∷ q) = false
paths_eq (a ∷ p) [] = false
paths_eq (a ∷ p) (b ∷ q) = path_eq a b && paths_eq p q

unfoldable pub insert_path : List Text → List (List Text) → List (List Text)
insert_path p [] = p ∷ []
insert_path p (q ∷ ps) = if path_lt q p then q ∷ insert_path p ps else p ∷ q ∷ ps

-- `sort_unstable`: equal paths cannot be told apart, so every sort gives this list.
unfoldable pub sort_paths : List (List Text) → List (List Text)
unfolding insert_path
sort_paths [] = []
sort_paths (p ∷ ps) = insert_path p (sort_paths ps)

-- `expected` holds the paths of the first case, once it has been seen.
unfoldable pub same_paths :
    Pointer → Option (List (List Text)) → List (List Text) → Result ConfigError (List (List Text))
same_paths pointer none paths = ok paths
same_paths pointer (some expected) paths =
    if paths_eq expected paths
    then ok expected
    else err (invalid (child_pointer pointer (text "$cases")) cases_differ)

module _ {N : Type 0} where
  unfoldable pub flattened_paths : Fields N → List (List Text)
  unfolding sort_paths visit_fields
  flattened_paths fs = sort_paths (visit_fields [] fs)

  -- Writing through `get_mut`.
  abbrev pub replace : Text → Value N → Fields N → Fields N
  replace k v end = end
  replace k v (field j w fs) = if text_eq j k then field j v fs else field j w (replace k v fs)

  unfoldable mutual
    pub merge_objects : Pointer → Fields N → Fields N → Result ConfigError (Fields N)
    merge_objects pointer destination end = ok destination
    merge_objects pointer destination (field k v source) =
        merge_value pointer destination k v (get k destination) >>= λ d.
        merge_objects pointer d source

    -- One round of the loop, on the value of the source and what the destination holds.
    pub merge_value :
        Pointer → Fields N → Text → Value N → Option (Value N) → Result ConfigError (Fields N)
    merge_value pointer destination k (object source) (some (object inner)) = do
      merged ← merge_objects (child_pointer pointer k) inner source
      ok (replace k (object merged) destination)
    merge_value pointer destination k value none = ok (insert k value destination)
    merge_value pointer destination k value (some old) =
        err (invalid (child_pointer pointer k) cases_overlap)

  -- The loop over the object's own fields: `$cases` itself is passed over.
  unfoldable pub fixed_fields : Pointer → Fields N → Fields N → Result ConfigError (Fields N)
  unfolding reject_reserved_markers
  fixed_fields pointer fixed end = ok fixed
  fixed_fields pointer fixed (field k v fs) =
      if text_eq k (text "$cases")
      then fixed_fields pointer fixed fs
      else if is_dollar k
      then err (invalid (child_pointer pointer k) (unknown_marker k))
      else do
        reject_reserved_markers (child_pointer pointer k) v
        fixed_fields pointer (insert k v fixed) fs

  unfoldable pub expand_case :
      Pointer
      → ℕ
      → Fields N
      → Option (List (List Text))
      → Value N
      → Result ConfigError (Value N × List (List Text))
  expand_case pointer i fixed expected (object end) =
      err (invalid (pointer ++ key (text "$cases") ∷ index i ∷ []) case_empty)
  expand_case pointer i fixed expected (object (field k v fs)) = do
    reject_reserved_markers pointer (object (field k v fs))
    paths ← same_paths pointer expected (flattened_paths (field k v fs))
    merged ← merge_objects pointer fixed (field k v fs)
    ok (object merged, paths)
  expand_case pointer i fixed expected _ =
      err (invalid (pointer ++ key (text "$cases") ∷ index i ∷ []) case_not_object)

  unfoldable pub case_loop :
      Pointer
      → ℕ
      → Fields N
      → Option (List (List Text))
      → Items N
      → Result ConfigError (List (Value N))
  case_loop pointer i fixed expected nil = ok []
  case_loop pointer i fixed expected (cons case cases) = do
    (value, paths) ← expand_case pointer i fixed expected case
    rest ← case_loop pointer (i + 1) fixed (some paths) cases
    ok (value ∷ rest)

  unfoldable pub expand_cases : Pointer → Fields N → Value N → Result ConfigError (List (Value N))
  expand_cases pointer fields (array nil) =
      err (invalid (child_pointer pointer (text "$cases")) cases_empty)
  expand_cases pointer fields (array (cons case cases)) = do
    fixed ← fixed_fields pointer end fields
    case_loop pointer 0 fixed none (cons case cases)
  expand_cases pointer fields _ =
      err (invalid (child_pointer pointer (text "$cases")) cases_not_array)
