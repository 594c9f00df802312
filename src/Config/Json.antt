-- ===== src/Config/Json.antt =====
-- serde_json's `Value` and its `Map` with the feature `preserve_order`: an object keeps its keys
-- in the order in which they were inserted. `N` is serde_json's `Number`.
use scientific_workflow.Prelude.{ℕ, suc, ◌≡◌, Bool, false, ◌||◌, Option, none, some, if◌then◌else◌}
use scientific_workflow.Prelude.Texts.{Text, text_eq}

mutual
  pub data Value (N : Type 0) : Type 0 where
    null : Value N
    bool : Bool → Value N
    number : N → Value N
    string : Text → Value N
    array : Items N → Value N
    object : Fields N → Value N

  pub data Items (N : Type 0) : Type 0 where
    nil : Items N
    cons : Value N → Items N → Items N

  pub data Fields (N : Type 0) : Type 0 where
    end : Fields N
    field : Text → Value N → Fields N → Fields N

module _ {N : Type 0} where
  abbrev pub items_len : Items N → ℕ
  items_len nil = 0
  items_len (cons v vs) = suc (items_len vs)

  abbrev pub len : Fields N → ℕ
  len end = 0
  len (field k v fs) = suc (len fs)

  abbrev pub get : Text → Fields N → Option (Value N)
  get k end = none
  get k (field j v fs) = if text_eq j k then some v else get k fs

  abbrev pub contains_key : Text → Fields N → Bool
  contains_key k end = false
  contains_key k (field j v fs) = text_eq j k || contains_key k fs

  -- A key that is there keeps its place; a new one goes to the end.
  abbrev pub insert : Text → Value N → Fields N → Fields N
  insert k v end = field k v end
  insert k v (field j w fs) = if text_eq j k then field j v fs else field j w (insert k v fs)

  -- No key stands twice in the object.
  abbrev pub Distinct : Fields N → Type 0
  Distinct end = Unit
  Distinct (field k v fs) = (contains_key k fs ≡ false) × Distinct fs
