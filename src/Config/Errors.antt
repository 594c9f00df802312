-- ===== src/Config/Errors.antt =====
-- The errors of rust/src/config/error.rs that parameter expansion raises. The document's path is
-- the same in all of them and is left out. A pointer is kept as its segments, where the source
-- joins them into an RFC 6901 text; only error messages show it.
use scientific_workflow.Prelude.{ℕ, List, [], ◌∷◌, ◌++◌}
use scientific_workflow.Prelude.Texts.{Text}

pub data Segment : Type 0 where
  key : Text → Segment
  index : ℕ → Segment

abbrev pub Pointer : Type 0
Pointer = List Segment

abbrev pub child_pointer : Pointer → Text → Pointer
child_pointer pointer k = pointer ++ key k ∷ []

pub data Reason : Type 0 where
  spacing_siblings spacing_malformed spacing_bounds spacing_nonfinite : Reason
  sweep_siblings sweep_not_array sweep_empty : Reason
  cases_not_array cases_empty case_not_object case_empty cases_differ cases_overlap : Reason
  literal_marker : Reason
  unknown_marker : Text → Reason

pub data ConfigError : Type 0 where
  invalid : Pointer → Reason → ConfigError
  expansion_overflow : ConfigError
