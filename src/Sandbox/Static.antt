-- ===== src/Sandbox/Static.antt =====
-- src/psrc/sandbox/static.py: the scanner. `ast.parse` is a parameter; of a syntax tree counts what
-- the scanner looks at.
pub mod Clean
use Prim.Native.Char.{code}
use Prim.Native.String.{String, ◌++◌ as ◌+++◌}
use strategy_adapter.Prelude.{
  ℕ, zero, suc, Bool, true, false, not, ◌&&◌, List, [], ◌∷◌, ◌++◌, Option, none, some, contains,
  nat_beq, ◌==◌, string_eq, if◌then◌else◌,
}

pub record PolicyFinding : Type 0 where
  pub code : String
  pub line : ℕ
  pub column : ℕ
  pub message : String

-- The nodes that the scanner has a method for, with what the method reads: the names of an import;
-- the level and the module of a relative import; the name that is called, if it is one; the
-- attribute.
pub data NodeKind : Type 0 where
  import_names : List String → NodeKind
  import_from : ℕ → Option String → NodeKind
  call : Option String → NodeKind
  attribute : String → NodeKind
  other : NodeKind

-- Nodes in a row, each with its line, its column and its children.
pub data Nodes : Type 0 where
  done : Nodes
  node : NodeKind → ℕ → ℕ → Nodes → Nodes → Nodes

-- What `ast.parse` makes of a source: a tree, or a `SyntaxError`.
pub data Parsed : Type 0 where
  tree : Nodes → Parsed
  syntax_error : Option ℕ → Option ℕ → String → Parsed

abbrev pub dangerous_calls : List String
dangerous_calls =
    "compile" ∷ "eval" ∷ "exec" ∷ "globals" ∷ "input" ∷ "locals" ∷ "open" ∷ "vars" ∷ "__import__"
    ∷ []

-- `module.split(".", maxsplit=1)[0]`
unfoldable pub import_root : String → String
import_root String.[] = ""
import_root (String.◌∷◌ c s) =
    let rest = import_root s in if nat_beq (code c) b'.' then "" else String.◌∷◌ c rest

-- `attr.startswith("__")`
unfoldable pub is_dunder : String → Bool
is_dunder (String.◌∷◌ c (String.◌∷◌ d s)) = nat_beq (code c) b'_' && nat_beq (code d) b'_'
is_dunder _ = false

abbrev quoted : String → String
quoted s = "'" +++ (s +++ "'")

-- `_add`, if the test holds
abbrev pub add_if : Bool → String → ℕ → ℕ → String → List PolicyFinding
add_if test code line column message =
    if test
    then (record { code = code; line = line; column = column; message = message }) ∷ []
    else []

-- `value or 0`
abbrev or_zero : Option ℕ → ℕ
or_zero none = 0
or_zero (some n) = n

module _ (allowed_imports : List String) where
  -- `_check_import`
  unfoldable pub check_import : String → ℕ → ℕ → List PolicyFinding
  check_import name line column =
      add_if (not (contains allowed_imports (import_root name))) "IMPORT_DENIED" line column
        ("import root " +++ (quoted (import_root name) +++ " is not in the manifest allow-list"))

  unfoldable pub check_imports : List String → ℕ → ℕ → List PolicyFinding
  check_imports [] line column = []
  check_imports (name ∷ names) line column =
      check_import name line column ++ check_imports names line column

  -- `visit_ImportFrom`: an empty module is none
  unfoldable pub check_import_from : ℕ → Option String → ℕ → ℕ → List PolicyFinding
  check_import_from (suc level) name line column =
      add_if true "RELATIVE_IMPORT_DENIED" line column "relative imports are not permitted"
  check_import_from zero none line column = []
  check_import_from zero (some name) line column =
      if name == "" then [] else check_import name line column

  -- `visit_Call`, before its children
  unfoldable pub check_call : Option String → ℕ → ℕ → List PolicyFinding
  check_call none line column = []
  check_call (some name) line column =
      add_if (contains dangerous_calls name) "DANGEROUS_CALL_DENIED" line column
        ("call to " +++ (quoted name +++ " is denied by the strategy policy"))

  -- `visit_Attribute`, before its children
  unfoldable pub check_attribute : String → ℕ → ℕ → List PolicyFinding
  check_attribute attr line column =
      add_if (is_dunder attr) "DUNDER_REFLECTION_DENIED" line column
        ("dunder attribute access " +++ (quoted attr +++ " is denied"))

  unfoldable pub check_node : NodeKind → ℕ → ℕ → List PolicyFinding
  check_node (import_names names) line column = check_imports names line column
  check_node (import_from level name) line column = check_import_from level name line column
  check_node (call name) line column = check_call name line column
  check_node (attribute attr) line column = check_attribute attr line column
  check_node other line column = []

  -- `visit`: a node's own findings, then those of its children
  unfoldable pub visit : Nodes → List PolicyFinding
  visit done = []
  visit (node kind line column children siblings) =
      check_node kind line column ++ (visit children ++ visit siblings)

  -- `scan`, of a source that is parsed
  unfoldable pub scan : Parsed → List PolicyFinding
  scan (tree nodes) = visit nodes
  scan (syntax_error line offset message) =
      (record {
        code = "PYTHON_SYNTAX_INVALID";
        line = or_zero line;
        column = or_zero offset;
        message = message;
      })
      ∷ []
