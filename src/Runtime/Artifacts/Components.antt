-- ===== src/Runtime/Artifacts/Components.antt =====
-- src/psrc/runtime/artifacts.py: `_validate_component`, over the parts that a POSIX path has.
use Prim.Native.Char.{Char, code}
use Prim.Native.String.{String}
use strategy_adapter.Prelude.{
  Bool, true, false, not, ◌||◌, List, [], ◌∷◌, nat_beq, ok, raised, ◌==◌, string_eq, if◌then◌else◌,
}
use strategy_adapter.Contract.Errors.{Call, python, value_error}

abbrev is_slash : Char → Bool
is_slash c = nat_beq (code c) b'/'

-- the text up to the first slash, and what follows that slash, cut at its slashes
abbrev split : String → String × List String
split String.[] = ("", [])
split (String.◌∷◌ c s) =
    let (first, rest) = split s in
    if is_slash c then ("", first ∷ rest) else (String.◌∷◌ c first, rest)

-- An empty part and `.` do not count.
abbrev counted : List String → List String
counted [] = []
counted (p ∷ ps) = let rest = counted ps in if p == "" || p == "." then rest else p ∷ rest

-- `PurePosixPath(value).parts`, of a relative path
unfoldable pub parts : String → List String
parts value = let (first, rest) = split value in counted (first ∷ rest)

-- `PurePosixPath(value).is_absolute()`
unfoldable pub is_absolute : String → Bool
is_absolute String.[] = false
is_absolute (String.◌∷◌ c s) = is_slash c

abbrev is_one : List String → Bool
is_one (p ∷ []) = true
is_one _ = false

-- the name that a path with this one part has in its directory
abbrev only_part : List String → Call String
only_part (p ∷ []) = ok p
only_part _ = raised (python value_error)

-- `_validate_component`: the value is used as a path, so what counts of it is its one part.
unfoldable pub validate_component : String → Call String
unfolding parts is_absolute
validate_component value =
    if is_absolute value
      || not (is_one (parts value))
      || value == ""
      || value == "."
      || value == ".."
    then raised (python value_error)
    else only_part (parts value)
