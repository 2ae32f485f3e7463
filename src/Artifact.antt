-- ===== src/Artifact.antt =====
-- artifact.go: the record of a work graph node, its sections, annotations and extra values, and
-- `artifactContentEqual` of memstore.go. A `time.Time` is a number of nanoseconds, 0 the zero time.
pub mod Labels
pub mod Filter
pub mod Claim
pub mod Equal
use parchment.Prelude.{
  ℕ, String, Bool, true, false, ◌&&◌, Option, none, some, List, [], ◌∷◌, ◌==◌, ◌<>◌, nat_eq, length,
  if◌then◌else◌,
}
use parchment.Dict.{Dict, lookup}

-- The dynamic values of `map[string]any`, as `encoding/json` decodes them. A number is given by the
-- text that `%v` prints of it, and the fields of an object stand in the order of their keys.
mutual
  pub data Value : Type 0 where
    absent : Value
    flag : Bool → Value
    number : String → Value
    text : String → Value
    array : Elements → Value
    object : Members → Value

  pub data Elements : Type 0 where
    no_elements : Elements
    element : Value → Elements → Elements

  pub data Members : Type 0 where
    no_members : Members
    member : String → Value → Members → Members

-- fmt.Sprintf("%v", v)
unfoldable mutual
  pub sprint : Value → String
  sprint absent = "<nil>"
  sprint (flag true) = "true"
  sprint (flag false) = "false"
  sprint (number n) = n
  sprint (text s) = s
  sprint (array xs) = "[" <> sprint_elements xs <> "]"
  sprint (object ms) = "map[" <> sprint_members ms <> "]"

  pub sprint_elements : Elements → String
  sprint_elements no_elements = ""
  sprint_elements (element v no_elements) = sprint v
  sprint_elements (element v xs) = sprint v <> " " <> sprint_elements xs

  pub sprint_members : Members → String
  sprint_members no_members = ""
  sprint_members (member k v no_members) = k <> ":" <> sprint v
  sprint_members (member k v ms) = k <> ":" <> sprint v <> " " <> sprint_members ms

pub record Section : Type 0 where
  pub name : String
  pub text : String

pub record Annotation : Type 0 where
  pub kind : String
  pub comment : String

-- `none` is a nil map
abbrev pub Extra : Type 0
Extra = Option (Dict Value)

-- A nil map reads as an empty one.
abbrev pub entries : Extra → Dict Value
entries none = []
entries (some d) = d

pub record Artifact : Type 0 where
  pub id : String
  pub title : String
  pub labels : List String
  pub sections : List Section
  pub extra : Extra
  pub annotations : List Annotation
  pub created_at : ℕ
  pub updated_at : ℕ
  pub inserted_at : ℕ
  pub warnings : List String

abbrev pub field_goal : String
field_goal = "goal"

find_goal : List Section → String
find_goal [] = ""
find_goal (s ∷ rest) = if s.name == field_goal then s.text else find_goal rest

-- (a *Artifact) Goal()
unfoldable pub goal : Artifact → String
unfolding find_goal
goal a = find_goal a.sections

unfoldable pub string_slice_equal : List String → List String → Bool
string_slice_equal [] [] = true
string_slice_equal (x ∷ xs) (y ∷ ys) = x == y && string_slice_equal xs ys
string_slice_equal _ _ = false

unfoldable pub sections_equal : List Section → List Section → Bool
sections_equal [] [] = true
sections_equal (x ∷ xs) (y ∷ ys) = x.name == y.name && x.text == y.text && sections_equal xs ys
sections_equal _ _ = false

unfoldable pub annotations_equal : List Annotation → List Annotation → Bool
annotations_equal [] [] = true
annotations_equal (x ∷ xs) (y ∷ ys) =
    x.kind == y.kind && x.comment == y.comment && annotations_equal xs ys
annotations_equal _ _ = false

-- the printed forms agree
abbrev same_print : Value → Option Value → Bool
same_print v none = false
same_print v (some w) = sprint v == sprint w

-- every key of the first map has, in the second, a value that prints alike
extra_within : Dict Value → Dict Value → Bool
extra_within [] b = true
extra_within ((k, v) ∷ a) b = same_print v (lookup b k) && extra_within a b

unfoldable pub extra_equal : Dict Value → Dict Value → Bool
unfolding extra_within
extra_equal a b = nat_eq (length a) (length b) && extra_within a b

unfoldable pub artifact_content_equal : Artifact → Artifact → Bool
artifact_content_equal a b =
    a.title == b.title
    && goal a == goal b
    && string_slice_equal a.labels b.labels
    && sections_equal a.sections b.sections
    && annotations_equal a.annotations b.annotations
    && extra_equal (entries a.extra) (entries b.extra)
