-- ===== src/Fuse/Paths.antt =====
-- eventfs-fuse/src/path.rs: `Node` and the parsing of paths.
pub mod Laws
pub mod Walk
pub mod Parse
use eventfs.Prelude.{
  ℕ, Bool, true, false, not, ◌&&◌, ◌||◌, Option, none, some, List, [], ◌∷◌, ◌++◌, Text, ◌==◌,
  nat_ord, list_ord, length, if◌then◌else◌, Result, ok, err, ◌>>=◌, ◌>>◌,
}
use eventfs.Identifier.{validate_aggregate_identifier, has_byte, split}

abbrev pub events_jsonl : Text
events_jsonl =
    b'e' ∷ b'v' ∷ b'e' ∷ b'n' ∷ b't' ∷ b's' ∷ b'.' ∷ b'j' ∷ b's' ∷ b'o' ∷ b'n' ∷ b'l' ∷ []

abbrev pub states_name : Text
states_name = b's' ∷ b't' ∷ b'a' ∷ b't' ∷ b'e' ∷ b's' ∷ []

abbrev pub groups_name : Text
groups_name = b'g' ∷ b'r' ∷ b'o' ∷ b'u' ∷ b'p' ∷ b's' ∷ []

abbrev pub json_extension : Text
json_extension = b'.' ∷ b'j' ∷ b's' ∷ b'o' ∷ b'n' ∷ []

abbrev pub jsonl_extension : Text
jsonl_extension = b'.' ∷ b'j' ∷ b's' ∷ b'o' ∷ b'n' ∷ b'l' ∷ []

abbrev pub dot : Text
dot = b'.' ∷ []

abbrev pub dot_dot : Text
dot_dot = b'.' ∷ b'.' ∷ []

pub data Node : Type 0 where
  root : Node
  business_space : Text → Node
  aggregate_type events states groups : Text → Text → Node
  state group : Text → Text → Text → Node
  consumer : Text → Text → Text → Text → Node

pub data PathError : Type 0 where
  invalid_shape invalid_name invalid_extension not_directory not_found : PathError

abbrev pub Parsed {ℓ} : Type ℓ → Type ℓ
Parsed A = Result PathError A

-- `str::strip_suffix`
unfoldable pub strip_suffix : Text → Text → Option Text
strip_suffix suffix [] = if length suffix == 0 then some [] else none
strip_suffix suffix (c ∷ cs) =
    let rest = strip_suffix suffix cs in
    if c ∷ cs == suffix then some [] else elim rest [ none ↦ none | some stem ↦ some (c ∷ stem) ]

unfoldable pub strip_extension : Text → Text → Parsed Text
unfolding strip_suffix
strip_extension name extension = elim (strip_suffix extension name) [
  | none ↦ err invalid_extension
  | some stem ↦ if length stem == 0 then err invalid_extension else ok stem
]

unfoldable pub identifier : Text → Parsed (Unit {0})
identifier value = elim (validate_aggregate_identifier value) [
  | err e ↦ err invalid_name
  | ok u ↦ ok tt
]

abbrev pub is_bad_name : Text → Bool
is_bad_name name = length name == 0 || name == dot || name == dot_dot || has_byte b'/' name

unfoldable pub child_of : Node → Text → Parsed Node
unfolding identifier strip_extension
child_of root name = do identifier name; ok (business_space name)
child_of (business_space b) name = do identifier name; ok (aggregate_type b name)
child_of (aggregate_type b t) name =
    if name == events_jsonl
    then ok (events b t)
    else if name == states_name
    then ok (states b t)
    else if name == groups_name
    then ok (groups b t)
    else err not_found
child_of (states b t) name = do
  aggregate_id ← strip_extension name json_extension
  identifier aggregate_id
  ok (state b t aggregate_id)
child_of (groups b t) name = do identifier name; ok (group b t name)
child_of (group b t g) name = do
  consumer_id ← strip_extension name jsonl_extension
  identifier consumer_id
  ok (consumer b t g consumer_id)
child_of (events b t) name = err not_directory
child_of (state b t a) name = err not_directory
child_of (consumer b t g c) name = err not_directory

unfoldable pub child : Node → Text → Parsed Node
unfolding child_of
child node name = if is_bad_name name then err invalid_name else child_of node name

unfoldable pub children : Node → List Text → Parsed Node
unfolding child
children node [] = ok node
children node (segment ∷ segments) = do next ← child node segment; children next segments

unfoldable pub starts_with_slash : Text → Bool
starts_with_slash [] = false
starts_with_slash (c ∷ cs) = c == b'/'

unfoldable pub ends_with_slash : Text → Bool
ends_with_slash [] = false
ends_with_slash (c ∷ []) = c == b'/'
ends_with_slash (c ∷ d ∷ cs) = ends_with_slash (d ∷ cs)

unfoldable pub has_double_slash : Text → Bool
has_double_slash [] = false
has_double_slash (c ∷ []) = false
has_double_slash (c ∷ d ∷ cs) = (c == b'/' && d == b'/') || has_double_slash (d ∷ cs)

-- `path[1..]`
abbrev pub after_first : Text → Text
after_first [] = []
after_first (c ∷ cs) = cs

unfoldable pub parse : Text → Parsed Node
unfolding children starts_with_slash ends_with_slash has_double_slash
parse path =
    if path == b'/' ∷ []
    then ok root
    else if not (starts_with_slash path) || ends_with_slash path || has_double_slash path
    then err invalid_shape
    else children root (split b'/' (after_first path))

unfoldable pub is_directory : Node → Bool
is_directory root = true
is_directory (business_space b) = true
is_directory (aggregate_type b t) = true
is_directory (states b t) = true
is_directory (groups b t) = true
is_directory (group b t g) = true
is_directory (events b t) = false
is_directory (state b t a) = false
is_directory (consumer b t g c) = false

unfoldable pub parent_node : Node → Node
parent_node root = root
parent_node (business_space b) = root
parent_node (aggregate_type b t) = business_space b
parent_node (events b t) = aggregate_type b t
parent_node (states b t) = aggregate_type b t
parent_node (groups b t) = aggregate_type b t
parent_node (state b t a) = states b t
parent_node (group b t g) = groups b t
parent_node (consumer b t g c) = group b t g
