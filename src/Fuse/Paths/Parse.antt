-- ===== src/Fuse/Paths/Parse.antt =====
-- `Node::parse` against the paths that the nodes have.
use mathlib.Core.Path.{subst}
use eventfs.Prelude.{
  ℕ, ◌≡◌, ◌≢◌, ◌↔◌, refl, sym, ap, ◌∙◌, Bool, true, false, not, ◌&&◌, List, [], ◌∷◌, ◌++◌, Text,
  ◌==◌, eq_iff, eq_refl, nat_ord, list_ord, length, length-append, ok, Bool-cases, inl, inr, arith,
}
use eventfs.Identifier.{has_byte, split, push_byte}
use eventfs.Identifier.Laws.{identifier_bytes, split-ne}
use eventfs.Fuse.Paths.{
  events_jsonl, states_name, groups_name, json_extension, jsonl_extension, Node, root,
  business_space, aggregate_type, events, states, groups, state, group, consumer, children,
  starts_with_slash, ends_with_slash, has_double_slash, parse,
}
use eventfs.Fuse.Paths.Walk.{names_identifier, no_slash-identifier, children-segments}
use eventfs.Fuse.Paths.Laws.{segments, slashed, path_of, Accepted, IsNode, children_lem}

slashed-push_byte :
    (c : ℕ) (value : Text) (parts : List Text)
    → slashed parts ≡ b'/' ∷ value
    → slashed (push_byte b'/' c parts) ≡ b'/' ∷ c ∷ value
unfolding push_byte
slashed-push_byte c value [] h = ground arith
slashed-push_byte c value (part ∷ parts) h = ground arith

slashed-split : (value : Text) → slashed (split b'/' value) ≡ b'/' ∷ value
unfolding split
slashed-split [] = refl
slashed-split (c ∷ value) = slashed-push_byte c value (split b'/' value) (slashed-split value)

path_of_lem : (n : Node) → segments n ≢ [] → path_of n ≡ slashed (segments n)
path_of_lem root h = absurd (h refl)
path_of_lem (business_space b) h = refl
path_of_lem (aggregate_type b t) h = refl
path_of_lem (events b t) h = refl
path_of_lem (states b t) h = refl
path_of_lem (groups b t) h = refl
path_of_lem (state b t a) h = refl
path_of_lem (group b t g) h = refl
path_of_lem (consumer b t g c) h = refl

only_paths : (path : Text) (n : Node) → parse path ≡ ok n → IsNode n × (path ≡ path_of n)
unfolding parse starts_with_slash
only_paths [] n h = absurd (ground (arith, h, eq_iff {K = Text} [] (b'/' ∷ [])))
only_paths (c ∷ rest) n h = elim (Bool-cases (c ∷ rest == b'/' ∷ [])) [
  | inl is_root ↦
      let at_root : n ≡ root = ground arith in
      subst (λ z. IsNode z × (c ∷ rest ≡ path_of z)) (sym at_root)
        (tt, ground (arith, eq_iff (c ∷ rest) (b'/' ∷ [])))
  | inr below ↦
      let first : c ≡ b'/' = ground arith in
      let (names, v) = children_lem root n (split b'/' rest) (ground arith) tt in
      let not_empty : segments n ≢ [] = λ none_left. split-ne b'/' rest (sym names ∙ none_left) in
      let printed = path_of_lem n not_empty ∙ ap slashed names ∙ slashed-split rest in
      (v, ap (λ z. z ∷ rest) first ∙ sym printed)
]

-- Every name has a byte, and none has a slash.
are_names : List Text → Bool
are_names [] = true
are_names (name ∷ names) = not (length name == 0) && not (has_byte b'/' name) && are_names names

split-slashed :
    (name : Text) (names : List Text)
    → has_byte b'/' name ≡ false
    → are_names names ≡ true
    → split b'/' (name ++ slashed names) ≡ name ∷ names
unfolding split push_byte are_names
split-slashed [] [] h k = refl
split-slashed [] (next ∷ names) h k = ground (arith, split-slashed next names)
split-slashed (c ∷ name) names h k = ground (arith, split-slashed name names)

ends_with_slash-slashed :
    (c : ℕ) (name : Text) (names : List Text)
    → has_byte b'/' (c ∷ name) ≡ false
    → are_names names ≡ true
    → ends_with_slash (c ∷ (name ++ slashed names)) ≡ false
unfolding ends_with_slash are_names
ends_with_slash-slashed c [] [] h k = ground arith
ends_with_slash-slashed c [] ([] ∷ names) h k = ground arith
ends_with_slash-slashed c [] ((d ∷ next) ∷ names) h k =
    ground (arith, ends_with_slash-slashed d next names)
ends_with_slash-slashed c (d ∷ name) names h k =
    ground (arith, ends_with_slash-slashed d name names)

has_double_slash-slashed :
    (c : ℕ) (name : Text) (names : List Text)
    → has_byte b'/' (c ∷ name) ≡ false
    → are_names names ≡ true
    → has_double_slash (c ∷ (name ++ slashed names)) ≡ false
unfolding has_double_slash are_names
has_double_slash-slashed c [] [] h k = ground arith
has_double_slash-slashed c [] ([] ∷ names) h k = ground arith
has_double_slash-slashed c [] ((d ∷ next) ∷ names) h k =
    ground (arith, has_double_slash-slashed d next names)
has_double_slash-slashed c (d ∷ name) names h k =
    ground (arith, has_double_slash-slashed d name names)

-- A path of names is taken apart into its names.
parse-slashed :
    (name : Text) (names : List Text)
    → are_names (name ∷ names) ≡ true
    → parse (slashed (name ∷ names)) ≡ children root (name ∷ names)
unfolding parse are_names starts_with_slash ends_with_slash has_double_slash
parse-slashed [] names k = absurd (ground arith)
parse-slashed (c ∷ name) names k = ground (
  arith,
  split-slashed (c ∷ name) names,
  ends_with_slash-slashed c name names,
  has_double_slash-slashed c name names,
  eq_iff (b'/' ∷ c ∷ (name ++ slashed names)) (b'/' ∷ []),
)

are_names-identifier :
    (value extension : Text) (names : List Text)
    → Accepted value
    → has_byte b'/' extension ≡ false
    → are_names names ≡ true
    → are_names ((value ++ extension) ∷ names) ≡ true
unfolding are_names
are_names-identifier value extension names h k rest = ground (
  arith,
  names_identifier value extension h k,
  identifier_bytes value h,
  length-append value extension,
)

are_names-fixed :
    (name : Text) (names : List Text)
    → length name ≢ 0
    → has_byte b'/' name ≡ false
    → are_names names ≡ true
    → are_names (name ∷ names) ≡ true
unfolding are_names
are_names-fixed name names h k rest = ground arith

are_names-Accepted :
    (value : Text) (names : List Text)
    → Accepted value
    → are_names names ≡ true
    → are_names (value ∷ names) ≡ true
are_names-Accepted value names h rest =
    are_names-fixed value names (ground (arith, identifier_bytes value h))
      (no_slash-identifier value h) rest

are_names-segments : (n : Node) → IsNode n → are_names (segments n) ≡ true
unfolding are_names
are_names-segments root v = refl
are_names-segments (business_space b) hb = are_names-Accepted b [] hb refl
are_names-segments (aggregate_type b t) (hb, ht) =
    are_names-Accepted b (t ∷ []) hb (are_names-Accepted t [] ht refl)
are_names-segments (events b t) (hb, ht) =
    are_names-Accepted b (t ∷ events_jsonl ∷ []) hb
      (are_names-Accepted t (events_jsonl ∷ []) ht refl)
are_names-segments (states b t) (hb, ht) =
    are_names-Accepted b (t ∷ states_name ∷ []) hb (are_names-Accepted t (states_name ∷ []) ht refl)
are_names-segments (groups b t) (hb, ht) =
    are_names-Accepted b (t ∷ groups_name ∷ []) hb (are_names-Accepted t (groups_name ∷ []) ht refl)
are_names-segments (state b t a) (hb, ht, ha) =
    let file = are_names-identifier a json_extension [] ha refl refl in
    are_names-Accepted b (t ∷ states_name ∷ (a ++ json_extension) ∷ []) hb (
      are_names-Accepted t (states_name ∷ (a ++ json_extension) ∷ []) ht
        (are_names-fixed states_name ((a ++ json_extension) ∷ []) (ground arith) refl file))
are_names-segments (group b t g) (hb, ht, hg) = are_names-Accepted b (t ∷ groups_name ∷ g ∷ []) hb (
    are_names-Accepted t (groups_name ∷ g ∷ []) ht
      (are_names-fixed groups_name (g ∷ []) (ground arith) refl (are_names-Accepted g [] hg refl)))
are_names-segments (consumer b t g c) (hb, ht, hg, hc) =
    let file = are_names-identifier c jsonl_extension [] hc refl refl in
    are_names-Accepted b (t ∷ groups_name ∷ g ∷ (c ++ jsonl_extension) ∷ []) hb (
      are_names-Accepted t (groups_name ∷ g ∷ (c ++ jsonl_extension) ∷ []) ht (
        are_names-fixed groups_name (g ∷ (c ++ jsonl_extension) ∷ []) (ground arith) refl
          (are_names-Accepted g ((c ++ jsonl_extension) ∷ []) hg file)))

-- What the names of a node are taken apart to.
parses :
    (n : Node) (names : List Text)
    → segments n ≡ names
    → names ≢ []
    → IsNode n
    → parse (slashed (segments n)) ≡ ok n
parses n [] e h v = absurd (h refl)
parses n (name ∷ names) e h v =
    ap (λ z. parse (slashed z)) e
    ∙ parse-slashed name names (ap are_names (sym e) ∙ are_names-segments n v)
    ∙ ap (children root) (sym e)
    ∙ children-segments n v

all_paths : (n : Node) → IsNode n → parse (path_of n) ≡ ok n
unfolding parse
all_paths root v = ground (arith, eq_refl {K = Text} (b'/' ∷ []))
all_paths (business_space b) v =
    parses (business_space b) (segments (business_space b)) refl (λ e. ground arith) v
all_paths (aggregate_type b t) v =
    parses (aggregate_type b t) (segments (aggregate_type b t)) refl (λ e. ground arith) v
all_paths (events b t) v = parses (events b t) (segments (events b t)) refl (λ e. ground arith) v
all_paths (states b t) v = parses (states b t) (segments (states b t)) refl (λ e. ground arith) v
all_paths (groups b t) v = parses (groups b t) (segments (groups b t)) refl (λ e. ground arith) v
all_paths (state b t a) v = parses (state b t a) (segments (state b t a)) refl (λ e. ground arith) v
all_paths (group b t g) v = parses (group b t g) (segments (group b t g)) refl (λ e. ground arith) v
all_paths (consumer b t g c) v =
    parses (consumer b t g c) (segments (consumer b t g c)) refl (λ e. ground arith) v

-- A path is parsed to a node exactly when the identifiers of the node are accepted and the path
-- is the one that prints the node's names from the root.
pub parse-path_of : (path : Text) (n : Node) → parse path ≡ ok n ↔ (IsNode n × (path ≡ path_of n))
parse-path_of path n = (only_paths path n, λ (v, printed). ap parse printed ∙ all_paths n v)
