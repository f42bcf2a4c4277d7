-- ===== src/Fuse/Paths/Laws.antt =====
-- Which paths are parsed.
use mathlib.Core.Path.{subst}
use mathlib.Core.List.{append_assoc, append-nil}
use eventfs.Prelude.{
  ℕ, ◌≡◌, refl, sym, ap, ◌∙◌, some, List, [], ◌∷◌, ◌++◌, Text, ◌==◌, eq_iff, eq_refl, nat_ord,
  list_ord, length, length-append, Result-cases, Result-value, ok, ◌>>=◌, Bool-cases, Option-cases,
  inl, inr, arith,
}
use eventfs.Identifier.{validate_aggregate_identifier}
use eventfs.Identifier.Laws.{identifier_bytes}
use eventfs.Fuse.Paths.{
  events_jsonl, states_name, groups_name, json_extension, jsonl_extension, Node, root,
  business_space, aggregate_type, events, states, groups, state, group, consumer, strip_suffix,
  strip_extension, identifier, child_of, child, children,
}

-- The names from the root down to a node.
abbrev pub segments : Node → List Text
segments root = []
segments (business_space b) = b ∷ []
segments (aggregate_type b t) = b ∷ t ∷ []
segments (events b t) = b ∷ t ∷ events_jsonl ∷ []
segments (states b t) = b ∷ t ∷ states_name ∷ []
segments (groups b t) = b ∷ t ∷ groups_name ∷ []
segments (state b t a) = b ∷ t ∷ states_name ∷ (a ++ json_extension) ∷ []
segments (group b t g) = b ∷ t ∷ groups_name ∷ g ∷ []
segments (consumer b t g c) = b ∷ t ∷ groups_name ∷ g ∷ (c ++ jsonl_extension) ∷ []

-- Every name behind a slash.
abbrev pub slashed : List Text → Text
slashed [] = []
slashed (segment ∷ rest) = b'/' ∷ (segment ++ slashed rest)

abbrev pub path_of : Node → Text
path_of root = b'/' ∷ []
path_of node = slashed (segments node)

abbrev pub Accepted : Text → Type 0
Accepted value = validate_aggregate_identifier value ≡ ok tt

-- The identifiers of a node are accepted.
abbrev pub IsNode : Node → Type 0
IsNode root = Unit
IsNode (business_space b) = Accepted b
IsNode (aggregate_type b t) = Accepted b × Accepted t
IsNode (events b t) = Accepted b × Accepted t
IsNode (states b t) = Accepted b × Accepted t
IsNode (groups b t) = Accepted b × Accepted t
IsNode (state b t a) = Accepted b × Accepted t × Accepted a
IsNode (group b t g) = Accepted b × Accepted t × Accepted g
IsNode (consumer b t g c) = Accepted b × Accepted t × Accepted g × Accepted c

strip_suffix-append : (a e : Text) → strip_suffix e (a ++ e) ≡ some a
unfolding strip_suffix
strip_suffix-append [] [] = refl
strip_suffix-append [] (c ∷ e) = ground (arith, eq_refl (c ∷ e))
strip_suffix-append (c ∷ a) e = ground (
  arith,
  strip_suffix-append a e,
  eq_iff (c ∷ (a ++ e)) e,
  ap (length {A = ℕ}),
  length-append a e,
)

strip_suffix_lem : (e name stem : Text) → strip_suffix e name ≡ some stem → name ≡ stem ++ e
unfolding strip_suffix
strip_suffix_lem [] [] stem h = ground arith
strip_suffix_lem (c ∷ e) [] stem h = ground arith
strip_suffix_lem e (c ∷ name) stem h = elim (Option-cases (strip_suffix e name)) [
  | inl gone ↦ ground (arith, eq_iff (c ∷ name) e)
  | inr (s, kept) ↦ ground (arith, eq_iff (c ∷ name) e, strip_suffix_lem e name s kept)
]

strip_extension_lem : (e name stem : Text) → strip_extension name e ≡ ok stem → name ≡ stem ++ e
unfolding strip_extension
strip_extension_lem e name stem h = elim (Option-cases (strip_suffix e name)) [
  | inl gone ↦ ground arith
  | inr (s, kept) ↦ ground (arith, strip_suffix_lem e name s kept)
]

pub strip_extension-append :
    (e stem : Text) → Accepted stem → strip_extension (stem ++ e) e ≡ ok stem
unfolding strip_extension
strip_extension-append e stem h =
    ground (arith, strip_suffix-append stem e, identifier_bytes stem h)

identifier_lem : (value : Text) → identifier value ≡ ok tt → Accepted value
unfolding identifier
identifier_lem value h = elim (Result-cases (validate_aggregate_identifier value)) [
  | inl (e, refused) ↦ ground arith
  | inr accepted ↦ accepted
]

arrive :
    (n : Node) (name : Text) (x m : Node)
    → m ≡ x
    → segments x ≡ segments n ++ name ∷ []
    → IsNode x
    → (segments m ≡ segments n ++ name ∷ []) × IsNode m
arrive n name x m e named v =
    subst (λ z. (segments z ≡ segments n ++ name ∷ []) × IsNode z) (sym e) (named, v)

-- A child whose name is an identifier.
identified :
    (n : Node) (name stem : Text) (m : Node) (make : Text → Node)
    → (identifier stem >>= λ u. ok (make stem)) ≡ ok m
    → (Accepted stem → IsNode (make stem))
    → segments (make stem) ≡ segments n ++ name ∷ []
    → (segments m ≡ segments n ++ name ∷ []) × IsNode m
identified n name stem m make h v named = elim (Result-cases (identifier stem)) [
  | inl (e, refused) ↦ absurd (ground (arith, h, refused))
  | inr accepted ↦
      arrive n name (make stem) m (ground (arith, h, accepted)) named
        (v (identifier_lem stem accepted))
]

-- A child whose name is an identifier with an extension.
extended :
    (n : Node) (name extension : Text) (m : Node) (make : Text → Node)
    → (strip_extension name extension >>= λ stem. identifier stem >>= λ u. ok (make stem)) ≡ ok m
    → ((stem : Text) → Accepted stem → IsNode (make stem))
    → ((stem : Text) → segments (make stem) ≡ segments n ++ (stem ++ extension) ∷ [])
    → (segments m ≡ segments n ++ name ∷ []) × IsNode m
extended n name extension m make h v named = elim (Result-value (strip_extension name extension)) [
  | inl (e, refused) ↦ absurd (ground (arith, h, refused))
  | inr (stem, stripped) ↦ identified n name stem m make (ground (arith, h, stripped)) (v stem) (
      named stem
      ∙ ap (λ z. segments n ++ z ∷ []) (sym (strip_extension_lem extension name stem stripped)))
]

-- A child has its parent's names and its own, and accepted identifiers.
child_of_lem :
    (n m : Node) (name : Text)
    → child_of n name ≡ ok m
    → IsNode n
    → (segments m ≡ segments n ++ name ∷ []) × IsNode m
unfolding child_of
child_of_lem root m name h v = identified root name name m business_space h (λ a. a) refl
child_of_lem (business_space b) m name h v =
    identified (business_space b) name name m (aggregate_type b) h (λ a. (v, a)) refl
child_of_lem (aggregate_type b t) m name h v = elim (Bool-cases (name == events_jsonl)) [
  | inl is_events ↦
      arrive (aggregate_type b t) name (events b t) m (ground arith)
        (ground (arith, eq_iff name events_jsonl)) v
  | inr not_events ↦ elim (Bool-cases (name == states_name)) [
    | inl is_states ↦
        arrive (aggregate_type b t) name (states b t) m (ground arith)
          (ground (arith, eq_iff name states_name)) v
    | inr not_states ↦ elim (Bool-cases (name == groups_name)) [
      | inl is_groups ↦
          arrive (aggregate_type b t) name (groups b t) m (ground arith)
            (ground (arith, eq_iff name groups_name)) v
      | inr not_groups ↦ absurd (ground arith)
    ]
  ]
]
child_of_lem (states b t) m name h v =
    extended (states b t) name json_extension m (state b t) h (λ stem a. (v.0, v.1, a))
      (λ stem. refl)
child_of_lem (groups b t) m name h v =
    identified (groups b t) name name m (group b t) h (λ a. (v.0, v.1, a)) refl
child_of_lem (group b t g) m name h v =
    extended (group b t g) name jsonl_extension m (consumer b t g) h (λ stem a. (v.0, v.1, v.2, a))
      (λ stem. refl)
child_of_lem (events b t) m name h v = absurd (ground arith)
child_of_lem (state b t a) m name h v = absurd (ground arith)
child_of_lem (consumer b t g c) m name h v = absurd (ground arith)

child_lem :
    (n m : Node) (name : Text)
    → child n name ≡ ok m
    → IsNode n
    → (segments m ≡ segments n ++ name ∷ []) × IsNode m
unfolding child
child_lem n m name h v = child_of_lem n m name (ground arith) v

pub children_lem :
    (n m : Node) (names : List Text)
    → children n names ≡ ok m
    → IsNode n
    → (segments m ≡ segments n ++ names) × IsNode m
unfolding children
children_lem n m [] h v = arrive_here n m (ground arith) v
  where
    arrive_here : (n m : Node) → m ≡ n → IsNode n → (segments m ≡ segments n ++ []) × IsNode m
    arrive_here n m e v = (ap segments e ∙ sym (append-nil (segments n)), subst IsNode (sym e) v)
children_lem n m (name ∷ names) h v = elim (Result-value (child n name)) [
  | inl (e, refused) ↦ absurd (ground arith)
  | inr (next, found) ↦
      let (here, w) = child_lem n next name found v in
      let (below, w') = children_lem next m names (ground arith) w in
      (below ∙ ap (λ z. z ++ names) here ∙ append_assoc (segments n) (name ∷ []) names, w')
]
