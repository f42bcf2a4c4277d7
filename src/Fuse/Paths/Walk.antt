-- ===== src/Fuse/Paths/Walk.antt =====
-- The walk from the root to a node by `Node::child`.
use eventfs.Prelude.Ordered
use eventfs.Prelude.{
  ℕ, suc, ◌+◌, ◌≤◌, ◌≡◌, ◌≢◌, ◌↔◌, refl, sym, ap, ◌∙◌, Bool, true, false, not, ◌&&◌, ◌||◌, List, [],
  ◌∷◌, ◌++◌, Text, ◌==◌, eq_iff, eq_refl, nat_ord, list_ord, length, length-append, if◌then◌else◌,
  Result, ok, err, ◌>>=◌, ◌>>◌, Bool-cases, inl, inr, arith,
}
use eventfs.Identifier.{
  validate_aggregate_identifier, bad_first_byte, is_ascii_alphanumeric, has_byte,
}
use eventfs.Identifier.Laws.{identifier_bytes, no_slash}
use eventfs.Fuse.Paths.{
  events_jsonl, states_name, groups_name, json_extension, jsonl_extension, Node, root,
  business_space, aggregate_type, events, states, groups, state, group, consumer, identifier,
  strip_extension, is_bad_name, child_of, child, children, dot, dot_dot,
}
use eventfs.Fuse.Paths.Laws.{segments, Accepted, IsNode, strip_extension-append}

is_name :
    (name : Text)
    → bad_first_byte name ≡ false
    → has_byte b'/' name ≡ false
    → is_bad_name name ≡ false
unfolding bad_first_byte is_ascii_alphanumeric
is_name [] h k = ground arith
is_name (c ∷ name) h k = ground (arith, eq_iff (c ∷ name) dot, eq_iff (c ∷ name) dot_dot)

bad_first_byte-identifier : (value : Text) → Accepted value → bad_first_byte value ≡ false
unfolding validate_aggregate_identifier
bad_first_byte-identifier value h = ground arith

has_byte-append :
    (c : ℕ) (a b : Text) → has_byte c a ≡ false → has_byte c b ≡ false → has_byte c (a ++ b) ≡ false
has_byte-append c [] b h k = k
has_byte-append c (x ∷ a) b h k = ground (arith, has_byte-append c a b)

pub no_slash-identifier : (value : Text) → Accepted value → has_byte b'/' value ≡ false
no_slash-identifier value h = no_slash value (identifier_bytes value h).2

-- An accepted identifier, with or without an extension, is a name.
pub names_identifier :
    (value extension : Text)
    → Accepted value
    → has_byte b'/' extension ≡ false
    → (is_bad_name (value ++ extension) ≡ false) × (has_byte b'/' (value ++ extension) ≡ false)
unfolding bad_first_byte
names_identifier value extension h k =
    let whole = has_byte-append b'/' value extension (no_slash-identifier value h) k in
    (is_name (value ++ extension) (begins value (bad_first_byte-identifier value h)) whole, whole)
  where
    begins : (v : Text) → bad_first_byte v ≡ false → bad_first_byte (v ++ extension) ≡ false
    begins [] e = absurd (ground arith)
    begins (c ∷ v) e = e

identifier-Accepted : (value : Text) → Accepted value → identifier value ≡ ok tt
unfolding identifier
identifier-Accepted value h = ground arith

-- An accepted identifier is a child as it stands, and with an extension that has no slash.
child-identifier :
    (n : Node) (value : Text) (make : Text → Node)
    → Accepted value
    → child_of n value ≡ (identifier value >>= λ u. ok (make value))
    → child n value ≡ ok (make value)
unfolding child
child-identifier n value make h e =
    let good = is_name value (bad_first_byte-identifier value h) (no_slash-identifier value h) in
    ground (arith, good, e, identifier-Accepted value h)

child-extension :
    (n : Node) (value extension : Text) (make : Text → Node)
    → Accepted value
    → has_byte b'/' extension ≡ false
    → child_of n (value ++ extension) ≡ (
        strip_extension (value ++ extension) extension >>= λ stem.
        identifier stem >>= λ u. ok (make stem))
    → child n (value ++ extension) ≡ ok (make value)
unfolding child
child-extension n value extension make h k e = ground (
  arith,
  (names_identifier value extension h k).0,
  e,
  strip_extension-append extension value h,
  identifier-Accepted value h,
)

child-business_space : (b : Text) → Accepted b → child root b ≡ ok (business_space b)
unfolding child_of
child-business_space b h = child-identifier root b business_space h refl

child-aggregate_type :
    (b t : Text) → Accepted t → child (business_space b) t ≡ ok (aggregate_type b t)
unfolding child_of
child-aggregate_type b t h = child-identifier (business_space b) t (aggregate_type b) h refl

child-events : (b t : Text) → child (aggregate_type b t) events_jsonl ≡ ok (events b t)
unfolding child child_of eventfs.Prelude.Ordered.list_cmp
child-events b t = refl

child-states : (b t : Text) → child (aggregate_type b t) states_name ≡ ok (states b t)
unfolding child child_of eventfs.Prelude.Ordered.list_cmp
child-states b t = refl

child-groups : (b t : Text) → child (aggregate_type b t) groups_name ≡ ok (groups b t)
unfolding child child_of eventfs.Prelude.Ordered.list_cmp
child-groups b t = refl

child-state :
    (b t a : Text) → Accepted a → child (states b t) (a ++ json_extension) ≡ ok (state b t a)
unfolding child_of
child-state b t a h = child-extension (states b t) a json_extension (state b t) h refl refl

child-group : (b t g : Text) → Accepted g → child (groups b t) g ≡ ok (group b t g)
unfolding child_of
child-group b t g h = child-identifier (groups b t) g (group b t) h refl

child-consumer :
    (b t g c : Text)
    → Accepted c
    → child (group b t g) (c ++ jsonl_extension) ≡ ok (consumer b t g c)
unfolding child_of
child-consumer b t g c h =
    child-extension (group b t g) c jsonl_extension (consumer b t g) h refl refl

step :
    (n m : Node) (name : Text) (names : List Text)
    → child n name ≡ ok m
    → children n (name ∷ names) ≡ children m names
unfolding children
step n m name names h = ground arith

nothing_left : (n : Node) → children n [] ≡ ok n
unfolding children
nothing_left n = refl

-- The walk from the root to an aggregate type.
at_type :
    (b t : Text) (names : List Text)
    → Accepted b
    → Accepted t
    → children root (b ∷ t ∷ names) ≡ children (aggregate_type b t) names
at_type b t names hb ht =
    step root (business_space b) b (t ∷ names) (child-business_space b hb)
    ∙ step (business_space b) (aggregate_type b t) t names (child-aggregate_type b t ht)

at_group :
    (b t g : Text) (names : List Text)
    → Accepted b
    → Accepted t
    → Accepted g
    → children root (b ∷ t ∷ groups_name ∷ g ∷ names) ≡ children (group b t g) names
at_group b t g names hb ht hg =
    at_type b t (groups_name ∷ g ∷ names) hb ht
    ∙ step (aggregate_type b t) (groups b t) groups_name (g ∷ names) (child-groups b t)
    ∙ step (groups b t) (group b t g) g names (child-group b t g hg)

pub children-segments : (n : Node) → IsNode n → children root (segments n) ≡ ok n
children-segments root v = nothing_left root
children-segments (business_space b) v =
    step root (business_space b) b [] (child-business_space b v) ∙ nothing_left (business_space b)
children-segments (aggregate_type b t) (hb, ht) =
    at_type b t [] hb ht ∙ nothing_left (aggregate_type b t)
children-segments (events b t) (hb, ht) =
    at_type b t (events_jsonl ∷ []) hb ht
    ∙ step (aggregate_type b t) (events b t) events_jsonl [] (child-events b t)
    ∙ nothing_left (events b t)
children-segments (states b t) (hb, ht) =
    at_type b t (states_name ∷ []) hb ht
    ∙ step (aggregate_type b t) (states b t) states_name [] (child-states b t)
    ∙ nothing_left (states b t)
children-segments (groups b t) (hb, ht) =
    at_type b t (groups_name ∷ []) hb ht
    ∙ step (aggregate_type b t) (groups b t) groups_name [] (child-groups b t)
    ∙ nothing_left (groups b t)
children-segments (state b t a) (hb, ht, ha) =
    at_type b t (states_name ∷ (a ++ json_extension) ∷ []) hb ht
    ∙ step (aggregate_type b t) (states b t) states_name ((a ++ json_extension) ∷ [])
        (child-states b t)
    ∙ step (states b t) (state b t a) (a ++ json_extension) [] (child-state b t a ha)
    ∙ nothing_left (state b t a)
children-segments (group b t g) (hb, ht, hg) =
    at_group b t g [] hb ht hg ∙ nothing_left (group b t g)
children-segments (consumer b t g c) (hb, ht, hg, hc) =
    at_group b t g ((c ++ jsonl_extension) ∷ []) hb ht hg
    ∙ step (group b t g) (consumer b t g c) (c ++ jsonl_extension) [] (child-consumer b t g c hc)
    ∙ nothing_left (consumer b t g c)
