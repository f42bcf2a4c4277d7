-- ===== src/Redirect.antt =====
-- es-core/src/redirect.rs: `LeaderRetryPlan`, which decides what node a client tries next. A Rust
-- `usize` is unbounded here.
pub mod Bounds
use eventfs.Prelude.{
  ℕ, ◌+◌, ◌-◌, ◌*◌, Bool, true, false, ◌&&◌, Option, none, some, List, [], ◌∷◌, ◌++◌, map, Text,
  ◌==◌, nat_ord, list_ord, ltb, length, if◌then◌else◌,
}
use eventfs.BTreeMap.{BTreeSet, insert, remove, contains_key}

pub data RetryKind : Type 0 where
  redirect normal : RetryKind

pub record QueueItem : Type 0 where
  pub addr : Text
  pub kind : RetryKind

pub record LeaderRetryPlan : Type 0 where
  pub budget : ℕ
  pub redirect_tail : ℕ
  pub queue : List QueueItem
  pub tried : BTreeSet Text
  pub backoff_target : Option Text

abbrev pub endpoint_item : Text → QueueItem
endpoint_item addr = record { addr = addr; kind = normal }

unfoldable pub new : List Text → LeaderRetryPlan
new endpoints =
    let queue = map endpoint_item endpoints in
    let budget = length queue * 2 + 2 in
    record {
      budget = budget;
      redirect_tail = budget;
      queue = queue;
      tried = [];
      backoff_target = none;
    }

unfoldable pub redirect_to : Text → LeaderRetryPlan → LeaderRetryPlan
redirect_to addr p = record p {
  tried = remove addr p.tried;
  queue = record { addr = addr; kind = redirect } ∷ p.queue;
}

unfoldable pub retry_later : Text → LeaderRetryPlan → LeaderRetryPlan
retry_later target p = record p {
  tried = remove target p.tried;
  backoff_target = some target;
  queue = p.queue ++ record { addr = target; kind = normal } ∷ [];
}

unfoldable pub needs_backoff : Text → LeaderRetryPlan → Bool
needs_backoff target p = elim p.backoff_target [ none ↦ false | some addr ↦ addr == target ]

abbrev pub is_redirect : RetryKind → Bool
is_redirect redirect = true
is_redirect normal = false

-- `self.tried.insert(addr)` adds nothing where the address has been tried.
abbrev pub mark : Text → LeaderRetryPlan → LeaderRetryPlan
mark addr p = if contains_key addr p.tried then p else record p { tried = insert addr tt p.tried }

-- The loop of `next`: one round for each item of the queue.
unfoldable pub next_from : List QueueItem → LeaderRetryPlan → LeaderRetryPlan × Option Text
next_from [] p = (record p { queue = [] }, none)
next_from (item ∷ queue) p =
    let marked : LeaderRetryPlan = record (mark item.addr p) { queue = queue } in
    let continue = next_from queue marked in
    if contains_key item.addr p.tried
    then continue
    else if p.budget == 0
    then if is_redirect item.kind && ltb 0 p.redirect_tail
      then (record marked { redirect_tail = p.redirect_tail - 1 }, some item.addr)
      else continue
    else (record marked { budget = p.budget - 1 }, some item.addr)

unfoldable pub next : LeaderRetryPlan → LeaderRetryPlan × Option Text
next p = next_from p.queue p
