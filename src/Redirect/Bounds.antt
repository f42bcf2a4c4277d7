-- ===== src/Redirect/Bounds.antt =====
-- Sessions of a client with a `LeaderRetryPlan` (es-core/src/redirect.rs).
use eventfs.Prelude.{
  ℕ, ◌+◌, ◌*◌, ◌≤◌, ◌<◌, ◌≡◌, Option, none, some, List, [], ◌∷◌, Text, nat_ord, list_ord, length,
  length-map, eq_refl, arith,
}
use eventfs.BTreeMap.Laws.{get-remove}
use eventfs.Redirect.{
  LeaderRetryPlan, QueueItem, endpoint_item, new, redirect_to, retry_later, mark, next_from, next,
}

-- The attempts that are left at most.
abbrev pub attempts_left : LeaderRetryPlan → ℕ
attempts_left p = p.budget + p.redirect_tail

abbrev pub taken : Option Text → ℕ
taken none = 0
taken (some addr) = 1

attempts_left-next_from :
    (queue : List QueueItem) (p : LeaderRetryPlan)
    → attempts_left (next_from queue p).0 + taken (next_from queue p).1 ≡ attempts_left p
unfolding next_from
attempts_left-next_from [] p = omega arith
attempts_left-next_from (item ∷ queue) p =
    ground (arith, attempts_left-next_from queue (record (mark item.addr p) { queue = queue }))

-- What a client tells a plan: that a node named a leader, that a node knows none, or that it wants
-- the next target.
pub data RetryEvent : Type 0 where
  redirected : Text → RetryEvent
  postponed : Text → RetryEvent
  asked : RetryEvent

-- The targets that the plan gives out over the events.
unfoldable pub targets : LeaderRetryPlan → List RetryEvent → ℕ
targets p [] = 0
targets p (redirected addr ∷ es) = targets (redirect_to addr p) es
targets p (postponed addr ∷ es) = targets (retry_later addr p) es
targets p (asked ∷ es) = let (p', addr) = next p in taken addr + targets p' es

targets-bounded : (p : LeaderRetryPlan) (es : List RetryEvent) → targets p es ≤ attempts_left p
unfolding targets redirect_to retry_later next
targets-bounded p [] = omega arith
targets-bounded p (redirected addr ∷ es) = targets-bounded (redirect_to addr p) es
targets-bounded p (postponed addr ∷ es) = targets-bounded (retry_later addr p) es
targets-bounded p (asked ∷ es) =
    omega (arith, targets-bounded (next p).0 es, attempts_left-next_from p.queue p)

-- Whatever redirects, postponements and requests a client makes in whatever order, a new plan for `n`
-- endpoints gives out at most `4 n + 4` targets.
pub targets-new :
    (endpoints : List Text) (es : List RetryEvent)
    → targets (new endpoints) es ≤ 4 * length endpoints + 4
unfolding new
targets-new endpoints es =
    omega (arith, targets-bounded (new endpoints) es, length-map endpoint_item endpoints)

-- As long as attempts are left, the target after a redirect is the leader that it names, even one that
-- was tried before or that comes when the ordinary budget is spent.
pub next-redirect_to :
    (addr : Text) (p : LeaderRetryPlan)
    → 0 < attempts_left p
    → (next (redirect_to addr p)).1 ≡ some addr
unfolding next redirect_to next_from
next-redirect_to addr p h = ground (arith, get-remove addr addr p.tried, eq_refl addr)
