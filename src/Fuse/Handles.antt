-- ===== src/Fuse/Handles.antt =====
-- eventfs-fuse/src/handle.rs: the buffers of an open file.
pub mod Commits
pub mod Streams
use eventfs.Prelude.Words.{u64_max, sat_add64}
use eventfs.Prelude.{
  ℕ, zero, suc, ◌+◌, ◌%◌, ◌^◌, min, Bool, true, false, not, ◌&&◌, ◌||◌, Option, none, some, List,
  [], ◌∷◌, ◌++◌, Text, ◌==◌, nat_ord, is_some, ltb, leb, length, take, if◌then◌else◌, Result, ok,
  err,
}

pub data WriteError : Type 0 where
  invalid_offset too_large busy : WriteError

pub data CommitState {ℓ} (T : Type ℓ) : Type ℓ where
  opened : CommitState T
  committing : T → CommitState T
  committed : CommitState T

pub record BufferedWrite {ℓ} (T : Type ℓ) : Type ℓ where
  pub bytes : Text
  pub max_bytes : ℕ
  pub prepared : Option T
  pub commit_state : CommitState T

pub data BeginError {ℓ} (E : Type ℓ) : Type ℓ where
  write_error : WriteError → BeginError E
  prepare_error : E → BeginError E

module _ {ℓ} {T : Type ℓ} where
  abbrev pub new : ℕ → BufferedWrite T
  new max = record { bytes = []; max_bytes = max; prepared = none; commit_state = opened }

  -- `matches!(self.state, CommitState::Open)`, `…::Committing(_)`, `…::Committed`
  abbrev pub is_opened : CommitState T → Bool
  is_opened opened = true
  is_opened (committing r) = false
  is_opened committed = false

  abbrev pub is_committing : CommitState T → Bool
  is_committing opened = false
  is_committing (committing r) = true
  is_committing committed = false

  abbrev pub is_committed : BufferedWrite T → Bool
  is_committed h = elim h.commit_state [ opened ↦ false | committing r ↦ false | committed ↦ true ]

  unfoldable pub write : BufferedWrite T → ℕ → Text → BufferedWrite T × Result WriteError ℕ
  write h offset bytes =
      if not (is_opened h.commit_state) || is_some h.prepared
      then (h, err busy)
      else if not (offset == length h.bytes)
      then (h, err invalid_offset)
      else if ltb h.max_bytes (sat_add64 (length h.bytes) (length bytes))
      then (h, err too_large)
      else (record h { bytes = h.bytes ++ bytes }, ok (length bytes % 2 ^ 32))

  unfoldable pub finish : BufferedWrite T → Bool → BufferedWrite T
  finish h success =
      if is_committing h.commit_state
      then record h { commit_state = if success then committed else opened }
      else h

module _ {ℓ κ} {T : Type ℓ} {E : Type κ} where
  -- The request that stands ready: the one prepared before, or a new one from the bytes.
  abbrev pub prepared_or : Option T → (Text → Result E T) → Text → Result E T
  prepared_or (some request) prepare bytes = ok request
  prepared_or none prepare bytes = prepare bytes

  unfoldable pub begin :
      BufferedWrite T → (Text → Result E T) → BufferedWrite T × Result (BeginError E) (Option T)
  begin h prepare = elim h.commit_state [
    | committed ↦ (h, ok none)
    | committing r ↦ (h, err (write_error busy))
    | opened ↦ elim (prepared_or h.prepared prepare h.bytes) [
      | err e ↦ (h, err (prepare_error e))
      | ok request ↦ (
        record h { prepared = some request; commit_state = committing request },
        ok (some request),
      )
    ]
  ]

pub record StreamBuffer : Type 0 where
  pub bytes : Text
  pub consumed : ℕ
  pub closed : Bool

abbrev pub empty_stream : StreamBuffer
empty_stream = record { bytes = []; consumed = 0; closed = false }

unfoldable pub push : StreamBuffer → Text → StreamBuffer
push s frame = if not s.closed then record s { bytes = s.bytes ++ frame } else s

-- `drain(..count)`: what it leaves.
abbrev pub drop : ℕ → Text → Text
drop zero bytes = bytes
drop (suc n) [] = []
drop (suc n) (c ∷ bytes) = drop n bytes

unfoldable pub read : StreamBuffer → ℕ → ℕ → StreamBuffer × Result WriteError (Option Text)
read s offset size =
    if not (offset == s.consumed)
    then (s, err invalid_offset)
    else if length s.bytes == 0
    then (s, ok (if s.closed then some [] else none))
    else let count = min (length s.bytes) size in
      let taken = take count s.bytes in
      (
        record s { bytes = drop count s.bytes; consumed = sat_add64 s.consumed (length taken) },
        ok (some taken),
      )

abbrev pub close : StreamBuffer → StreamBuffer
close s = record s { closed = true }

abbrev pub ready : StreamBuffer → Bool
ready s = not (length s.bytes == 0) || s.closed
