-- ===== src/Hlc.antt =====
-- es-core/src/hlc.rs: the hybrid logical clock.
use eventfs.Prelude.{
  ℕ, ◌+◌, ◌%◌, ◌^◌, ◌≤◌, ◌<◌, ◌≡◌, ◌⊎◌, ◌↔◌, Bool, true, ◌||◌, ◌&&◌, Option, none, some, ◌==◌,
  nat_ord, ltb, List, [], ◌∷◌, arith, if◌then◌else◌,
}
use eventfs.Prelude.Words.{u32_max}

pub record Hlc : Type 0 where
  pub wall : ℕ
  pub logical : ℕ

-- `logical.wrapping_add(1)` is on 32 bits.
unfoldable pub next : Option Hlc → ℕ → Hlc
next none now_ms = record { wall = now_ms; logical = 0 }
next (some p) now_ms =
    if ltb p.wall now_ms
    then record { wall = now_ms; logical = 0 }
    else record { wall = p.wall; logical = (p.logical + 1) % 2 ^ 32 }

-- The derived order: by `wall`, then by `logical`.
unfoldable pub before : Hlc → Hlc → Bool
before a b = ltb a.wall b.wall || (a.wall == b.wall && ltb a.logical b.logical)

-- If the logical counter is a `u32`, the next clock value is later than the previous one exactly where
-- the physical clock is ahead of it or the counter is below its maximum.
pub before-next :
    (p : Hlc) (now_ms : ℕ)
    → p.logical ≤ u32_max
    → (before p (next (some p) now_ms) ≡ true) ↔ ((p.wall < now_ms) ⊎ (p.logical < u32_max))
unfolding before next
before-next p now_ms h = (λ e. ground arith, λ e. ground arith)

-- The clock of a sequence of readings, each after the one before.
unfoldable pub clocks : Option Hlc → List ℕ → List Hlc
unfolding next
clocks prev [] = []
clocks prev (now_ms ∷ rest) = let h = next prev now_ms in h ∷ clocks (some h) rest

abbrev pub Ascending : Hlc → List Hlc → Type 0
Ascending h [] = Unit
Ascending h (g ∷ gs) = (before h g ≡ true) × Ascending g gs

abbrev pub length : List ℕ → ℕ
length [] = 0
length (x ∷ xs) = 1 + length xs

-- Whatever the readings are, the clock values ascend, if there are no more readings than the logical
-- counter can still count.
pub clocks-Ascending :
    (p : Hlc) (readings : List ℕ)
    → p.logical + length readings ≤ u32_max
    → Ascending p (clocks (some p) readings)
unfolding clocks before
clocks-Ascending p [] h = tt
clocks-Ascending p (now_ms ∷ rest) h =
    (ground arith, clocks-Ascending (next (some p) now_ms) rest (unfold next in ground arith))
