-- ===== src/Bytes/Laws.antt =====
-- The order and the reading of the bytes of words, and strings behind their lengths.
use Prim.Native.Nat.{compare}
use mathlib.Core.List.{append_assoc}
use native.Mathlib.Nat.{pow-suc}
use eventfs.Prelude.{
  ℕ, zero, suc, ◌+◌, ◌*◌, ◌/◌, ◌%◌, ◌^◌, ◌<◌, ◌≡◌, refl, List, [], ◌∷◌, ◌++◌, length, length-append,
  nat_ord, arith, sym, ◌∙◌,
}
use eventfs.Prelude.Ordered.{list_cmp, then_by}
use eventfs.Bytes.{Bytes, to_be_bytes, from_be_bytes, to_le_bytes, from_le_bytes, len_prefixed}

pub length-to_be_bytes : (width v : ℕ) → length (to_be_bytes width v) ≡ width
unfolding to_be_bytes
length-to_be_bytes zero v = refl
length-to_be_bytes (suc width) v = omega (
  arith,
  length-to_be_bytes width (v / 256),
  length-append (to_be_bytes width (v / 256)) ((v % 256) ∷ []),
)

-- Equal lists that start with parts of one length have equal parts.
pub append_cancel {ℓ} :
    {A : Type ℓ} (a b c d : List A) → length a ≡ length b → a ++ c ≡ b ++ d → (a ≡ b) × (c ≡ d)
append_cancel [] [] c d l e = (refl, e)
append_cancel [] (y ∷ b) c d l e = absurd (omega arith)
append_cancel (x ∷ a) [] c d l e = absurd (omega arith)
append_cancel (x ∷ a) (y ∷ b) c d l e = ground (arith, append_cancel a b c d)

pub same_width : (width v w : ℕ) → length (to_be_bytes width v) ≡ length (to_be_bytes width w)
same_width width v w = length-to_be_bytes width v ∙ sym (length-to_be_bytes width w)

-- Words of one width with the same bytes are the same word.
pub to_be_bytes_injective :
    (width v w : ℕ)
    → v < 256 ^ width
    → w < 256 ^ width
    → to_be_bytes width v ≡ to_be_bytes width w
    → v ≡ w
unfolding to_be_bytes
to_be_bytes_injective zero v w hv hw e = omega arith
to_be_bytes_injective (suc width) v w hv hw e =
    let (high, low) =
      append_cancel (to_be_bytes width (v / 256)) (to_be_bytes width (w / 256)) ((v % 256) ∷ [])
        ((w % 256) ∷ []) (same_width width (v / 256) (w / 256)) e in
    let same : v / 256 ≡ w / 256 =
      to_be_bytes_injective width (v / 256) (w / 256) (omega (arith, pow-suc 256 width))
        (omega (arith, pow-suc 256 width)) high in
    ground (arith, same, low)

pub list_cmp-append :
    (a b c d : List ℕ)
    → length a ≡ length b
    → list_cmp (a ++ c) (b ++ d) ≡ then_by (list_cmp a b) (list_cmp c d)
unfolding list_cmp
list_cmp-append [] [] c d l = refl
list_cmp-append [] (y ∷ b) c d l = absurd (omega arith)
list_cmp-append (x ∷ a) [] c d l = absurd (omega arith)
list_cmp-append (x ∷ a) (y ∷ b) c d l = ground (arith, list_cmp-append a b c d)

compare_digits :
    (v w : ℕ) → compare v w ≡ then_by (compare (v / 256) (w / 256)) (compare (v % 256) (w % 256))
compare_digits v w = ground arith

-- The order of the big-endian bytes of two words is the order of the words.
pub list_cmp-to_be_bytes :
    (width v w : ℕ)
    → v < 256 ^ width
    → w < 256 ^ width
    → list_cmp (to_be_bytes width v) (to_be_bytes width w) ≡ compare v w
unfolding to_be_bytes list_cmp
list_cmp-to_be_bytes zero v w hv hw = ground arith
list_cmp-to_be_bytes (suc width) v w hv hw = ground (
  arith,
  list_cmp-append (to_be_bytes width (v / 256)) (to_be_bytes width (w / 256)) ((v % 256) ∷ [])
      ((w % 256) ∷ []),
  same_width width (v / 256) (w / 256),
  list_cmp-to_be_bytes width (v / 256) (w / 256) (omega (arith, pow-suc 256 width))
      (omega (arith, pow-suc 256 width)),
  compare_digits v w,
)

from_be_bytes-append :
    (acc : ℕ) (a b : Bytes) → from_be_bytes acc (a ++ b) ≡ from_be_bytes (from_be_bytes acc a) b
unfolding from_be_bytes
from_be_bytes-append acc [] b = refl
from_be_bytes-append acc (x ∷ a) b = from_be_bytes-append (acc * 256 + x) a b

-- A word is read back from its bytes.
pub from-to_be_bytes : (width v : ℕ) → v < 256 ^ width → from_be_bytes 0 (to_be_bytes width v) ≡ v
unfolding to_be_bytes from_be_bytes
from-to_be_bytes zero v h = omega arith
from-to_be_bytes (suc width) v h = ground (
  arith,
  from_be_bytes-append 0 (to_be_bytes width (v / 256)) ((v % 256) ∷ []),
  from-to_be_bytes width (v / 256) (omega (arith, pow-suc 256 width)),
)

pub length-to_le_bytes : (width v : ℕ) → length (to_le_bytes width v) ≡ width
unfolding to_le_bytes
length-to_le_bytes zero v = refl
length-to_le_bytes (suc width) v = omega (arith, length-to_le_bytes width (v / 256))

-- A word is read back from its little-endian bytes.
pub from-to_le_bytes : (width v : ℕ) → v < 256 ^ width → from_le_bytes (to_le_bytes width v) ≡ v
unfolding to_le_bytes from_le_bytes
from-to_le_bytes zero v h = omega arith
from-to_le_bytes (suc width) v h =
    omega (arith, from-to_le_bytes width (v / 256) (omega (arith, pow-suc 256 width)))

-- Length-prefixed strings, with the strings that follow them, are equal only part by part.
pub len_prefixed_injective :
    (a b c d : Bytes)
    → length a < 256 ^ 8
    → length b < 256 ^ 8
    → len_prefixed a ++ c ≡ len_prefixed b ++ d
    → (a ≡ b) × (c ≡ d)
unfolding len_prefixed
len_prefixed_injective a b c d ha hb e =
    let e' : to_be_bytes 8 (length a) ++ (a ++ c) ≡ to_be_bytes 8 (length b) ++ (b ++ d) =
      simp append_assoc at e in
    let (heads, rest) =
      append_cancel (to_be_bytes 8 (length a)) (to_be_bytes 8 (length b)) (a ++ c) (b ++ d)
        (same_width 8 (length a) (length b)) e' in
    append_cancel a b c d (to_be_bytes_injective 8 (length a) (length b) ha hb heads) rest
