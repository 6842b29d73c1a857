-- ===== src/Prelude/ByteStrings.antt =====
-- Byte strings and texts as lists of numbers: a byte is below 256, and a text is its code points.
use Prim.Native.Nat.{ℕ, ◌<◌, ◌-◌}
use Prim.Native.Char.{code}
use Prim.Native.String.{String}
use mathlib.Core.Path.{◌≡◌, refl, sym, ap, ◌∙◌}
use mathlib.Core.Logic.{◌↔◌}
use mathlib.Core.Bool.{Bool, true, false, ◌&&◌, ◌||◌}
use mathlib.Core.List.{List, [], ◌∷◌, ◌++◌}
use native.Mathlib.Omega.{arith}
use quantum_safe_py.Prelude.Tests.{◌==◌, leb, if◌then◌else◌}
use quantum_safe_py.Prelude.Lists.{
  length, length-append, take, drop, take-append-drop, drop-append, All,
}

abbrev pub Bytes : Type 0
Bytes = List ℕ

abbrev pub IsBytes : Bytes → Type 0
IsBytes = All (λ b. b < 256)

-- The code points of a literal.
abbrev pub text : String → Bytes
text String.[] = []
text (String.◌∷◌ c s) = code c ∷ text s

-- `a == b` on byte strings, and `hmac.compare_digest`.
unfoldable pub bytes_eq : Bytes → Bytes → Bool
bytes_eq [] [] = true
bytes_eq [] (y ∷ ys) = false
bytes_eq (x ∷ xs) [] = false
bytes_eq (x ∷ xs) (y ∷ ys) = x == y && bytes_eq xs ys

pub bytes_eq_iff : (a b : Bytes) → (bytes_eq a b ≡ true) ↔ (a ≡ b)
unfolding bytes_eq
bytes_eq_iff [] [] = ground arith
bytes_eq_iff [] (y ∷ ys) = ground arith
bytes_eq_iff (x ∷ xs) [] = ground arith
bytes_eq_iff (x ∷ xs) (y ∷ ys) = ground (arith, bytes_eq_iff xs ys)

pub bytes_eq_refl : (a : Bytes) → bytes_eq a a ≡ true
bytes_eq_refl a = (bytes_eq_iff a a).1 refl

-- `c in s` for one code point.
unfoldable pub has : ℕ → Bytes → Bool
has c [] = false
has c (x ∷ s) = x == c || has c s

-- `s in names` for a list of texts.
unfoldable pub one_of : Bytes → List Bytes → Bool
one_of s [] = false
one_of s (t ∷ ts) = bytes_eq s t || one_of s ts

-- The two parts of `s.split(c, 1)`: what stands before the first `c`, and what follows it.
unfoldable pub before : ℕ → Bytes → Bytes
before c [] = []
before c (x ∷ s) = if x == c then [] else x ∷ before c s

unfoldable pub after : ℕ → Bytes → Bytes
after c [] = []
after c (x ∷ s) = if x == c then s else after c s

pub before-append : (c : ℕ) (a b : Bytes) → has c a ≡ false → before c (a ++ (c ∷ b)) ≡ a
unfolding before has
before-append c [] b h = ground arith
before-append c (x ∷ a) b h = ground (arith, before-append c a b)

pub after-append : (c : ℕ) (a b : Bytes) → has c a ≡ false → after c (a ++ (c ∷ b)) ≡ b
unfolding after has
after-append c [] b h = ground arith
after-append c (x ∷ a) b h = ground (arith, after-append c a b)

pub has-append : (c : ℕ) (a b : Bytes) → has c (a ++ (c ∷ b)) ≡ true
unfolding has
has-append c [] b = ground arith
has-append c (x ∷ a) b = ground (arith, has-append c a b)

-- A text with the separator is its two parts round the separator.
pub before-after : (c : ℕ) (s : Bytes) → has c s ≡ true → s ≡ before c s ++ (c ∷ after c s)
unfolding before after has
before-after c [] h = ground arith
before-after c (x ∷ s) h = ground (arith, before-after c s)

-- `s.endswith(t)`
unfoldable pub ends_with : Bytes → Bytes → Bool
ends_with s t = leb (length t) (length s) && bytes_eq (drop (length s - length t) s) t

-- `s[:-n]` for a positive `n`
abbrev pub drop_last : ℕ → Bytes → Bytes
drop_last n s = take (length s - n) s

-- `s.encode("ascii")` succeeds on these.
unfoldable pub is_ascii : Bytes → Bool
is_ascii [] = true
is_ascii (c ∷ s) = leb c 127 && is_ascii s

-- A member of a list of names satisfies what they all satisfy.
pub one_of-All :
    (P : Bytes → Bool) (s : Bytes) (ts : List Bytes)
    → one_of s ts ≡ true
    → All (λ t. P t ≡ true) ts
    → P s ≡ true
unfolding one_of
one_of-All P s [] h a = cc
one_of-All P s (t ∷ ts) h a = ground (arith, bytes_eq_iff s t, one_of-All P s ts)

-- A text with an ending is what stands before it, and the ending.
pub ends_with-append : (s t : Bytes) → ends_with s t ≡ true → s ≡ take (length s - length t) s ++ t
unfolding ends_with
ends_with-append s t h =
    let e : drop (length s - length t) s ≡ t =
      ground (arith, bytes_eq_iff (drop (length s - length t) s) t) in
    sym (take-append-drop (length s - length t) s) ∙ ap (λ b. take (length s - length t) s ++ b) e

pub append-ends_with : (s t : Bytes) → ends_with (s ++ t) t ≡ true
unfolding ends_with
append-ends_with s t =
    let n : length (s ++ t) - length t ≡ length s = omega (arith, length-append s t) in
    let long : leb (length t) (length (s ++ t)) ≡ true = ground (arith, length-append s t) in
    rw (long, n, drop-append s t) (bytes_eq_refl t)
