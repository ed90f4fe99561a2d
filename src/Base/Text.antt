-- ===== src/Base/Text.antt =====
-- A Go string is the list of its bytes. The tests are those of package strings.
use Prim.Native.Nat.{ℕ}
use Prim.Native.Char.{code}
use Prim.Native.String.{String}
use mathlib.Core.Path.{◌≡◌, refl}
use mathlib.Core.Logic.{◌↔◌}
use mathlib.Core.Bool.{Bool, true, false, ◌&&◌, ◌||◌}
use mathlib.Core.List.{List, [], ◌∷◌}
use native.Mathlib.Omega.{arith}
use graph_context.Base.Tests.{ltb, nat_beq, nat_beq_iff, Comparable}

abbrev pub Str : Type 0
Str = List ℕ

-- The bytes of an ASCII literal.
abbrev pub bytes : String → Str
bytes String.[] = []
bytes (String.◌∷◌ c s) = code c ∷ bytes s

abbrev pub str_beq : Str → Str → Bool
str_beq [] [] = true
str_beq [] (_ ∷ _) = false
str_beq (_ ∷ _) [] = false
str_beq (a ∷ s) (b ∷ t) = nat_beq a b && str_beq s t

pub str_beq_iff : (s t : Str) → (str_beq s t ≡ true) ↔ (s ≡ t)
str_beq_iff [] [] = ground arith
str_beq_iff [] (b ∷ t) = ground arith
str_beq_iff (a ∷ s) [] = ground arith
str_beq_iff (a ∷ s) (b ∷ t) = ground (arith, nat_beq_iff a b, str_beq_iff s t)

instance abbrev pub str_eq : Comparable Str
str_eq = record { same_iff = str_beq_iff; same = str_beq }

-- Go's `<` on strings: lexicographic by bytes.
abbrev pub str_lt : Str → Str → Bool
str_lt s [] = false
str_lt [] (_ ∷ _) = true
str_lt (a ∷ s) (b ∷ t) = ltb a b || (nat_beq a b && str_lt s t)

pub str_lt-asym : (s t : Str) → str_lt s t ≡ true → str_lt t s ≡ false
str_lt-asym s [] h = ground arith
str_lt-asym [] (b ∷ t) h = refl
str_lt-asym (a ∷ s) (b ∷ t) h = ground (arith, str_lt-asym s t)

pub str_lt-chain : (r s t : Str) → str_lt s r ≡ false → str_lt t s ≡ false → str_lt t r ≡ false
str_lt-chain [] s t h k = refl
str_lt-chain (a ∷ r) [] t h k = ground arith
str_lt-chain (a ∷ r) (b ∷ s) [] h k = ground arith
str_lt-chain (a ∷ r) (b ∷ s) (c ∷ t) h k = ground (arith, str_lt-chain r s t)

pub str_lt-connex : (s t : Str) → str_lt s t ≡ false → str_lt t s ≡ false → s ≡ t
str_lt-connex [] [] h k = refl
str_lt-connex [] (b ∷ t) h k = ground arith
str_lt-connex (a ∷ s) [] h k = ground arith
str_lt-connex (a ∷ s) (b ∷ t) h k = ground (arith, str_lt-connex s t)

-- strings.HasPrefix(s, p), with the prefix first.
abbrev pub has_prefix : Str → Str → Bool
has_prefix [] s = true
has_prefix (p ∷ ps) [] = false
has_prefix (p ∷ ps) (c ∷ s) = nat_beq p c && has_prefix ps s
