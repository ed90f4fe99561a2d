-- ===== src/Base/Words.antt =====
-- The functions of packages strings, strconv and bufio that the program calls on ASCII text.
use Prim.Native.Nat.{ℕ, zero, suc, ◌+◌, ◌-◌, ◌*◌, ◌%◌, ◌/◌}
use mathlib.Core.Bool.{Bool, ◌&&◌, ◌||◌}
use mathlib.Core.Option.{Option, none, some}
use mathlib.Core.List.{List, [], ◌∷◌, ◌++◌, reverse, map}
use graph_context.Base.Tests.{leb, nat_beq, if◌then◌else◌}
use graph_context.Base.Text.{Str, has_prefix, str_beq}

-- The white space of ASCII.
abbrev pub is_space : ℕ → Bool
is_space c = nat_beq c 32 || (leb 9 c && leb c 13)

unfoldable pub trim_left : Str → Str
trim_left [] = []
trim_left (c ∷ s) = let rest = trim_left s in if is_space c then rest else c ∷ s

-- strings.TrimSpace
unfoldable pub trim_space : Str → Str
unfolding trim_left
trim_space s = reverse (trim_left (reverse (trim_left s)))

-- strings.TrimPrefix, with the prefix first
unfoldable pub drop_prefix : Str → Str → Option Str
drop_prefix [] s = some s
drop_prefix (p ∷ ps) [] = none
drop_prefix (p ∷ ps) (c ∷ s) = let rest = drop_prefix ps s in if nat_beq p c then rest else none

unfoldable pub trim_prefix : Str → Str → Str
unfolding drop_prefix
trim_prefix p s = elim (drop_prefix p s) [ none ↦ s | some r ↦ r ]

-- strings.Fields: `word` is the field that is being read.
unfoldable pub fields_from : Str → Str → List Str
fields_from [] [] = []
fields_from (w ∷ ws) [] = (w ∷ ws) ∷ []
fields_from word (c ∷ s) =
    let inside = fields_from (word ++ c ∷ []) s in
    let after = fields_from [] s in
    if is_space c then (elim word [ [] ↦ after | w ∷ ws ↦ (w ∷ ws) ∷ after ]) else inside

unfoldable pub fields : Str → List Str
unfolding fields_from
fields s = fields_from [] s

-- strings.Split at one byte
unfoldable pub split_from : ℕ → Str → Str → List Str
split_from sep piece [] = piece ∷ []
split_from sep piece (c ∷ s) =
    let inside = split_from sep (piece ++ c ∷ []) s in
    let after = split_from sep [] s in if nat_beq c sep then piece ∷ after else inside

unfoldable pub split : ℕ → Str → List Str
unfolding split_from
split sep s = split_from sep [] s

-- What stands before the first occurrence of a text, if there is one: s[:strings.Index(s, sep)].
unfoldable pub before : Str → Str → Option Str
before sep [] = if has_prefix sep [] then some [] else none
before sep (c ∷ s) =
    let rest = before sep s in
    if has_prefix sep (c ∷ s) then some [] else elim rest [ none ↦ none | some r ↦ some (c ∷ r) ]

-- strconv.Atoi of an unsigned decimal; with the error ignored, other text is 0.
unfoldable pub digits_from : ℕ → Str → ℕ
digits_from acc [] = acc
digits_from acc (c ∷ s) =
    let rest = digits_from (acc * 10 + (c - 48)) s in if leb 48 c && leb c 57 then rest else 0

unfoldable pub atoi : Str → ℕ
unfolding digits_from
atoi s = digits_from 0 s

-- bufio.ScanLines drops a carriage return at the end of a line.
abbrev pub drop_return : Str → Str
drop_return [] = []
drop_return (c ∷ []) = if nat_beq c 13 then [] else c ∷ []
drop_return (c ∷ d ∷ s) = c ∷ drop_return (d ∷ s)

-- strings.ToLower
abbrev pub lower_byte : ℕ → ℕ
lower_byte c = if leb 65 c && leb c 90 then c + 32 else c

abbrev pub to_lower : Str → Str
to_lower s = map lower_byte s

-- strings.HasSuffix and strings.Contains, with the part first.
abbrev pub has_suffix : Str → Str → Bool
has_suffix suffix [] = str_beq suffix []
has_suffix suffix (c ∷ s) = str_beq suffix (c ∷ s) || has_suffix suffix s

abbrev pub has_part : Str → Str → Bool
has_part part [] = has_prefix part []
has_part part (c ∷ s) = has_prefix part (c ∷ s) || has_part part s

-- strings.SplitN(s, sep, 2) at one byte: what stands before and after the first one.
abbrev pub cut_at : ℕ → Str → Option (Str × Str)
cut_at sep [] = none
cut_at sep (c ∷ s) =
    let rest = cut_at sep s in
    if nat_beq c sep
    then some ([], s)
    else elim rest [ none ↦ none | some (a, b) ↦ some (c ∷ a, b) ]

-- strings.Join
abbrev pub join_with : Str → List Str → Str
join_with sep [] = []
join_with sep (s ∷ []) = s
join_with sep (s ∷ t ∷ rest) = s ++ sep ++ join_with sep (t ∷ rest)

-- strconv.Itoa: the last digit, and those before it on fuel.
abbrev pub digits_of : ℕ → ℕ → Str
digits_of zero n = []
digits_of (suc fuel) n =
    let last = (48 + n % 10) ∷ [] in
    let more = digits_of fuel (n / 10) in if nat_beq (n / 10) 0 then last else more ++ last

abbrev pub itoa : ℕ → Str
itoa n = digits_of (suc n) n
