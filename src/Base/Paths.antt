-- ===== src/Base/Paths.antt =====
-- The functions of path/filepath that the program calls, where the separator is the slash.
use Prim.Native.Nat.{ℕ}
use mathlib.Core.Bool.{Bool, false, ◌||◌}
use mathlib.Core.List.{List, [], ◌∷◌, ◌++◌, reverse}
use graph_context.Base.Tests.{nat_beq, if◌then◌else◌}
use graph_context.Base.Text.{Str, bytes, str_beq}
use graph_context.Base.Words.{split, join_with}

abbrev pub is_slash : ℕ → Bool
is_slash c = nat_beq c b'/'

-- Ext: from the end back to a dot, or to a slash; `tail` is what was passed.
abbrev pub ext_back : Str → Str → Str
ext_back [] tail = []
ext_back (c ∷ back) tail =
    let rest = ext_back back (c ∷ tail) in
    if nat_beq c b'.' then c ∷ tail else if is_slash c then [] else rest

abbrev pub file_ext : Str → Str
file_ext s = ext_back (reverse s) []

-- One element of Clean; the elements before it are reversed.
abbrev clean_step : Bool → List Str → Str → List Str
clean_step rooted [] p = if str_beq p (bytes "..") then (if rooted then [] else p ∷ []) else p ∷ []
clean_step rooted (q ∷ qs) p =
    if str_beq p (bytes "..")
    then (if str_beq q (bytes "..") then p ∷ q ∷ qs else qs)
    else p ∷ q ∷ qs

abbrev clean_parts : Bool → List Str → List Str → List Str
clean_parts rooted done [] = done
clean_parts rooted done (p ∷ ps) =
    let skip = clean_parts rooted done ps in
    let take = clean_parts rooted (clean_step rooted done p) ps in
    if str_beq p [] || str_beq p (bytes ".") then skip else take

abbrev is_rooted : Str → Bool
is_rooted [] = false
is_rooted (c ∷ _) = is_slash c

abbrev or_dot : Str → Str
or_dot [] = bytes "."
or_dot (c ∷ s) = c ∷ s

-- Clean
unfoldable pub clean_path : Str → Str
unfolding split
clean_path s =
    let joined = join_with (bytes "/") (reverse (clean_parts (is_rooted s) [] (split b'/' s))) in
    if is_rooted s then b'/' ∷ joined else or_dot joined

-- Join of two elements
unfoldable pub join_path : Str → Str → Str
unfolding clean_path
join_path [] [] = []
join_path [] (c ∷ s) = clean_path (c ∷ s)
join_path (c ∷ s) t = clean_path ((c ∷ s) ++ b'/' ∷ t)

-- The reversed path, from its last slash on.
abbrev drop_name : Str → Str
drop_name [] = []
drop_name (c ∷ back) = let rest = drop_name back in if is_slash c then c ∷ back else rest

-- Dir
unfoldable pub dir_of : Str → Str
unfolding clean_path
dir_of s = clean_path (reverse (drop_name (reverse s)))

abbrev drop_slashes : Str → Str
drop_slashes [] = []
drop_slashes (c ∷ back) = let rest = drop_slashes back in if is_slash c then rest else c ∷ back

abbrev name_back : Str → Str
name_back [] = []
name_back (c ∷ back) = let rest = name_back back in if is_slash c then [] else c ∷ rest

abbrev or_slash : Str → Str
or_slash [] = bytes "/"
or_slash (c ∷ s) = c ∷ s

-- Base
unfoldable pub base_of : Str → Str
base_of [] = bytes "."
base_of (c ∷ s) = or_slash (reverse (name_back (drop_slashes (reverse (c ∷ s)))))
