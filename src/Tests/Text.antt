-- ===== src/Tests/Text.antt =====
-- The functions of Go's libraries at concrete text.
use graph_context.Base.{◌≡◌, refl, bytes, itoa, file_ext, clean_path, join_path, dir_of, base_of}

printed : itoa 1203 ≡ bytes "1203"
printed = refl

printed_zero : itoa 0 ≡ bytes "0"
printed_zero = refl

ext_of_file : file_ext (bytes "a.b/c.Test.GO") ≡ bytes ".GO"
ext_of_file = refl

ext_of_dir : file_ext (bytes "a.b/c") ≡ bytes ""
ext_of_dir = refl

cleaned : clean_path (bytes "./a//b/../../../c/") ≡ bytes "../c"
unfolding clean_path
cleaned = refl

cleaned_root : clean_path (bytes "/../a/.") ≡ bytes "/a"
unfolding clean_path
cleaned_root = refl

joined : join_path (bytes "src/app") (bytes "../lib") ≡ bytes "src/lib"
unfolding join_path
joined = refl

dir_of_file : dir_of (bytes "a/b/c.go") ≡ bytes "a/b"
unfolding dir_of
dir_of_file = refl

dir_of_name : dir_of (bytes "c.go") ≡ bytes "."
unfolding dir_of
dir_of_name = refl

base_of_dir : base_of (bytes "a/b/") ≡ bytes "b"
unfolding base_of
base_of_dir = refl
