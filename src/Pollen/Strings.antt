-- ===== src/Pollen/Strings.antt =====
-- jquery.hive.pollen.js, `string`. The tests by a regular expression that is made from an argument are
-- functions that the definitions take.
use joshlong_examples.Common.{
  ℕ, zero, suc, Bool, true, false, not, ◌&&◌, ◌||◌, Option, none, some, [], ◌∷◌, ◌==◌, leb,
  if◌then◌else◌, nonempty, Text, codes, contains, starts_with,
}

-- `\s`
unfoldable pub is_space : ℕ → Bool
is_space c =
    (leb 9 c && leb c 13)
    || (c == 32
        || (c == 160
            || (c == 0x1680
                || ((leb 0x2000 c && leb c 0x200A)
                    || (c == 0x2028
                        || (c == 0x2029
                            || (c == 0x202F || (c == 0x205F || (c == 0x3000 || c == 0xFEFF)))))))))

-- `replace(/^\s\s*/, '')`
unfoldable pub trim_left : Text → Text
trim_left [] = []
trim_left (c ∷ cs) = let rest = trim_left cs in if is_space c then rest else c ∷ cs

unfoldable pub all_space : Text → Bool
all_space [] = true
all_space (c ∷ cs) = is_space c && all_space cs

-- `replace(/\s\s*$/, '')`
unfoldable pub trim_right : Text → Text
trim_right [] = []
trim_right (c ∷ cs) = let rest = c ∷ trim_right cs in if all_space (c ∷ cs) then [] else rest

-- `trim`, where `none` is undefined or null.
unfoldable pub trim : Option Text → Text
trim none = []
trim (some t) = trim_right (trim_left t)

-- `inStr(str, arg)`; `matches` is the test of `str` by `new RegExp(arg, "ig")`.
unfoldable pub in_str : (Text → Text → Bool) → Text → Text → Bool
in_str matches str arg =
    if not (nonempty str) then false else if contains arg str then true else matches arg str

unfoldable pub is_one_of : Text → ℕ → Bool
is_one_of [] c = false
is_one_of (d ∷ ds) c = d == c || is_one_of ds c

-- Whether the test for brackets, slashes and backslashes finds one.
unfoldable pub has_bracket : Text → Bool
has_bracket [] = false
has_bracket (c ∷ cs) = is_one_of (codes "[]/\\") c || has_bracket cs

unfoldable pub escape_all : Text → Text
escape_all [] = []
escape_all (c ∷ cs) =
    let rest = escape_all cs in
    if is_one_of (codes ".*+?^=!:${}()|[]/\\") c then b'\\' ∷ c ∷ rest else c ∷ rest

-- `_regExpEscape`
unfoldable pub reg_exp_escape : Text → Text
reg_exp_escape str = if not (has_bracket str) then escape_all str else str

-- `replace(/%20/g, '+')`, with the number of code units that a match still covers.
unfoldable pub replace_spaces : ℕ → Text → Text
replace_spaces skip [] = []
replace_spaces (suc skip) (c ∷ cs) = replace_spaces skip cs
replace_spaces zero (c ∷ cs) =
    let matched = b'+' ∷ replace_spaces 2 cs in
    let kept = c ∷ replace_spaces 0 cs in
    if starts_with (c ∷ cs) (codes "%20") then matched else kept
