-- ===== src/Base/StringTests.antt =====
-- Runs of the functions on text.
use mathlib.Core.Path.{◌≡◌, refl}
use mathlib.Core.List.{[], ◌∷◌}
use kblocker.Base.Strings.{lit, split, fields, trim_space, trim_suffix}

split_twice : split 58 (lit "a:b:") ≡ lit "a" ∷ lit "b" ∷ [] ∷ []
unfolding split lit
split_twice = refl

fields_example : fields (lit " 1  23\n") ≡ lit "1" ∷ lit "23" ∷ []
unfolding fields lit
fields_example = refl

trim_space_example : trim_space (lit " a b ") ≡ lit "a b"
unfolding trim_space lit
trim_space_example = refl

trim_suffix_example : trim_suffix (lit "ab.asc") (lit ".asc") ≡ lit "ab"
unfolding trim_suffix lit
trim_suffix_example = refl
