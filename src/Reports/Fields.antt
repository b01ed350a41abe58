-- ===== src/Reports/Fields.antt =====
-- `parseField` on what the kernel's `status` shows.
use kblocker.Base.{
  ◌≡◌, ◌≢◌, refl, ◌∙◌, ap, List, [], ◌∷◌, ◌++◌, Text, arith, split, cut, has_prefix, All,
  if◌then◌else◌,
}
use kblocker.Base.Words.{trim_space-word, trim_space-blank, cut-append}
use kblocker.Kernel.{Session}
use kblocker.Kernel.Shows.{Counts, status_lines, status_fields, status_show}
use kblocker.Kernel.Shows.Reads.{
  IsName, IsValue, AllLines, is_name-IsName, status_line-split, status_fields-AllLines,
}
use kblocker.Reports.{parse_field}

-- The value of the first field whose name starts with the prefix.
unfoldable pub field_of : Text → List (Text × Text) → Text
field_of prefix [] = []
field_of prefix ((name, value) ∷ ps) =
    let rest = field_of prefix ps in if has_prefix name prefix then value else rest

has_prefix-colon :
    (name rest prefix : Text)
    → All (λ c. c ≢ b':') prefix
    → has_prefix (name ++ (b':' ∷ rest)) prefix ≡ has_prefix name prefix
unfolding has_prefix
has_prefix-colon [] rest [] h = refl
has_prefix-colon [] rest (d ∷ p) (hd, h) = ground (arith, hd)
has_prefix-colon (c ∷ name) rest [] h = refl
has_prefix-colon (c ∷ name) rest (d ∷ p) (hd, h) = ground (arith, has_prefix-colon name rest p h)

parse_field-line :
    (prefix name value : Text) (lines : List Text)
    → All (λ c. c ≢ b':') prefix
    → IsName name
    → IsValue value
    → parse_field prefix ((name ++ (b':' ∷ b' ' ∷ value)) ∷ lines)
      ≡ (if has_prefix name prefix then value else parse_field prefix lines)
unfolding parse_field
parse_field-line prefix name value lines hp hn hv = ground (
  arith,
  has_prefix-colon name (b' ' ∷ value) prefix hp,
  cut-append b':' name (b' ' ∷ value) hn.0,
  trim_space-blank value,
  trim_space-word value hv.1,
)

parse_field-none : (prefix : Text) → parse_field prefix ([] ∷ []) ≡ []
unfolding parse_field has_prefix cut
parse_field-none [] = refl
parse_field-none (c ∷ p) = refl

parse_field-status_lines :
    (prefix : Text) (ps : List (Text × Text))
    → All (λ c. c ≢ b':') prefix
    → AllLines ps
    → parse_field prefix (split b'\n' (status_lines ps)) ≡ field_of prefix ps
unfolding status_lines field_of AllLines split
parse_field-status_lines prefix [] hp h = parse_field-none prefix
parse_field-status_lines prefix ((name, value) ∷ ps) hp (hn, hv, hs) =
    ap (parse_field prefix)
      (status_line-split name value (status_lines ps) (is_name-IsName name hn) hv)
    ∙ parse_field-line prefix name value (split b'\n' (status_lines ps)) hp (is_name-IsName name hn)
        hv
    ∙ ap (λ rest. if has_prefix name prefix then value else rest)
        (parse_field-status_lines prefix ps hp hs)

-- The fields that `status` looks up.
pub field_value :
    (prefix : Text) (n : Counts) (k : Session)
    → All (λ c. c ≢ b':') prefix
    → parse_field prefix (split b'\n' (status_show n k)) ≡ field_of prefix (status_fields n k)
unfolding status_show
field_value prefix n k hp =
    parse_field-status_lines prefix (status_fields n k) hp (status_fields-AllLines n k)
