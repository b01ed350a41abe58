-- ===== src/Domains/ListFiles.antt =====
-- The list files: what the commands write is what `readFileLines` reads back.
use kblocker.Base.{
  ◌≡◌, refl, sym, ap, ◌∙◌, ◌≢◌, inl, inr, false, List, [], ◌∷◌, ◌++◌, arith, All, ◌∈◌, Text, lit,
  is_empty_lem, trim_space, split, join, has_prefix,
}
use kblocker.System.{Os, ok}
use kblocker.Cli.{newline, list_lines, read_file_lines}
use kblocker.Domains.{file_text}

-- A line that the reader keeps as it is.
pub record IsLine (t : Text) : Type 0 where
  pub nonempty : t ≢ []
  pub trimmed : trim_space t ≡ t
  pub no_comment : has_prefix t (lit "#") ≡ false
  pub one_line : ¬ (b'\n' ∈ t)

split_word :
    (w rest : Text) → ¬ (b'\n' ∈ w) → split b'\n' (w ++ (b'\n' ∷ rest)) ≡ w ∷ split b'\n' rest
unfolding split
split_word [] rest h = refl
split_word (c ∷ w) rest h =
    let later = split_word w rest (λ m. h (inr m)) in
    let other : ¬ (c ≡ b'\n') = λ e. h (inl (sym e)) in ground (arith, later, other)

append_assoc : (s t u : Text) → (s ++ t) ++ u ≡ s ++ (t ++ u)
append_assoc [] t u = refl
append_assoc (c ∷ s) t u = ap (λ x. c ∷ x) (append_assoc s t u)

file_text_cons : (d : Text) (ds : List Text) → file_text (d ∷ ds) ≡ d ++ (b'\n' ∷ file_text ds)
unfolding join newline
file_text_cons d [] = refl
file_text_cons d (e ∷ ds) = append_assoc d (b'\n' ∷ join (e ∷ ds) newline) newline

split-file_text : (ds : List Text) → All IsLine ds → split b'\n' (file_text ds) ≡ ds ++ ([] ∷ [])
unfolding split
split-file_text [] h = refl
split-file_text (d ∷ ds) (h, hs) =
    ap (split b'\n') (file_text_cons d ds)
    ∙ split_word d (file_text ds) h.one_line
    ∙ ap (λ ws. d ∷ ws) (split-file_text ds hs)

list_lines-cons : (d : Text) (ds : List Text) → IsLine d → list_lines (d ∷ ds) ≡ d ∷ list_lines ds
unfolding list_lines
list_lines-cons d ds h = rw (h.trimmed, is_empty_lem d h.nonempty, h.no_comment) refl

list_lines-keep : (ds : List Text) → All IsLine ds → list_lines (ds ++ ([] ∷ [])) ≡ ds
unfolding list_lines trim_space
list_lines-keep [] h = refl
list_lines-keep (d ∷ ds) (h, hs) =
    list_lines-cons d (ds ++ ([] ∷ [])) h ∙ ap (λ ws. d ∷ ws) (list_lines-keep ds hs)

-- A list of lines that is written to a list file is read back as it was, when each is neither
-- blank nor a comment, has no white space at its ends and no line break in it.
pub read_file_lines-file_text :
    (O : Os) (path : Text) (s : O.State) (ds : List Text)
    → All IsLine ds
    → O.read_file s path ≡ ok (file_text ds)
    → read_file_lines O s path ≡ ok ds
unfolding read_file_lines
read_file_lines-file_text O path s ds h r =
    let parts = split-file_text ds h in
    let kept = list_lines-keep ds h in ground (arith, r, parts, kept)
