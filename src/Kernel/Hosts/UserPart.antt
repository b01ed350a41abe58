-- ===== src/Kernel/Hosts/UserPart.antt =====
-- The user's part of /etc/hosts is found again behind every block.
use mathlib.Core.List.{append_assoc}
use kblocker.Base.{
  ℕ, suc, ◌+◌, ◌≡◌, ◌≢◌, refl, ap, ◌∙◌, ◌==◌, ◌⊎◌, inl, inr, false, Option, none, some, List, [],
  ◌∷◌, ◌++◌, Text, lit, arith, length, length-append, ltb, cut, All, if◌then◌else◌,
}
use kblocker.Base.Parts.{get_elem?, get_elem?-append}
use kblocker.Base.Words.{All-append}
use kblocker.Base.Search.{strstr, shifted, strstr-newline, no_break, has_prefix-append}
use kblocker.Kernel.StateFile.{c_text}
use kblocker.Kernel.StateFile.Bytes.{IsNonzero, c_text_id}
use kblocker.Kernel.Hosts.{hosts_marker, domain_pieces, before_newlines, kb_hosts_base_len}
use kblocker.Kernel.Hosts.Blocks.{entries, hosts_block}

-- What the user has: no NUL, not the marker, and no line break at the end.
pub record IsUserPart (x : Text) : Type 0 where
  pub no_nul : All IsNonzero x
  pub no_marker : strstr x hosts_marker ≡ none
  pub no_newline : (x ≡ []) ⊎ ((y : Text) × ((c : ℕ) × (x ≡ y ++ (c ∷ [])) × (c ≢ b'\n')))

before_newlines-stop :
    (x rest : Text) → IsUserPart x → before_newlines (x ++ rest) (length x) ≡ length x
unfolding before_newlines
before_newlines-stop x rest w = elim w.no_newline [
  | inl nothing ↦ rw nothing refl
  | inr (y, (c, e, other)) ↦
      let size : length x ≡ suc (length y) = rw e (omega (arith, length-append y (c ∷ []))) in
      let byte : get_elem? (x ++ rest) (length y) ≡ some c =
        rw (e, append_assoc y (c ∷ []) rest) (get_elem?-append y rest c) in
      let no_break : (c == b'\n') ≡ false = ground (arith, other) in
      rw (size, byte, before_newlines, no_break) refl
]

before_newlines-step :
    (buf : Text) (n : ℕ)
    → get_elem? buf n ≡ some b'\n'
    → before_newlines buf (suc n) ≡ before_newlines buf n
unfolding before_newlines
before_newlines-step buf n h = rw (h, before_newlines) refl

hosts_marker_no_break : cut b'\n' hosts_marker ≡ none
unfolding cut hosts_marker lit
hosts_marker_no_break = refl

strstr-hosts_marker :
    (x y : Text)
    → strstr x hosts_marker ≡ none
    → strstr (x ++ (b'\n' ∷ y)) hosts_marker ≡ shifted (suc (length x)) (strstr y hosts_marker)
unfolding hosts_marker lit
strstr-hosts_marker x y missing =
    strstr-newline x y _ _ (no_break hosts_marker hosts_marker_no_break) missing

pub strstr-user : (x : Text) → IsUserPart x → strstr (x ++ (b'\n' ∷ [])) hosts_marker ≡ none
unfolding strstr
strstr-user x w = strstr-hosts_marker x [] w.no_marker

strstr-here : (t : Text) → strstr (hosts_marker ++ t) hosts_marker ≡ some 0
unfolding hosts_marker lit strstr
strstr-here t = rw (has_prefix-append hosts_marker t) refl

pub strstr-hosts_block :
    (x : Text) (ds : List Text)
    → strstr x hosts_marker ≡ none
    → strstr (x ++ hosts_block ds) hosts_marker ≡ some (length x + 2)
unfolding hosts_block strstr
strstr-hosts_block x ds missing =
    strstr-hosts_marker x (b'\n' ∷ (hosts_marker ++ (b'\n' ∷ entries ds))) missing
    ∙ ap (shifted (suc (length x))) (
        strstr-hosts_marker [] (hosts_marker ++ (b'\n' ∷ entries ds)) refl
        ∙ ap (shifted 1) (strstr-here (b'\n' ∷ entries ds)))
    ∙ ap some (omega arith)

base_at :
    (buf : Text) (o : Option ℕ)
    → c_text buf ≡ buf
    → strstr buf hosts_marker ≡ o
    → kb_hosts_base_len buf
      ≡ before_newlines buf
          (elim o [ none ↦ length buf | some p ↦ if ltb p (length buf) then p else length buf ])
unfolding kb_hosts_base_len
base_at buf o whole found = rw (whole, found) refl

get_second : (x y : Text) (a b : ℕ) → get_elem? (x ++ (a ∷ b ∷ y)) (suc (length x)) ≡ some b
get_second [] y a b = refl
get_second (c ∷ x) y a b = get_second x y a b

-- The user's part is found before a line break and nothing, and before a block.
pub kb_hosts_base_len-newline :
    (x : Text) → IsUserPart x → kb_hosts_base_len (x ++ (b'\n' ∷ [])) ≡ length x
kb_hosts_base_len-newline x w =
    let buf = x ++ (b'\n' ∷ []) in
    let whole = c_text_id buf (All-append IsNonzero x (b'\n' ∷ []) w.no_nul (omega arith, tt)) in
    let size : length buf ≡ suc (length x) = omega (arith, length-append x (b'\n' ∷ [])) in
    base_at buf none whole (strstr-user x w)
    ∙ ap (before_newlines buf) size
    ∙ before_newlines-step buf (length x) (get_elem?-append x [] b'\n')
    ∙ before_newlines-stop x (b'\n' ∷ []) w

pub kb_hosts_base_len-hosts_block :
    (x : Text) (ds : List Text)
    → IsUserPart x
    → All IsNonzero (hosts_block ds)
    → kb_hosts_base_len (x ++ hosts_block ds) ≡ length x
unfolding hosts_block
kb_hosts_base_len-hosts_block x ds w no_nul =
    let buf = x ++ hosts_block ds in
    let rest = hosts_marker ++ (b'\n' ∷ entries ds) in
    let whole = c_text_id buf (All-append IsNonzero x (hosts_block ds) w.no_nul no_nul) in
    let before : (if ltb (length x + 2) (length buf) then length x + 2 else length buf)
        ≡ suc (suc (length x)) =
      ground (
        arith,
        length-append x (hosts_block ds),
        length-append hosts_marker (b'\n' ∷ entries ds),
      ) in
    let second : get_elem? buf (suc (length x)) ≡ some b'\n' = get_second x rest b'\n' b'\n' in
    base_at buf (some (length x + 2)) whole (strstr-hosts_block x ds w.no_marker)
    ∙ ap (before_newlines buf) before
    ∙ before_newlines-step buf (suc (length x)) second
    ∙ before_newlines-step buf (length x) (get_elem?-append x (b'\n' ∷ rest) b'\n')
    ∙ before_newlines-stop x (hosts_block ds) w

hosts_marker-IsNonzero : All IsNonzero hosts_marker
unfolding hosts_marker lit
hosts_marker-IsNonzero = omega arith

-- A domain without NUL leaves the entries and the block without one.
entries-IsNonzero : (ds : List Text) → All (All IsNonzero) ds → All IsNonzero (entries ds)
unfolding domain_pieces lit
entries-IsNonzero [] h = (omega arith, tt)
entries-IsNonzero (d ∷ ds) (hd, hs) =
    let add = λ (t u : Text) (ht : All IsNonzero t) (hu : All IsNonzero u).
      All-append IsNonzero t u ht hu in
    add (lit "0.0.0.0 ") _ (omega arith) (
      add d _ hd (
        add (lit "\n:: ") _ (omega arith) (
          add d _ hd (
            add (lit "\n0.0.0.0 www.") _ (omega arith) (
              add d _ hd (
                add (lit "\n:: www.") _ (omega arith)
                  (add d _ hd (add (lit "\n") _ (omega arith) (entries-IsNonzero ds hs)))))))))

pub hosts_block-IsNonzero :
    (ds : List Text) → All (All IsNonzero) ds → All IsNonzero (hosts_block ds)
unfolding hosts_block
hosts_block-IsNonzero ds h = (
  omega arith,
  (
    omega arith,
    All-append IsNonzero hosts_marker (b'\n' ∷ entries ds) hosts_marker-IsNonzero
        (omega arith, entries-IsNonzero ds h),
  ),
)
