-- ===== src/Kernel/Lists.antt =====
-- src/main.c: the lists of blocked addresses and of allowed networks. Memory does not run out. An
-- IPv4 address is the number of its four bytes, the first one the highest, and an IPv6 address its
-- sixteen bytes.
use Prim.Native.Nat.{bit_and}
use mathlib.Core.List.{foldl}
use kblocker.Base.{
  ℕ, ◌-◌, ◌^◌, ◌==◌, ◌||◌, Bool, Option, none, some, List, [], ◌∷◌, ◌++◌, Text, lit, length, ltb,
  leb, is_empty, has_prefix, trim_space, split, cut, if◌then◌else◌,
}
use kblocker.Kernel.{Status, success, einval, eperm}
use kblocker.Kernel.StateFile.{c_text}

-- What the module uses of the kernel for addresses.
pub record Inet : Type 0 where
  pub in4_pton : Text → Option ℕ
  pub in6_pton : Text → Option Text
  -- kstrtou8 with base 10; `none` is an error
  pub parse_u8 : Text → Option ℕ
  pub ipv6_addr_prefix : Text → ℕ → Text
  pub ipv6_prefix_equal : Text → Text → ℕ → Bool

-- `kb_net4` and `kb_net6`
pub record Net4 : Type 0 where
  pub addr : ℕ
  pub mask : ℕ

pub record Net6 : Type 0 where
  pub addr : Text
  pub plen : ℕ

pub record Lists : Type 0 where
  pub blocked_v4 : List ℕ
  pub blocked_v6 : List Text
  pub domains : List Text
  pub allowed_v4 : List Net4
  pub allowed_v6 : List Net6

-- MAX_IPS_V4 and MAX_IPS_V6, and MAX_ALLOWED_NETS
abbrev pub max_ips_v4 : ℕ
max_ips_v4 = 4096

abbrev pub max_ips_v6 : ℕ
max_ips_v6 = 1024

abbrev pub max_allowed_nets : ℕ
max_allowed_nets = 64

-- The mask of a prefix, ~0U << (32 - plen).
unfoldable pub mask_of : ℕ → ℕ
mask_of plen = if plen == 0 then 0 else 2 ^ 32 - 2 ^ (32 - plen)

module _ (I : Inet) where
  open I use {in4_pton, in6_pton, parse_u8, ipv6_addr_prefix}

  -- The addresses after one more line; one that is no address, or that there is no room for, is
  -- passed over.
  unfoldable pub add_ip : List ℕ × List Text → Text → List ℕ × List Text
  add_ip (v4, v6) token =
      if is_empty token || has_prefix token (lit "#") then (v4, v6) else elim (in6_pton token) [
        | some a ↦ if ltb (length v6) max_ips_v6 then (v4, v6 ++ (a ∷ [])) else (v4, v6)
        | none ↦ elim (in4_pton token) [
          | some a ↦ if ltb (length v4) max_ips_v4 then (v4 ++ (a ∷ []), v6) else (v4, v6)
          | none ↦ (v4, v6)
        ]
      ]

  unfoldable pub parse_ips : List Text → List ℕ × List Text
  parse_ips tokens = foldl add_ip ([], []) tokens

  -- The write to `blocked_ips`, by whether a session runs.
  unfoldable pub blocked_ips_store : Text → Bool → Lists → Status × Lists
  blocked_ips_store buf enabled lists =
      let (v4, v6) = parse_ips (split b'\n' (c_text buf)) in
      if enabled
      then (eperm, lists)
      else (success, record lists { blocked_v4 = v4; blocked_v6 = v6 })

  -- The length of a prefix, of at most `most` bits.
  unfoldable pub prefix_length : Option Text → ℕ → Option ℕ
  prefix_length slash most = elim slash [
    | none ↦ some most
    | some digits ↦ elim (parse_u8 digits) [
      | none ↦ none
      | some plen ↦ if ltb most plen then none else some plen
    ]
  ]

  unfoldable pub add_net4 : ℕ → Option Text → List Net4 × List Net6 → Option (List Net4 × List Net6)
  add_net4 a4 slash (v4, v6) = elim (prefix_length slash 32) [
    | none ↦ none
    | some plen ↦
        if leb max_allowed_nets (length v4)
        then none
        else some
            (v4 ++ (record { addr = bit_and a4 (mask_of plen); mask = mask_of plen } ∷ []), v6)
  ]

  unfoldable pub add_net6 :
      Text → Option Text → List Net4 × List Net6 → Option (List Net4 × List Net6)
  add_net6 a6 slash (v4, v6) = elim (prefix_length slash 128) [
    | none ↦ none
    | some plen ↦
        if leb max_allowed_nets (length v6)
        then none
        else some (v4, v6 ++ (record { addr = ipv6_addr_prefix a6 plen; plen = plen } ∷ []))
  ]

  -- The address before the slash, with the prefix after it.
  unfoldable pub parse_entry :
      Text → Option Text → List Net4 × List Net6 → Option (List Net4 × List Net6)
  parse_entry s slash nets = elim (in4_pton s) [
    | some a4 ↦ add_net4 a4 slash nets
    | none ↦ elim (in6_pton s) [ some a6 ↦ add_net6 a6 slash nets | none ↦ none ]
  ]

  unfoldable pub parse_net : Text → List Net4 × List Net6 → Option (List Net4 × List Net6)
  parse_net s nets = elim (cut b'/' s) [
    | none ↦ parse_entry s none nets
    | some (before, after) ↦ parse_entry before (some after) nets
  ]

  unfoldable pub allowed_from : List Net4 × List Net6 → List Text → Option (List Net4 × List Net6)
  allowed_from nets [] = some nets
  allowed_from nets (line ∷ lines) =
      let token = trim_space line in
      elim (if is_empty token || has_prefix token (lit "#")
        then some nets
        else parse_net token nets) [ none ↦ none | some more ↦ allowed_from more lines ]

  -- A list with the separator given; `none` is -EINVAL.
  unfoldable pub kb_parse_allowed : Text → ℕ → Option (List Net4 × List Net6)
  kb_parse_allowed list sep = allowed_from ([], []) (split sep list)

  -- The write to `allowed_ips`, by whether a session runs.
  unfoldable pub allowed_ips_store : Text → Bool → Lists → Status × Lists
  allowed_ips_store buf enabled lists = elim (kb_parse_allowed (c_text buf) b'\n') [
    | none ↦ (einval, lists)
    | some (v4, v6) ↦
        if enabled
        then (eperm, lists)
        else (success, record lists { allowed_v4 = v4; allowed_v6 = v6 })
  ]
