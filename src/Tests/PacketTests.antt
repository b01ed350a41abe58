-- ===== src/Tests/PacketTests.antt =====
-- The theorems about the filter, applied to a packet with a ClientHello.
use kblocker.Base.{
  lit, ◌<◌, ◌≡◌, ◌≢◌, ◌↔◌, refl, inl, inr, Bool, true, false, none, some, [], ◌∷◌, Text, arith,
}
use kblocker.Kernel.{Kernel, Session, zeros}
use kblocker.Kernel.Attributes.{enabled_store, end_unlocked, second}
use kblocker.Kernel.Runs.{write_enabled, second_passes, handle}
use kblocker.Kernel.Enforced.{
  Module, Change, session_event, write_blocked_domains, change, Changes, unchanged, changed,
  verdict,
}
use kblocker.Kernel.Enforced.Unchanged.{IsKeylessChange, Changes-verdict}
use kblocker.Kernel.Domains.{drop_dots}
use kblocker.Kernel.StateFile.{c_text}
use kblocker.Kernel.Names.{host_part, kb_domain_matches}
use kblocker.Kernel.Names.Matches.{IsWithin, kb_domain_matches_iff}
use kblocker.Kernel.Hello.{name, kb_sni_extract}
use kblocker.Kernel.Hello.Bounds.{IsBounded, kb_sni_extract-IsBounded}
use kblocker.Kernel.Hello.Wire.{client_hello}
use kblocker.Kernel.Hello.Extract.{kb_sni_extract-client_hello}
use kblocker.Kernel.Filter.Addresses.{IsEntry, blocked_ips_store-drop_packet}
use kblocker.Base.{◌++◌, split, has_prefix, text_eq, ◌∈◌, ◌%◌, ◌≤◌, length, if◌then◌else◌}
use kblocker.Kernel.Lists.{max_ips_v4, blocked_ips_store, Inet}
use kblocker.Kernel.Filter.{
  drop_packet, ipv4, skb_header_pointer, byte_of, u16_of, u32_of, kblocker_hook,
}
use kblocker.Base.{take, drop}
use kblocker.Kernel.Filter.{ipv6, is_ipv6_allowed}
use kblocker.Kernel.Filter.Segments.{
  packet_of6, kblocker_hook-drop_packet6, packet_of, kblocker_hook-drop_packet,
}
use kblocker.Kernel.Filter.Dropped.{Cause, kblocker_hook-Cause}
use kblocker.Tests.SamplePackets.{
  segment6, segment6-IsSegment6, blocked, host, hello, hello-IsHello, segment, segment-IsSegment,
  lists, inet, no_headers, not_allowed,
}

host-IsWithin : IsWithin host blocked
host-IsWithin = record {
  before = b'w' ∷ b'w' ∷ b'w' ∷ b'.' ∷ [];
  last = blocked;
  whole = refl;
  same = refl;
  apart = inr (b'w' ∷ b'w' ∷ b'w' ∷ [], refl);
}

host_part_host : host_part host ≡ host
unfolding host_part c_text drop_dots
host_part_host = refl

blocked_filled : blocked ≢ []
blocked_filled e = cc

kb_domain_matches_iff_example :
    (kb_domain_matches host blocked ≡ true) ↔ ((blocked ≢ []) × IsWithin host blocked)
kb_domain_matches_iff_example = kb_domain_matches_iff host blocked

kb_sni_extract-IsBounded_example :
    IsBounded 256 (kb_sni_extract (0x16 ∷ 3 ∷ 1 ∷ 0 ∷ 5 ∷ 1 ∷ 0 ∷ 0 ∷ 1 ∷ 3 ∷ []) 256)
kb_sni_extract-IsBounded_example =
    kb_sni_extract-IsBounded (0x16 ∷ 3 ∷ 1 ∷ 0 ∷ 5 ∷ 1 ∷ 0 ∷ 0 ∷ 1 ∷ 3 ∷ []) 256

kb_sni_extract-client_hello_example : kb_sni_extract (client_hello hello) 256 ≡ name host
kb_sni_extract-client_hello_example =
    kb_sni_extract-client_hello hello 256 hello-IsHello (omega arith)

part-IsWithin : IsWithin (host_part host) blocked
part-IsWithin = rw host_part_host host-IsWithin

kblocker_hook-drop_packet_example :
    kblocker_hook inet no_headers true ipv4 lists (packet_of segment) ≡ drop_packet
kblocker_hook-drop_packet_example =
    kblocker_hook-drop_packet inet no_headers lists segment blocked segment-IsSegment not_allowed
      (inl refl) blocked_filled part-IsWithin

not_allowed6 : is_ipv6_allowed inet no_headers [] (take 16 (drop 24 segment6.ip6)) ≡ false
unfolding is_ipv6_allowed
not_allowed6 = refl

kblocker_hook-drop_packet6_example :
    kblocker_hook inet no_headers true ipv6 lists (packet_of6 segment6) ≡ drop_packet
kblocker_hook-drop_packet6_example =
    kblocker_hook-drop_packet6 inet no_headers lists segment6 blocked segment6-IsSegment6
      not_allowed6 (inl refl) blocked_filled part-IsWithin

-- The same packet, for the cause of it.
dropped : kblocker_hook inet no_headers true ipv4 lists (packet_of segment) ≡ drop_packet
dropped =
    kblocker_hook-drop_packet inet no_headers lists segment blocked segment-IsSegment not_allowed
      (inl refl) blocked_filled part-IsWithin

kblocker_hook-Cause_example :
    (◌≡◌ {A = Bool} true true) × Cause inet no_headers ipv4 lists (packet_of segment)
kblocker_hook-Cause_example =
    kblocker_hook-Cause inet no_headers true ipv4 lists (packet_of segment) dropped

abbrev machine_kernel : Kernel
machine_kernel = record {
  sha256 = λ key. key;
  parse_u64 = λ s. some 0;
  parse_bool = λ s. some false;
}

abbrev session : Session
session = record {
  enabled = true;
  pgp_active = true;
  allow_unload = false;
  state_restored = false;
  pgp_key_consumed = true;
  ref_taken = true;
  unload_key = [];
  pgp_key = [];
  key_hash = 1 ∷ [];
  expiry_boot = 100;
  now_boot = 40;
}

abbrev running : Module
running = record { session = session; lists = lists }

abbrev after_change : Change → Module → Module
after_change = change machine_kernel inet

-- The list of domains is emptied, the session is ended without its key, and a second passes.
abbrev tried : Module
tried = after_change (session_event second_passes) (
    after_change (session_event (write_enabled [] (lit "0")))
      (after_change (write_blocked_domains []) running))

tried-Changes : Changes machine_kernel inet (IsKeylessChange machine_kernel (1 ∷ [])) running tried
tried-Changes =
    changed
      (changed (changed unchanged (write_blocked_domains []) tt)
        (session_event (write_enabled [] (lit "0"))) tt)
      (session_event second_passes) tt

tried_early : tried.session.now_boot < 100
unfolding change handle second enabled_store end_unlocked
tried_early = omega arith

Changes-verdict_example :
    (tried.lists ≡ lists)
    × (verdict machine_kernel inet no_headers tried ipv4 (packet_of segment)
        ≡ verdict machine_kernel inet no_headers running ipv4 (packet_of segment))
Changes-verdict_example =
    Changes-verdict machine_kernel inet no_headers ipv4 (packet_of segment) refl refl tried-Changes
      tried_early

abbrev destination : Text
destination = lit "192.0.2.7"

-- A parser that knows one address.
abbrev one_address : Inet
one_address = record inet {
  in4_pton = λ s. if text_eq s destination then some 3_221_225_991 else none;
}

destination_found : one_address.in4_pton destination ≡ some (u32_of segment.ip 16)
unfolding lit text_eq u32_of u16_of byte_of
destination_found = refl

destination-IsEntry : IsEntry destination
unfolding lit has_prefix
destination-IsEntry = record { filled = refl; no_comment = refl }

destination-mem : destination ∈ split b'\n' (c_text (destination ++ lit "\n"))
unfolding lit split c_text
destination-mem = inl refl

few_lines : length (split b'\n' (c_text (destination ++ lit "\n"))) ≤ max_ips_v4
unfolding lit split c_text
few_lines = omega arith

ip_header : skb_header_pointer (packet_of segment) 0 20 ≡ some segment.ip
unfolding skb_header_pointer zeros
ip_header = refl

five_words : 5 ≤ byte_of segment.ip 0 % 16
unfolding byte_of
five_words = omega arith

blocked_ips_store-drop_packet_example :
    kblocker_hook one_address no_headers true ipv4
      (blocked_ips_store one_address (destination ++ lit "\n") false lists).1
      (packet_of segment)
    ≡ drop_packet
blocked_ips_store-drop_packet_example =
    blocked_ips_store-drop_packet one_address no_headers (destination ++ lit "\n") lists destination
      (packet_of segment) segment.ip destination-mem few_lines destination-IsEntry refl
      destination_found ip_header five_words not_allowed
