-- ===== src/Kernel/Filter/Segments.antt =====
-- A TCP segment that carries a ClientHello for a host within a blocked domain is dropped.
use kblocker.Base.{
  take, drop, ℕ, ◌+◌, ◌*◌, ◌/◌, ◌/◌, ◌%◌, ◌≡◌, ◌≢◌, refl, ◌∙◌, ◌==◌, true, false, Option, some,
  List, [], ◌∷◌, ◌++◌, ◌∈◌, Text, arith, length, drop, ltb, Bool-cases, inl, inr,
}
use kblocker.Base.Parts.{At, At-start, At-shift}
use kblocker.Kernel.Names.{host_part, domain_list_contains}
use kblocker.Kernel.Names.Matches.{IsWithin, any_matches-mem}
use kblocker.Kernel.Lists.{Inet, Lists}
use kblocker.Kernel.Filter.{
  Verdict, accept, drop_packet, ipv4, ipv6, is_ipv6_blocked, is_ipv6_allowed, inspect_v6,
  kblocker_hook_v6, Packet, byte_of, u16_of, u32_of, is_ip_blocked, is_ip_allowed,
  inspect_transport, inspect_v4, kblocker_hook_v4, kblocker_hook,
}
use kblocker.Kernel.Filter.Tcp.{Tcp, IsTcp, tcp_bytes, skb_header_pointer-At, inspect_tcp-drop}

-- What comes before the network header, the header with its options, and what it carries.
pub record Segment : Type 0 where
  pub link : Text
  pub ip : Text
  pub ip_options : Text
  pub transport : Tcp

abbrev pub packet_of : Segment → Packet
packet_of s = record {
  bytes = s.link ++ (s.ip ++ (s.ip_options ++ tcp_bytes s.transport));
  network_offset = length s.link;
}

-- The header says what is there: TCP, unfragmented or in the first fragment.
pub record IsSegment (s : Segment) : Type 0 where
  pub of_ip : length s.ip ≡ 20
  pub of_ip_options : 20 + length s.ip_options ≡ byte_of s.ip 0 % 16 * 4
  pub is_tcp : byte_of s.ip 9 ≡ 6
  pub first_fragment : u16_of s.ip 6 % 8192 ≡ 0
  pub of_transport : IsTcp s.transport

-- The same over IPv6, with extension headers.
pub record Segment6 : Type 0 where
  pub link : Text
  pub ip6 : Text
  pub headers : Text
  pub transport : Tcp

abbrev pub packet_of6 : Segment6 → Packet
packet_of6 s = record {
  bytes = s.link ++ (s.ip6 ++ (s.headers ++ tcp_bytes s.transport));
  network_offset = length s.link;
}

-- ipv6_skip_exthdr passes over the extension headers and finds TCP behind them, in the first
-- fragment.
pub record IsSegment6 (skip : Packet → ℕ → ℕ → Option (ℕ × ℕ × ℕ)) (s : Segment6) : Type 0 where
  pub of_ip6 : length s.ip6 ≡ 40
  pub frag_off : ℕ
  pub skipped :
      skip (packet_of6 s) (length s.link + 40) (byte_of s.ip6 6)
      ≡ some (length s.link + 40 + length s.headers, 6, frag_off)
  pub first_fragment : frag_off / 8 ≡ 0
  pub of_transport : IsTcp s.transport

ip_header_place :
    (s : Segment)
    → At (packet_of s).bytes (length s.link) (s.ip ++ (s.ip_options ++ tcp_bytes s.transport))
ip_header_place s =
    At-shift (packet_of s).bytes 0 (length s.link) s.link _ (At-start _) (omega arith)

tcp_header_place :
    (s : Segment)
    → IsSegment s
    → At (packet_of s).bytes (length s.link + byte_of s.ip 0 % 16 * 4) (tcp_bytes s.transport)
tcp_header_place s w =
    At-shift (packet_of s).bytes (length s.link + 20) _ s.ip_options _
      (At-shift (packet_of s).bytes (length s.link) (length s.link + 20) s.ip _ (ip_header_place s)
        (omega (arith, w.of_ip)))
      (omega (arith, w.of_ip_options))

some_domains :
    (domains : List Text) (d : Text) (x : Verdict)
    → d ∈ domains
    → elim domains [ [] ↦ accept | _ ↦ x ] ≡ x
some_domains [] d x m = absurd m
some_domains (e ∷ ds) d x m = refl

-- While a session runs, an IPv4 packet is dropped that is a TCP segment without RST,
-- unfragmented or the first fragment, whose payload begins with one TLS record, of version 3.1
-- and at most 16384 bytes, that holds a whole ClientHello with one host name of fewer than 256
-- bytes, which is a nonempty blocked domain or lies within one, unless its destination is
-- allowed.
pub kblocker_hook-drop_packet :
    (I : Inet) (skip : Packet → ℕ → ℕ → Option (ℕ × ℕ × ℕ)) (lists : Lists) (s : Segment) (d : Text)
    → IsSegment s
    → is_ip_allowed lists.allowed_v4 (u32_of s.ip 16) ≡ false
    → d ∈ lists.domains
    → d ≢ []
    → IsWithin (host_part s.transport.hello.host) d
    → kblocker_hook I skip true ipv4 lists (packet_of s) ≡ drop_packet
unfolding kblocker_hook kblocker_hook_v4 inspect_v4 inspect_transport domain_list_contains
kblocker_hook-drop_packet I skip lists s d w not_allowed listed some_d within =
    let found : domain_list_contains s.transport.hello.host lists.domains ≡ true =
      any_matches-mem (host_part s.transport.hello.host) d lists.domains listed some_d within in
    let header =
      skb_header_pointer-At (packet_of s) (length s.link) 20 s.ip _ (ip_header_place s) w.of_ip in
    let long : ltb (byte_of s.ip 0 % 16) 5 ≡ false = ground (arith, w.of_ip_options) in
    let whole : (u16_of s.ip 6 % 8192 == 0) ≡ true = ground (arith, w.first_fragment) in
    let tcp : (byte_of s.ip 9 == 6) ≡ true = ground (arith, w.is_tcp) in
    elim (Bool-cases (is_ip_blocked lists.blocked_v4 (u32_of s.ip 16))) [
      | inl blocked ↦ rw (header, kblocker_hook_v4, long, not_allowed, blocked) refl
      | inr other ↦
          rw (header, kblocker_hook_v4, long, not_allowed, other)
            (some_domains lists.domains d _ listed
              ∙ rw (whole, tcp)
                  (inspect_tcp-drop lists.domains (packet_of s) _ s.transport w.of_transport
                    (tcp_header_place s w) found))
    ]

-- While a session runs, an IPv6 packet is dropped in which ipv6_skip_exthdr finds, behind the
-- extension headers, a TCP segment without RST, unfragmented or the first fragment, whose
-- payload begins with one TLS record, of version 3.1 and at most 16384 bytes, that holds a whole
-- ClientHello with one host name of fewer than 256 bytes, which is a nonempty blocked domain or
-- lies within one, unless its destination is allowed.
pub kblocker_hook-drop_packet6 :
    (I : Inet) (skip : Packet → ℕ → ℕ → Option (ℕ × ℕ × ℕ)) (lists : Lists) (s : Segment6)
    (d : Text)
    → IsSegment6 skip s
    → is_ipv6_allowed I skip lists.allowed_v6 (take 16 (drop 24 s.ip6)) ≡ false
    → d ∈ lists.domains
    → d ≢ []
    → IsWithin (host_part s.transport.hello.host) d
    → kblocker_hook I skip true ipv6 lists (packet_of6 s) ≡ drop_packet
unfolding kblocker_hook kblocker_hook_v6 inspect_v6 inspect_transport domain_list_contains
kblocker_hook-drop_packet6 I skip lists s d w not_allowed listed some_d within =
    let found : domain_list_contains s.transport.hello.host lists.domains ≡ true =
      any_matches-mem (host_part s.transport.hello.host) d lists.domains listed some_d within in
    let p = packet_of6 s in
    let at_ip = At-shift p.bytes 0 (length s.link) s.link _ (At-start _) (omega arith) in
    let at_headers =
      At-shift p.bytes (length s.link) (length s.link + 40) s.ip6 _ at_ip
        (omega (arith, w.of_ip6)) in
    let at_tcp =
      At-shift p.bytes (length s.link + 40) (length s.link + 40 + length s.headers) s.headers _
        at_headers (omega arith) in
    let header = skb_header_pointer-At p (length s.link) 40 s.ip6 _ at_ip w.of_ip6 in
    let whole : (w.frag_off / 8 == 0) ≡ true = ground (arith, w.first_fragment) in
    elim (Bool-cases (is_ipv6_blocked lists.blocked_v6 (take 16 (drop 24 s.ip6)))) [
      | inl blocked ↦ rw (header, kblocker_hook_v6, not_allowed, blocked) refl
      | inr other ↦
          rw (header, kblocker_hook_v6, not_allowed, other)
            (some_domains lists.domains d _ listed
              ∙ rw (w.skipped, whole)
                  (inspect_tcp-drop lists.domains p _ s.transport w.of_transport at_tcp found))
    ]
