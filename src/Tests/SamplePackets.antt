-- ===== src/Tests/SamplePackets.antt =====
-- A packet with a ClientHello for www.a.b, and lists that block it.
use kblocker.Base.{some, ℕ, ◌≡◌, refl, false, Option, none, [], ◌∷◌, Text, arith}
use kblocker.Kernel.{zeros}
use kblocker.Kernel.Hello.Wire.{Hello, IsHello}
use kblocker.Kernel.Lists.{Inet, Lists}
use kblocker.Kernel.Filter.{Packet, byte_of, u16_of, u32_of, is_ip_allowed, is_reset, data_offset}
use kblocker.Kernel.Filter.Tcp.{Tcp, IsTcp}
use kblocker.Kernel.Filter.Segments.{Segment6, IsSegment6, Segment, IsSegment}

abbrev pub blocked : Text
blocked = b'a' ∷ b'.' ∷ b'b' ∷ []

abbrev pub host : Text
host = b'w' ∷ b'w' ∷ b'w' ∷ b'.' ∷ blocked

abbrev pub hello : Hello
hello = record {
  front = zeros 37;
  session = [];
  ciphers = 0x13 ∷ 0x01 ∷ [];
  compressions = 0 ∷ [];
  before = (23, []) ∷ [];
  host = host;
  after = [];
}

pub hello-IsHello : IsHello hello
unfolding zeros
hello-IsHello = record {
  of_front = refl;
  of_ciphers = omega arith;
  of_before = ((omega arith, omega arith, omega arith), tt);
  of_host = omega arith;
  short = omega arith;
}

abbrev pub transport : Tcp
transport = record {
  tcp =
      0xd0 ∷ 0 ∷ 1 ∷ 187 ∷ 0 ∷ 0 ∷ 0 ∷ 0 ∷ 0 ∷ 0 ∷ 0 ∷ 0 ∷ 0x50 ∷ 0x18 ∷ 0 ∷ 0 ∷ 0 ∷ 0 ∷ 0 ∷ 0 ∷ [];
  tcp_options = [];
  hello = hello;
  rest = 0x17 ∷ 3 ∷ 3 ∷ [];
}

transport-IsTcp : IsTcp transport
unfolding byte_of data_offset is_reset zeros
transport-IsTcp = record {
  of_tcp = refl;
  of_tcp_options = refl;
  not_reset = refl;
  of_hello = hello-IsHello;
  of_record = omega arith;
  of_name = omega arith;
}

abbrev pub segment : Segment
segment = record {
  link = [];
  ip = 0x45 ∷ 0 ∷ 0 ∷ 0 ∷ 0 ∷ 0 ∷ 0 ∷ 0 ∷ 64 ∷ 6 ∷ 0 ∷ 0 ∷ 10 ∷ 0 ∷ 0 ∷ 1 ∷ 192 ∷ 0 ∷ 2 ∷ 7 ∷ [];
  ip_options = [];
  transport = transport;
}

pub segment-IsSegment : IsSegment segment
unfolding byte_of u16_of
segment-IsSegment = record {
  of_ip = refl;
  of_ip_options = refl;
  is_tcp = refl;
  first_fragment = refl;
  of_transport = transport-IsTcp;
}

abbrev pub segment6 : Segment6
segment6 = record { link = 1 ∷ 2 ∷ []; ip6 = 0x60 ∷ zeros 39; headers = []; transport = transport }

-- There are no extension headers to pass over.
abbrev pub no_headers : Packet → ℕ → ℕ → Option (ℕ × ℕ × ℕ)
no_headers p off protocol = some (off, 6, 0)

pub segment6-IsSegment6 : IsSegment6 no_headers segment6
unfolding zeros
segment6-IsSegment6 = record {
  of_ip6 = refl;
  frag_off = 0;
  skipped = refl;
  first_fragment = refl;
  of_transport = transport-IsTcp;
}

abbrev pub lists : Lists
lists = record {
  blocked_v4 = [];
  blocked_v6 = [];
  domains = blocked ∷ [];
  allowed_v4 = record { addr = 0x0a000000; mask = 0xff000000 } ∷ [];
  allowed_v6 = [];
}

abbrev pub inet : Inet
inet = record {
  in4_pton = λ s. none;
  in6_pton = λ s. none;
  parse_u8 = λ s. none;
  ipv6_addr_prefix = λ a n. a;
  ipv6_prefix_equal = λ a b n. false;
}

pub not_allowed : is_ip_allowed lists.allowed_v4 (u32_of segment.ip 16) ≡ false
unfolding is_ip_allowed u32_of u16_of byte_of
not_allowed = refl
