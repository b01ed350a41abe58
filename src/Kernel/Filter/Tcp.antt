-- ===== src/Kernel/Filter/Tcp.antt =====
-- A TCP header and payload that carry a ClientHello for a host within a blocked domain.
use kblocker.Base.{
  ℕ, ◌+◌, ◌*◌, ◌/◌, ◌%◌, ◌≤◌, ◌<◌, ◌≡◌, refl, true, false, some, List, [], ◌∷◌, ◌++◌, Text, arith,
  length, length-append, drop, ltb, leb,
}
use kblocker.Base.Parts.{At, At-drop, At-length, At-shift, take-append}
use kblocker.Kernel.Names.{domain_list_contains}
use kblocker.Kernel.Hello.Wire.{Hello, IsHello, handshake, client_hello}
use kblocker.Kernel.Hello.Extract.{kb_sni_extract-client_hello}
use kblocker.Kernel.Filter.{
  drop_packet, Packet, skb_header_pointer, byte_of, u16_of, sni_matches_blocked, copied_length,
  inspect_payload, is_reset, data_offset, inspect_tcp,
}

-- The header with its options, the ClientHello, and what follows it in the packet.
pub record Tcp : Type 0 where
  pub tcp : Text
  pub tcp_options : Text
  pub hello : Hello
  pub rest : Text

abbrev pub tcp_bytes : Tcp → Text
tcp_bytes t = t.tcp ++ (t.tcp_options ++ (client_hello t.hello ++ t.rest))

-- The header says what is there: no reset, and the ClientHello in one record, with a name that the
-- module has room for.
pub record IsTcp (t : Tcp) : Type 0 where
  pub of_tcp : length t.tcp ≡ 20
  pub of_tcp_options : 20 + length t.tcp_options ≡ data_offset t.tcp * 4
  pub not_reset : is_reset t.tcp ≡ false
  pub of_hello : IsHello t.hello
  pub of_record : length (handshake t.hello) ≤ 16384
  pub of_name : length t.hello.host < 256

pub skb_header_pointer-At :
    (p : Packet) (off n : ℕ) (part tail : Text)
    → At p.bytes off (part ++ tail)
    → length part ≡ n
    → skb_header_pointer p off n ≡ some part
unfolding skb_header_pointer
skb_header_pointer-At p off n part tail h size =
    let whole = At-length p.bytes off (part ++ tail) h in
    let inside : ltb (length p.bytes) (off + n) ≡ false =
      ground (arith, whole, size, length-append part tail) in
    rw (inside, At-drop p.bytes off (part ++ tail) h, ← size, take-append part tail) refl

sni_matches-client_hello :
    (domains : List Text) (h : Hello)
    → IsHello h
    → length h.host < 256
    → domain_list_contains h.host domains ≡ true
    → sni_matches_blocked domains (client_hello h) ≡ true
unfolding sni_matches_blocked
sni_matches-client_hello domains h w fits found =
    rw (kb_sni_extract-client_hello h 256 w fits, sni_matches_blocked) found

-- Of a packet that has the whole record all of it is looked at.
copied_length_whole :
    (p : Packet) (doff n v v' t : ℕ)
    → doff + (5 + n) ≤ length p.bytes
    → n ≤ 16384
    → copied_length p doff (0x16 ∷ v ∷ v' ∷ (n / 256) ∷ (n % 256) ∷ t ∷ []) ≡ 5 + n
unfolding copied_length byte_of u16_of
copied_length_whole p doff n v v' t size short = ground arith

-- The payload of a record that holds the whole ClientHello.
inspect_payload-drop :
    (domains : List Text) (p : Packet) (doff : ℕ) (h : Hello) (rest : Text)
    → At p.bytes doff (client_hello h ++ rest)
    → IsHello h
    → length (handshake h) ≤ 16384
    → length h.host < 256
    → domain_list_contains h.host domains ≡ true
    → inspect_payload domains p doff ≡ drop_packet
unfolding inspect_payload byte_of
inspect_payload-drop domains p doff h rest at_hello w short fits found =
    let n = length (handshake h) in
    let hdr : Text = 0x16 ∷ 3 ∷ 1 ∷ (n / 256) ∷ (n % 256) ∷ 0x01 ∷ [] in
    let size : doff + (5 + n) ≤ length p.bytes = omega (
      arith,
      At-length p.bytes doff (client_hello h ++ rest) at_hello,
      length-append (client_hello h) rest,
    ) in
    let some_payload : leb (length p.bytes) doff ≡ false = ground (arith, size) in
    let first : skb_header_pointer p doff 6 ≡ some hdr =
      skb_header_pointer-At p doff 6 hdr (drop 6 (client_hello h) ++ rest) at_hello refl in
    let copied : copied_length p doff hdr ≡ 5 + n =
      copied_length_whole p doff n 3 1 0x01 size short in
    let all : skb_header_pointer p doff (5 + n) ≡ some (client_hello h) =
      skb_header_pointer-At p doff (5 + n) (client_hello h) rest at_hello (omega arith) in
    rw (some_payload, first, copied, all, sni_matches-client_hello domains h w fits found) refl

pub inspect_tcp-drop :
    (domains : List Text) (p : Packet) (thoff : ℕ) (t : Tcp)
    → IsTcp t
    → At p.bytes thoff (tcp_bytes t)
    → domain_list_contains t.hello.host domains ≡ true
    → inspect_tcp domains p thoff ≡ drop_packet
unfolding inspect_tcp
inspect_tcp-drop domains p thoff t w place found =
    let at_options = At-shift p.bytes thoff (thoff + 20) t.tcp _ place (omega (arith, w.of_tcp)) in
    let at_payload =
      At-shift p.bytes (thoff + 20) (thoff + data_offset t.tcp * 4) t.tcp_options _ at_options
        (omega (arith, w.of_tcp_options)) in
    let header = skb_header_pointer-At p thoff 20 t.tcp _ place w.of_tcp in
    let long : ltb (data_offset t.tcp) 5 ≡ false = ground (arith, w.of_tcp_options) in
    rw (header, inspect_tcp, w.not_reset, long)
      (inspect_payload-drop domains p _ t.hello t.rest at_payload w.of_hello w.of_record w.of_name
        found)
