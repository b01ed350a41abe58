-- ===== src/Kernel/Filter/Reasons.antt =====
-- What the inspection of TCP and UDP drops.
use kblocker.Base.{
  ℕ, ◌+◌, ◌*◌, ◌≡◌, refl, ◌==◌, ◌⊎◌, inl, inr, Bool, true, false, some, List, [], ◌∷◌, ◌∈◌, Text,
  arith, if◌then◌else◌, Bool-cases, Option-cases,
}
use kblocker.Kernel.Names.{host_part, domain_list_contains}
use kblocker.Kernel.Names.Matches.{IsWithin, any_matches-IsWithin}
use kblocker.Kernel.Hello.{Sni, no_name, outside, stuck, name, kb_sni_extract}
use kblocker.Kernel.Filter.{
  accept, drop_packet, Packet, skb_header_pointer, u16_of, is_ip_blocked, is_reset,
  sni_matches_blocked, copied_length, inspect_payload, data_offset, inspect_tcp, inspect_udp,
  inspect_transport,
}

-- Behind a TCP header without RST at `thoff` comes a ClientHello for a host within one of the
-- domains.
pub record IsNamed (domains : List Text) (p : Packet) (protocol thoff : ℕ) : Type 0 where
  pub is_tcp : protocol ≡ 6
  pub header : Text
  pub of_header : skb_header_pointer p thoff 20 ≡ some header
  pub not_reset : is_reset header ≡ false
  pub n : ℕ
  pub part : Text
  pub host : Text
  pub domain : Text
  pub of_part : skb_header_pointer p (thoff + data_offset header * 4) n ≡ some part
  pub of_host : kb_sni_extract part 256 ≡ name host
  pub listed : domain ∈ domains
  pub within : IsWithin (host_part host) domain

-- At `thoff` is a UDP header for port 443.
pub record IsQuic (p : Packet) (protocol thoff : ℕ) : Type 0 where
  pub is_udp : protocol ≡ 17
  pub header : Text
  pub of_header : skb_header_pointer p thoff 8 ≡ some header
  pub of_port : u16_of header 2 ≡ 443

pub is_ip_blocked-mem : (ips : List ℕ) (a : ℕ) → is_ip_blocked ips a ≡ true → a ∈ ips
unfolding is_ip_blocked
is_ip_blocked-mem [] a h = absurd (cc)
is_ip_blocked-mem (b ∷ ips) a h = elim (Bool-cases (b == a)) [
  | inl same ↦ inl (ground (arith, same))
  | inr other ↦ inr (is_ip_blocked-mem ips a (ground (arith, h, other)))
]

Sni-cases :
    (o : Sni) → ((t : Text) × (o ≡ name t)) ⊎ ((o ≡ no_name) ⊎ ((o ≡ outside) ⊎ (o ≡ stuck)))
Sni-cases (name t) = inl (t, refl)
Sni-cases no_name = inr (inl refl)
Sni-cases outside = inr (inr (inl refl))
Sni-cases stuck = inr (inr (inr refl))

sni-cases :
    (domains : List Text) (part : Text)
    → sni_matches_blocked domains part ≡ true
    → (t : Text) × (kb_sni_extract part 256 ≡ name t) × (domain_list_contains t domains ≡ true)
unfolding sni_matches_blocked
sni-cases domains part h = elim (Sni-cases (kb_sni_extract part 256)) [
  | inl (t, found) ↦ (t, found, ground (arith, h, found))
  | inr (inl e) ↦ absurd (ground (arith, h, e))
  | inr (inr (inl e)) ↦ absurd (ground (arith, h, e))
  | inr (inr (inr e)) ↦ absurd (ground (arith, h, e))
]

if-drop_packet : (b : Bool) → (if b then drop_packet else accept) ≡ drop_packet → b ≡ true
if-drop_packet true h = refl
if-drop_packet false h = absurd (cc)

-- What the payload at `doff` holds.
record IsHelloAt (domains : List Text) (p : Packet) (doff : ℕ) : Type 0 where
  n : ℕ
  part : Text
  host : Text
  domain : Text
  of_part : skb_header_pointer p doff n ≡ some part
  of_host : kb_sni_extract part 256 ≡ name host
  listed : domain ∈ domains
  within : IsWithin (host_part host) domain

inspect_payload-IsHelloAt :
    (domains : List Text) (p : Packet) (doff : ℕ)
    → inspect_payload domains p doff ≡ drop_packet
    → IsHelloAt domains p doff
unfolding inspect_payload domain_list_contains
inspect_payload-IsHelloAt domains p doff h = elim (Option-cases (skb_header_pointer p doff 6)) [
  | inl short ↦ absurd (ground (arith, h, short))
  | inr (hdr, first) ↦ elim (Option-cases (skb_header_pointer p doff (copied_length p doff hdr))) [
    | inl short ↦ absurd (ground (arith, h, first, short))
    | inr (buf, copied) ↦
        let match : sni_matches_blocked domains buf ≡ true = ground (arith, h, first, copied) in
        let (t, found, contained) = sni-cases domains buf match in
        let (d, listed, within) = any_matches-IsWithin (host_part t) domains contained in
        record {
          n = copied_length p doff hdr;
          part = buf;
          host = t;
          domain = d;
          of_part = copied;
          of_host = found;
          listed = listed;
          within = within;
        }
  ]
]

inspect_tcp-IsNamed :
    (domains : List Text) (p : Packet) (protocol thoff : ℕ)
    → protocol ≡ 6
    → inspect_tcp domains p thoff ≡ drop_packet
    → IsNamed domains p protocol thoff
unfolding inspect_tcp
inspect_tcp-IsNamed domains p protocol thoff tcp h =
    elim (Option-cases (skb_header_pointer p thoff 20)) [
      | inl short ↦ absurd (ground (arith, h, short))
      | inr (th, header) ↦ elim (Bool-cases (is_reset th)) [
        | inl reset ↦ absurd (ground (arith, h, header, reset))
        | inr other ↦
            let at_payload =
              inspect_payload-IsHelloAt domains p (thoff + data_offset th * 4)
                (ground (arith, h, header, other)) in
            record {
              is_tcp = tcp;
              header = th;
              of_header = header;
              not_reset = other;
              n = at_payload.n;
              part = at_payload.part;
              host = at_payload.host;
              domain = at_payload.domain;
              of_part = at_payload.of_part;
              of_host = at_payload.of_host;
              listed = at_payload.listed;
              within = at_payload.within;
            }
      ]
    ]

inspect_udp-IsQuic :
    (p : Packet) (protocol thoff : ℕ)
    → protocol ≡ 17
    → inspect_udp p thoff ≡ drop_packet
    → IsQuic p protocol thoff
unfolding inspect_udp
inspect_udp-IsQuic p protocol thoff udp h = elim (Option-cases (skb_header_pointer p thoff 8)) [
  | inl short ↦ absurd (ground (arith, h, short))
  | inr (uh, header) ↦ record {
    is_udp = udp;
    header = uh;
    of_header = header;
    of_port = ground (arith, h, header);
  }
]

pub inspect_transport-cases :
    (domains : List Text) (p : Packet) (protocol thoff : ℕ)
    → inspect_transport domains p protocol thoff ≡ drop_packet
    → IsQuic p protocol thoff ⊎ IsNamed domains p protocol thoff
unfolding inspect_transport
inspect_transport-cases domains p protocol thoff h = elim (Bool-cases (protocol == 6)) [
  | inl tcp ↦
      inr (
        inspect_tcp-IsNamed domains p protocol thoff (ground (arith, tcp)) (ground (arith, h, tcp)))
  | inr other ↦ elim (Bool-cases (protocol == 17)) [
    | inl udp ↦
        inl (
          inspect_udp-IsQuic p protocol thoff (ground (arith, udp)) (ground (arith, h, other, udp)))
    | inr neither ↦ absurd (ground (arith, h, other, neither))
  ]
]
