-- ===== src/Address.antt =====
-- _include/hao_internet_address.h and app/net/hao_internet_address.cpp: the address of a socket. The
-- union of the address structures is its bytes by offset, on a little-endian host: the family stands
-- at 0, the port at 2, an IPv4 address at 4 and an IPv6 address at 8. What inet_ntop and inet_pton
-- give, and the bytes that the union had before, are arguments.
pub mod Made
use hao_server.Base.{
  ℕ, ◌+◌, ◌-◌, ◌*◌, ◌/◌, ◌%◌, ◌^◌, Bool, true, false, ◌&&◌, ◌||◌, List, [], ◌∷◌, ◌++◌, Option, none,
  some, ◌>>=◌, ltb, leb, ◌==◌, if◌then◌else◌, take, length, replicate, get_or,
}
use hao_server.Base.Decimal.{decimal}

pub data IpType : Type 0 where
  ipv4 ipv6 : IpType

pub data AddressType : Type 0 where
  loopback any : AddressType

abbrev pub InternetAddress : Type 0
InternetAddress = ℕ → ℕ

-- `bytes` are written from offset `i` on.
abbrev pub write : InternetAddress → ℕ → List ℕ → InternetAddress
write a i bytes j = if leb i j && ltb j (i + length bytes) then get_or bytes (j - i) 0 else a j

-- AF_INET and AF_INET6
abbrev pub af_inet : ℕ
af_inet = 2

abbrev pub af_inet6 : ℕ
af_inet6 = 10

-- A family and an address of netinet/in.h as they lie in memory; htons turns a port around.
abbrev pub host_16 : ℕ → List ℕ
host_16 n = (n % 256) ∷ (n / 256 % 256) ∷ []

abbrev pub host_32 : ℕ → List ℕ
host_32 n = (n % 256) ∷ (n / 256 % 256) ∷ (n / 2 ^ 16 % 256) ∷ (n / 2 ^ 24 % 256) ∷ []

abbrev pub htons : ℕ → List ℕ
htons port = (port / 256 % 256) ∷ (port % 256) ∷ []

-- in6addr_loopback and in6addr_any
abbrev pub in6_of : AddressType → List ℕ
in6_of loopback = replicate 15 0 ++ 1 ∷ []
in6_of any = replicate 16 0

-- INADDR_LOOPBACK and INADDR_ANY
abbrev pub in4_of : AddressType → ℕ
in4_of loopback = 0x7f000001
in4_of any = 0

-- InternetAddress::InternetAddress(uint16_t, AddressType, IpType)
unfoldable pub of_port : InternetAddress → ℕ → AddressType → IpType → InternetAddress
of_port before port type ipv6 =
    let zeroed = write before 0 (replicate 28 0) in
    let with_family = write zeroed 0 (host_16 af_inet6) in
    let with_address = write with_family 8 (in6_of type) in write with_address 2 (htons port)
of_port before port type ipv4 =
    let zeroed = write before 0 (replicate 16 0) in
    let with_family = write zeroed 0 (host_16 af_inet) in
    let with_address = write with_family 4 (host_32 (in4_of type)) in
    write with_address 2 (htons port)

-- The bytes of c_str up to its end
abbrev pub c_str : List ℕ → List ℕ
c_str [] = []
c_str (c ∷ cs) = let rest = c_str cs in if c == 0 then [] else c ∷ rest

abbrev pub has_colon : List ℕ → Bool
has_colon [] = false
has_colon (c ∷ cs) = (c == b':') || has_colon cs

abbrev pub is_ipv6 : IpType → Bool
is_ipv6 ipv6 = true
is_ipv6 ipv4 = false

-- InternetAddress::InternetAddress(string&, uint16_t, IpType); `none` is the exit of the process.
unfoldable pub of_text :
    (ℕ → List ℕ → Option (List ℕ)) → InternetAddress → List ℕ → ℕ → IpType → Option InternetAddress
of_text inet_pton before ip port type =
    if is_ipv6 type || has_colon (c_str ip)
    then (let zeroed = write before 0 (replicate 28 0) in
        let made = write (write zeroed 0 (host_16 af_inet6)) 2 (htons port) in
        inet_pton af_inet6 (c_str ip) >>= λ bytes. some (write made 0 bytes))
    else (let zeroed = write before 0 (replicate 16 0) in
        let made = write (write zeroed 0 (host_16 af_inet)) 2 (htons port) in
        inet_pton af_inet (c_str ip) >>= λ bytes. some (write made 0 bytes))

-- InternetAddress::Family, Port and Size
unfoldable pub family : InternetAddress → ℕ
family a = a 0 + 256 * a 1

unfoldable pub port_of : InternetAddress → ℕ
port_of a = 256 * a 2 + a 3

unfoldable pub size : InternetAddress → ℕ
size a = if family a == af_inet then 16 else 28

-- The four bytes that inet_ntop is given, which reads both addresses as IPv4
abbrev pub shown_4 : InternetAddress → List ℕ
shown_4 a = a 4 ∷ a 5 ∷ a 6 ∷ a 7 ∷ []

abbrev pub shown_6 : InternetAddress → List ℕ
shown_6 a = a 8 ∷ a 9 ∷ a 10 ∷ a 11 ∷ []

abbrev pub unknown_af : List ℕ
unknown_af = b'U' ∷ b'n' ∷ b'k' ∷ b'n' ∷ b'o' ∷ b'w' ∷ b'n' ∷ b' ' ∷ b'A' ∷ b'F' ∷ []

module _ (inet_ntop : List ℕ → List ℕ) where
  -- InternetAddress::ToIP
  unfoldable pub to_ip : InternetAddress → List ℕ
  to_ip a =
      if family a == af_inet
      then inet_ntop (shown_4 a)
      else if family a == af_inet6
      then inet_ntop (shown_6 a)
      else unknown_af

  -- snprintf of ":%u" behind the address, into a buffer of 64 bytes
  abbrev pub with_port : List ℕ → ℕ → List ℕ
  with_port ip port = ip ++ take (64 - length ip - 1) (b':' ∷ decimal port)

  -- InternetAddress::ToIPPort
  unfoldable pub to_ip_port : InternetAddress → List ℕ
  to_ip_port a =
      if family a == af_inet
      then with_port (inet_ntop (shown_4 a)) (port_of a)
      else if family a == af_inet6
      then with_port (inet_ntop (shown_6 a)) (port_of a)
      else unknown_af
