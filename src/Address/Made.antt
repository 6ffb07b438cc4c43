-- ===== src/Address/Made.antt =====
-- What the constructors of InternetAddress make, app/net/hao_internet_address.cpp.
use hao_server.Base.{
  ℕ, ◌+◌, ◌-◌, ◌*◌, ◌^◌, ◌≤◌, ◌<◌, ◌≡◌, refl, ap, List, [], ◌∷◌, ◌++◌, Option, none, some, true,
  false, ◌||◌, ◌>>=◌, arith, take, length, take_all, ◌/◌, ◌%◌, ◌&&◌, leb, replicate, subst, get_or,
  ltb, if◌then◌else◌,
}
use mathlib.Core.Option.{some-injective}
use hao_server.Base.Decimal.{decimal, length-decimal}
use hao_server.Address.{
  InternetAddress, IpType, ipv4, ipv6, AddressType, loopback, any, of_port, of_text, family,
  port_of, size, to_ip_port, host_16, htons, with_port, write, shown_4, is_ipv6, has_colon, c_str,
  af_inet, af_inet6,
}

-- The bytes of the address in the order of the network
abbrev pub address_bytes : IpType → InternetAddress → List ℕ
address_bytes ipv4 a = shown_4 a
address_bytes ipv6 a =
    a 8
    ∷ a 9
    ∷ a 10
    ∷ a 11
    ∷ a 12
    ∷ a 13
    ∷ a 14
    ∷ a 15
    ∷ a 16
    ∷ a 17
    ∷ a 18
    ∷ a 19
    ∷ a 20
    ∷ a 21
    ∷ a 22
    ∷ a 23
    ∷ []

-- 1.0.0.127 where IPv4 has 127.0.0.1 for the loopback address
abbrev pub expected_bytes : IpType → AddressType → List ℕ
expected_bytes ipv4 loopback = 1 ∷ 0 ∷ 0 ∷ 127 ∷ []
expected_bytes ipv4 any = 0 ∷ 0 ∷ 0 ∷ 0 ∷ []
expected_bytes ipv6 loopback = 0 ∷ 0 ∷ 0 ∷ 0 ∷ 0 ∷ 0 ∷ 0 ∷ 0 ∷ 0 ∷ 0 ∷ 0 ∷ 0 ∷ 0 ∷ 0 ∷ 0 ∷ 1 ∷ []
expected_bytes ipv6 any = 0 ∷ 0 ∷ 0 ∷ 0 ∷ 0 ∷ 0 ∷ 0 ∷ 0 ∷ 0 ∷ 0 ∷ 0 ∷ 0 ∷ 0 ∷ 0 ∷ 0 ∷ 0 ∷ []

abbrev pub family_of : IpType → ℕ
family_of ipv4 = af_inet
family_of ipv6 = af_inet6

abbrev pub size_of : IpType → ℕ
size_of ipv4 = 16
size_of ipv6 = 28

-- The address that ToIPPort shows: of an IPv6 address it is 0.0.0.0.
abbrev pub shown : IpType → AddressType → List ℕ
shown ipv4 type = expected_bytes ipv4 type
shown ipv6 type = 0 ∷ 0 ∷ 0 ∷ 0 ∷ []

with_port_whole :
    (ip : List ℕ) (port : ℕ)
    → length ip ≤ 15
    → port < 2 ^ 16
    → take (64 - length ip - 1) (b':' ∷ decimal port) ≡ b':' ∷ decimal port
with_port_whole ip port short fits =
    take_all (64 - length ip - 1) (b':' ∷ decimal port)
      (omega (arith, short, length-decimal 4 port (omega (arith, fits))))

turned_twice : (port : ℕ) → port < 2 ^ 16 → 256 * (port / 256 % 256) + port % 256 ≡ port
turned_twice port fits = omega (arith, fits)

shown_whole :
    (inet_ntop : List ℕ → List ℕ) (port : ℕ) (bytes : List ℕ)
    → ((bytes : List ℕ) → length (inet_ntop bytes) ≤ 15)
    → port < 2 ^ 16
    → with_port inet_ntop (inet_ntop bytes) (256 * (port / 256 % 256) + port % 256)
      ≡ inet_ntop bytes ++ b':' ∷ decimal port
shown_whole inet_ntop port bytes short fits =
    rw (turned_twice port fits)
      (ap (λ l. inet_ntop bytes ++ l) (with_port_whole (inet_ntop bytes) port (short bytes) fits))

-- An address made of a port has the family, the size and the port that were asked for. Its bytes
-- are those of the wildcard or the loopback address, but of 1.0.0.127 for the IPv4 loopback. ToIPPort
-- shows an IPv4 address and the port, and 0.0.0.0 for an IPv6 address.
pub of_port_lem :
    (inet_ntop : List ℕ → List ℕ) (before : InternetAddress) (port : ℕ) (type : AddressType)
    (ip : IpType)
    → ((bytes : List ℕ) → length (inet_ntop bytes) ≤ 15)
    → port < 2 ^ 16
    → let a = of_port before port type ip in
      (family a ≡ family_of ip)
      × (size a ≡ size_of ip)
      × (port_of a ≡ port)
      × (address_bytes ip a ≡ expected_bytes ip type)
      × (to_ip_port inet_ntop a ≡ inet_ntop (shown ip type) ++ b':' ∷ decimal port)
unfolding of_port family size port_of to_ip_port
of_port_lem inet_ntop before port loopback ipv4 short fits = (
  refl,
  refl,
  turned_twice port fits,
  refl,
  shown_whole inet_ntop port (shown ipv4 loopback) short fits,
)
of_port_lem inet_ntop before port any ipv4 short fits = (
  refl,
  refl,
  turned_twice port fits,
  refl,
  shown_whole inet_ntop port (shown ipv4 any) short fits,
)
of_port_lem inet_ntop before port loopback ipv6 short fits = (
  refl,
  refl,
  turned_twice port fits,
  refl,
  shown_whole inet_ntop port (shown ipv6 loopback) short fits,
)
of_port_lem inet_ntop before port any ipv6 short fits = (
  refl,
  refl,
  turned_twice port fits,
  refl,
  shown_whole inet_ntop port (shown ipv6 any) short fits,
)

write-inside :
    (a : InternetAddress) (bytes : List ℕ) (j : ℕ)
    → j < length bytes
    → write a 0 bytes j ≡ get_or bytes j 0
write-inside a bytes j lt =
    let e : (leb 0 j && ltb j (0 + length bytes)) ≡ true = ground (arith, lt) in
    let z : j - 0 ≡ j = omega arith in rw e (ap (λ k. get_or bytes k 0) z)

-- The family and the port of an address that these bytes were written over
abbrev pub IsOverwritten : InternetAddress → List ℕ → Type 0
IsOverwritten a bytes =
    (family a ≡ get_or bytes 0 0 + 256 * get_or bytes 1 0)
    × (port_of a ≡ 256 * get_or bytes 2 0 + get_or bytes 3 0)

write-IsOverwritten :
    (a : InternetAddress) (bytes : List ℕ)
    → 4 ≤ length bytes
    → IsOverwritten (write a 0 bytes) bytes
unfolding family port_of
write-IsOverwritten a bytes long =
    let at : (j : ℕ) → j < 4 → write a 0 bytes j ≡ get_or bytes j 0 =
      λ j lt. write-inside a bytes j (omega (arith, long, lt)) in
    (
      omega (arith, at 0 (omega arith), at 1 (omega arith)),
      omega (arith, at 2 (omega arith), at 3 (omega arith)),
    )

overwritten :
    (a made : InternetAddress) (answer : Option (List ℕ))
    → ((bytes : List ℕ) → answer ≡ some bytes → 4 ≤ length bytes)
    → (answer >>= λ bytes. some (write made 0 bytes)) ≡ some a
    → (bytes : List ℕ) × (answer ≡ some bytes) × IsOverwritten a bytes
overwritten a made none sized e = absurd (cc e)
overwritten a made (some bytes) sized e = (
  bytes,
  refl,
  subst (λ w. IsOverwritten w bytes) (some-injective _ _ e)
      (write-IsOverwritten made bytes (sized bytes refl)),
)

-- The family whose text the constructor reads
abbrev pub family_read : List ℕ → IpType → ℕ
family_read ip type = if is_ipv6 type || has_colon (c_str ip) then af_inet6 else af_inet

-- What inet_pton gives has at least four bytes. An address that is made of a text has lost the
-- family and the port that were asked for: both are bytes of the address, whatever the port was.
pub of_text_lem :
    (inet_pton : ℕ → List ℕ → Option (List ℕ)) (before : InternetAddress) (ip : List ℕ) (port : ℕ)
    (type : IpType) (a : InternetAddress)
    → ((f : ℕ) (text bytes : List ℕ) → inet_pton f text ≡ some bytes → 4 ≤ length bytes)
    → of_text inet_pton before ip port type ≡ some a
    → (bytes : List ℕ) × (inet_pton (family_read ip type) (c_str ip) ≡ some bytes)
      × IsOverwritten a bytes
unfolding of_text
of_text_lem inet_pton before ip port type a sized =
    let text = c_str ip in
    let v6 = write (write (write before 0 (replicate 28 0)) 0 (host_16 af_inet6)) 2 (htons port) in
    let v4 = write (write (write before 0 (replicate 16 0)) 0 (host_16 af_inet)) 2 (htons port) in
    elim (is_ipv6 type || has_colon text)
      as (λ b.
        (if b
            then (inet_pton af_inet6 text >>= λ bytes. some (write v6 0 bytes))
            else (inet_pton af_inet text >>= λ bytes. some (write v4 0 bytes)))
          ≡ some a
        → (bytes : List ℕ) × (inet_pton (if b then af_inet6 else af_inet) text ≡ some bytes)
          × IsOverwritten a bytes) [
            | true ↦ overwritten a v6 (inet_pton af_inet6 text) (sized af_inet6 text)
            | false ↦ overwritten a v4 (inet_pton af_inet text) (sized af_inet text)
          ]
