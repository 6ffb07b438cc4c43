-- ===== src/Tests/Address.antt =====
-- The loopback address at the port 8080, and an address that is read from the text 127.0.0.1.
use hao_server.Base.{
  ℕ, zero, suc, ◌≡◌, ◌≤◌, refl, sym, ap, ◌∙◌, subst, List, [], ◌∷◌, ◌++◌, Option, none, some, arith,
  take, length, replicate, ◌==◌, if◌then◌else◌, Bool-cases, inl, inr,
}
use mathlib.Core.Option.{some-injective}
use hao_server.Base.Decimal.{decimal}
use hao_server.Address.{
  InternetAddress, ipv4, loopback, of_port, of_text, c_str, family, write, host_16, htons, af_inet,
  port_of, size, to_ip_port, af_inet,
}
use hao_server.Address.Made.{
  of_port_lem, of_text_lem, address_bytes, family_of, size_of, expected_bytes, shown, IsOverwritten,
  family_read,
}

-- Numbers with dots between them, in a buffer of 16 bytes
abbrev dotted : List ℕ → List ℕ
dotted [] = []
dotted (n ∷ []) = decimal n
dotted (n ∷ m ∷ rest) = decimal n ++ b'.' ∷ dotted (m ∷ rest)

abbrev to_text : List ℕ → List ℕ
to_text bytes = take 15 (dotted bytes)

take_short : (n : ℕ) (xs : List ℕ) → length (take n xs) ≤ n
take_short zero xs = omega arith
take_short (suc n) [] = omega arith
take_short (suc n) (x ∷ xs) = omega (arith, take_short n xs)

abbrev pub blank_address : InternetAddress
blank_address j = 0

of_port_lem_example :
    let a = of_port blank_address 8080 loopback ipv4 in
    (family a ≡ family_of ipv4)
    × (size a ≡ size_of ipv4)
    × (port_of a ≡ 8080)
    × (address_bytes ipv4 a ≡ expected_bytes ipv4 loopback)
    × (to_ip_port to_text a ≡ to_text (shown ipv4 loopback) ++ b':' ∷ decimal 8080)
of_port_lem_example =
    of_port_lem to_text blank_address 8080 loopback ipv4 (λ bytes. take_short 15 (dotted bytes))
      (omega arith)

abbrev local_text : List ℕ
local_text = b'1' ∷ b'2' ∷ b'7' ∷ b'.' ∷ b'0' ∷ b'.' ∷ b'0' ∷ b'.' ∷ b'1' ∷ []

-- Reads that text, and no IPv6 address.
abbrev from_text : ℕ → List ℕ → Option (List ℕ)
from_text f text = if f == af_inet then some (127 ∷ 0 ∷ 0 ∷ 1 ∷ []) else none

from_text_long : (f : ℕ) (text bytes : List ℕ) → from_text f text ≡ some bytes → 4 ≤ length bytes
from_text_long f text bytes e = elim (Bool-cases (f == af_inet)) [
  | inl v4 ↦
      let is : (127 ∷ 0 ∷ 0 ∷ 1 ∷ []) ≡ bytes =
        some-injective _ _
          (sym (ap (λ b. if b then some (127 ∷ 0 ∷ 0 ∷ 1 ∷ []) else none) v4) ∙ e) in
      subst (λ l. 4 ≤ length l) is (omega arith)
  | inr other ↦
      absurd (cc (sym (ap (λ b. if b then some (127 ∷ 0 ∷ 0 ∷ 1 ∷ []) else none) other) ∙ e))
]

abbrev read_address : InternetAddress
read_address =
    let zeroed = write blank_address 0 (replicate 16 0) in
    write (write (write zeroed 0 (host_16 af_inet)) 2 (htons 8080)) 0 (127 ∷ 0 ∷ 0 ∷ 1 ∷ [])

of_text_lem_example :
    (bytes : List ℕ) × (from_text (family_read local_text ipv4) (c_str local_text) ≡ some bytes)
    × IsOverwritten read_address bytes
unfolding of_text
of_text_lem_example =
    of_text_lem from_text blank_address local_text 8080 ipv4 read_address from_text_long refl
