-- ===== src/Logic/Reply.antt =====
-- The answers that HandleRegister and HandleLogin of app/logic/hao_logic.cpp give.
use hao_server.Base.{
  ℕ, ◌+◌, ◌-◌, ◌*◌, ◌/◌, ◌%◌, ◌^◌, ◌≤◌, ◌<◌, ◌≡◌, refl, sym, ap, ◌∙◌, true, false, List, [], ◌∷◌,
  none, some, arith, length, take, overwrite, get_or, take_all, ◌==◌, ==_iff, if◌then◌else◌,
  length-overwrite, get_or-overwrite,
}
use hao_server.Crc.{get_crc}
use hao_server.Crc.Table.{get_crc-lt}
use hao_server.Net.State.{Message, pkg_len, msg_code, crc32}
use hao_server.Logic.{reply, terminate, pkg_body, crc_matches}

halves : (v : ℕ) → v < 65536 → v / 256 % 256 * 256 + v % 256 ≡ v
halves v h = omega arith

high_half : (v : ℕ) → v < 2 ^ 32 → v / 65536 / 256 % 256 * 256 + v / 65536 % 256 ≡ v / 65536
high_half v h = omega arith

low_half : (v : ℕ) → v / 256 % 256 * 256 + v % 256 ≡ v % 65536
low_half v = omega arith

quarters :
    (v : ℕ)
    → v < 2 ^ 32
    → (v / 65536 / 256 % 256 * 256 + v / 65536 % 256) * 65536 + (v / 256 % 256 * 256 + v % 256) ≡ v
quarters v h = rw (high_half v h, low_half v) (omega arith)

body_from :
    (n : ℕ) (rest body : List ℕ)
    → n ≡ 8 + length body
    → 0 < length body
    → rest ≡ body
    → (if n == 8 then none else some (take (n - 8) rest)) ≡ some body
body_from n rest body e h f =
    let test : (n == 8) ≡ false = ground (arith, e, h) in
    rw (test, f) (ap some (take_all (n - 8) body (omega (arith, e))))

module _ (m : Message) (code : ℕ) (body : List ℕ) (short : length body < 65528) where
  pkg_len-reply : pkg_len (reply m code body).packet ≡ 8 + length body
  unfolding reply
  pkg_len-reply = halves (8 + length body) (omega arith)

  length-reply : length (reply m code body).packet ≡ 8 + length body
  unfolding reply
  length-reply = omega arith

  msg_code-reply : code < 65536 → msg_code (reply m code body).packet ≡ code
  unfolding reply
  msg_code-reply h = halves code h

  crc32-reply : crc32 (reply m code body).packet ≡ get_crc body
  unfolding reply
  crc32-reply = quarters (get_crc body) (get_crc-lt body)

  pkg_body-reply : 0 < length body → pkg_body (reply m code body).packet ≡ some body
  unfolding reply
  pkg_body-reply h = body_from (pkg_len (reply m code body).packet) body body pkg_len-reply h refl

  crc_matches-reply : 0 < length body → crc_matches (reply m code body).packet ≡ true
  crc_matches-reply h =
      rw (crc_matches, pkg_body-reply h)
        ((==_iff (get_crc body) (crc32 (reply m code body).packet)).1 (sym crc32-reply))

-- What a receiver of a packet finds in it: its length field is true and counts the body, its code and its body are these
-- and the CRC is the body's.
pub record Carries (cmd : ℕ) (content packet : List ℕ) : Type 0 where
  pub honest : pkg_len packet ≡ length packet
  pub size : pkg_len packet ≡ 8 + length content
  pub code : msg_code packet ≡ cmd
  pub body : pkg_body packet ≡ some content
  pub intact : crc_matches packet ≡ true

-- An answer with a body of 1 to 65527 bytes and a code of 16 bits is a packet that its receiver
-- takes for what was sent: the length, the code, the body and the CRC are read back.
pub reply-Carries :
    (m : Message) (code : ℕ) (body : List ℕ)
    → 0 < length body
    → length body < 65528
    → code < 65536
    → Carries code body (reply m code body).packet
reply-Carries m code body some_bytes short h = record {
  honest = pkg_len-reply m code body short ∙ sym (length-reply m code body short);
  size = pkg_len-reply m code body short;
  code = msg_code-reply m code body short h;
  body = pkg_body-reply m code body short some_bytes;
  intact = crc_matches-reply m code body short some_bytes;
}

-- What `terminate` does to each byte: the last byte of the name and that of the password are 0.
pub terminate_lem :
    (i j : ℕ) (body : List ℕ)
    → i + 96 ≤ length body
    → get_or (terminate i body) j 0
      ≡ (if j == i + 95 then 0 else if j == i + 55 then 0 else get_or body j 0)
unfolding terminate
terminate_lem i j body h =
    let n = length-overwrite body (i + 56 - 1) (0 ∷ []) (omega (arith, h)) in
    rw
      (
        get_or-overwrite (overwrite body (i + 56 - 1) (0 ∷ [])) (i + 56 + 40 - 1) j 0 0
            (omega (arith, n, h)),
        get_or-overwrite body (i + 56 - 1) j 0 0 (omega (arith, h)),
      )
      (ground arith)

pub length-terminate :
    (i : ℕ) (body : List ℕ) → i + 96 ≤ length body → length (terminate i body) ≡ length body
unfolding terminate
length-terminate i body h =
    let n = length-overwrite body (i + 56 - 1) (0 ∷ []) (omega (arith, h)) in
    length-overwrite (overwrite body (i + 56 - 1) (0 ∷ [])) (i + 56 + 40 - 1) (0 ∷ [])
      (omega (arith, n, h))
    ∙ n
