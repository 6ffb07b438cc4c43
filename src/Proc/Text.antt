-- ===== src/Proc/Text.antt =====
-- Texts in memory, for app/proc/hao_server.cpp.
use hao_server.Base.{
  ℕ, zero, suc, ◌≤◌, ◌≡◌, ◌≢◌, refl, sym, ap, ◌∙◌, subst, false, List, [], ◌∷◌, ◌++◌, none, some,
  ◌>>=◌, ◌==◌, if◌then◌else◌, take, length, All, arith, Bool-cases, Option-cases, inl, inr,
}
use mathlib.Core.Option.{some-injective}
use hao_server.Proc.{text_of, strncpy}

-- A text without a 0
abbrev pub NoNul : List ℕ → Type 0
NoNul cs = All (λ c. c ≢ 0) cs

-- It is read back in front of a 0, and reading does not end without one.
pub text_of-ended : (cs rest : List ℕ) → NoNul cs → text_of (cs ++ 0 ∷ rest) ≡ some cs
unfolding text_of
text_of-ended [] rest h = refl
text_of-ended (c ∷ cs) rest h =
    let e : (c == 0) ≡ false = ground (arith, h.0) in rw (e, text_of-ended cs rest h.1) refl

pub text_of-unended : (cs : List ℕ) → NoNul cs → text_of cs ≡ none
unfolding text_of
text_of-unended [] h = refl
text_of-unended (c ∷ cs) h =
    let e : (c == 0) ≡ false = ground (arith, h.0) in rw (e, text_of-unended cs h.1) refl

-- A text that is read has no 0.
pub text_of-NoNul : (cs text : List ℕ) → text_of cs ≡ some text → NoNul text
unfolding text_of
text_of-NoNul [] text e = absurd (cc e)
text_of-NoNul (c ∷ cs) text e = elim (Bool-cases (c == 0)) [
  | inl stop ↦
      subst NoNul
        (some-injective _ _
          (sym (ap (λ b. if b then some [] else (text_of cs >>= λ r. some (c ∷ r))) stop) ∙ e))
        tt
  | inr more ↦ elim (Option-cases (text_of cs)) [
    | inl fault ↦ absurd (
        cc (
          sym (ap (λ b. if b then some [] else (text_of cs >>= λ r. some (c ∷ r))) more) ∙ e,
          fault,
        ))
    | inr (r, is) ↦
        subst NoNul
          (some-injective _ _ (
            sym (
              ap (λ b. if b then some [] else (text_of cs >>= λ r. some (c ∷ r))) more
              ∙ ap (λ o. o >>= λ r. some (c ∷ r)) is)
            ∙ e))
          (ground (arith, more), text_of-NoNul cs r is)
  ]
]

pub strncpy-whole : (n : ℕ) (cs : List ℕ) → NoNul cs → n ≤ length cs → strncpy n cs ≡ take n cs
unfolding strncpy
strncpy-whole zero cs h le = refl
strncpy-whole (suc n) [] h le = absurd (omega (arith, le))
strncpy-whole (suc n) (c ∷ cs) h le =
    let e : (c == 0) ≡ false = ground (arith, h.0) in
    rw (e, strncpy-whole n cs h.1 (omega (arith, le))) refl

pub take-NoNul : (n : ℕ) (cs : List ℕ) → NoNul cs → NoNul (take n cs)
take-NoNul zero cs h = tt
take-NoNul (suc n) [] h = tt
take-NoNul (suc n) (c ∷ cs) h = (h.0, take-NoNul n cs h.1)
