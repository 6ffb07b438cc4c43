-- ===== src/Config/Errors.antt =====
-- Texts that the parser of app/hao_config.cpp does not read.
use hao_server.Base.{
  ℕ, zero, suc, ◌+◌, ◌*◌, ◌<◌, ◌≡◌, refl, ◌∙◌, List, [], ◌∷◌, ◌++◌, Option, arith, length,
  length-append,
}
use hao_server.Base.Int.{ℤ}
use hao_server.Config.{int, show, show_int}
use hao_server.Config.Outcome.{thrown}
use hao_server.Config.Parser.{span, parser_num, parser_val, parser_arr, parser, one_of, stoi}
use hao_server.Config.Printable.{InRange}
use hao_server.Config.Rounds.{arr_round, number_read}

module _ (stof : List ℕ → Option ℕ) where
  point_thrown : (f : ℕ) (rest : List ℕ) → parser_val stof (suc f) (b'.' ∷ rest) ≡ thrown
  unfolding parser_val parser_num span one_of stoi
  point_thrown f rest = refl

  fraction_round :
      (f : ℕ) (n : ℤ) (rest : List ℕ)
      → InRange n
      → parser_arr stof (suc (suc (suc f))) (show_int n ++ b'.' ∷ rest) ≡ thrown
  unfolding show parser_arr span parser_val parser_num stoi one_of
  fraction_round f n rest h =
      arr_round (λ _. []) stof (suc (suc f)) (int n) (b'.' ∷ rest) h
      ∙ rw (number_read (λ _. []) stof (suc f) n (b'.' ∷ rest) h refl) refl

  -- A number with a fraction, in an array: ParserNum takes the digits in front of the point only, and
  -- the value that ParserArr then reads at the point throws.
  pub fraction_thrown :
      (n : ℤ) (rest : List ℕ)
      → InRange n
      → parser stof [] (b'[' ∷ (show_int n ++ b'.' ∷ rest)) ≡ thrown
  unfolding parser parser_val
  fraction_thrown n rest h =
      fueled (2 * length (b'[' ∷ (show_int n ++ b'.' ∷ rest)) + 1)
        (omega (arith, length-append (show_int n) (b'.' ∷ rest)))
    where
      fueled : (f : ℕ) → 4 < f → parser_val stof f (b'[' ∷ (show_int n ++ b'.' ∷ rest)) ≡ thrown
      fueled (suc (suc (suc (suc f)))) k = rw (fraction_round f n rest h) refl
      fueled zero k = absurd (omega (arith, k))
      fueled (suc zero) k = absurd (omega (arith, k))
      fueled (suc (suc zero)) k = absurd (omega (arith, k))
      fueled (suc (suc (suc zero))) k = absurd (omega (arith, k))
