-- ===== src/Config/Total.antt =====
-- The parser of app/hao_config.cpp ends with a value, with an exception or in a loop at the end of
-- its text; every other call of it goes on with a shorter text.
use hao_server.Base.{
  ℕ, zero, suc, ◌+◌, ◌-◌, ◌*◌, ◌≤◌, ◌<◌, Bool, true, false, ◌||◌, not, List, [], ◌∷◌, ◌++◌, Option,
  some, none, arith, ◌==◌, if◌then◌else◌, Bool-cases, inl, inr, length, drop, length-drop,
}
use hao_server.Config.{Fields, bool, no_fields}
use hao_server.Config.Outcome.{
  Settles, yields, throws, hangs, Settles-if, Settles-bind, Settles-weaken,
}
use hao_server.Config.Parser.{
  span, closed, parser_str, parser_comment, parser_bool, parser_num, parser_val, parser_arr,
  parser_map, parser, put, returned, num_byte, one_of, stoi, separator, colon_byte, blank_byte,
}

length-span : (t : ℕ → Bool) (cs : List ℕ) → length (span t cs).1 ≤ length cs
unfolding span
length-span t [] = omega arith
length-span t (c ∷ cs) = let ih = length-span t cs in ground (arith, ih)

-- What is left is shorter than the text, unless both are empty.
abbrev pub Shorter {ℓ} : {A : Type ℓ} → List ℕ → A × List ℕ → Type 0
Shorter cs r = length r.1 ≤ length cs - 1

closed-Settles :
    (t : ℕ → Bool) (cs : List ℕ) → Settles (λ r. suc (length r.1) ≤ length cs) (closed (span t cs))
closed-Settles t cs = ends (span t cs) (length-span t cs)
  where
    ends :
        (r : List ℕ × List ℕ)
        → length r.1 ≤ length cs
        → Settles (λ r. suc (length r.1) ≤ length cs) (closed r)
    ends (s, []) h = hangs
    ends (s, q ∷ rest) h = yields h

returned-Settles {ℓ} :
    {A : Type ℓ} (cs rest : List ℕ) (o : Option A)
    → length rest ≤ length cs - 1
    → Settles (Shorter cs) (returned rest o)
returned-Settles cs rest none h = throws
returned-Settles cs rest (some a) h = yields h

parser_bool-Shorter : (c : ℕ) (cs : List ℕ) → Shorter (c ∷ cs) (parser_bool (c ∷ cs))
unfolding parser_bool
parser_bool-Shorter c cs =
    either (c == b'f') (omega (arith, length-drop 4 cs)) (omega (arith, length-drop 3 cs))
  where
    either :
        (t : Bool)
        → length (drop 4 cs) ≤ length cs
        → length (drop 3 cs) ≤ length cs
        → Shorter (c ∷ cs) (if t then (bool false, drop 4 cs) else (bool true, drop 3 cs))
    either true a b = omega (arith, a)
    either false a b = omega (arith, b)

module _ (stof : List ℕ → Option ℕ) where
  parser_num-Settles : (c : ℕ) (cs : List ℕ) → Settles (Shorter (c ∷ cs)) (parser_num stof (c ∷ cs))
  unfolding parser_num span one_of stoi
  parser_num-Settles c cs = elim (Bool-cases (num_byte c)) [
    | inl is ↦
        let r = span num_byte (c ∷ cs) in
        let left : length r.1 ≤ length (c ∷ cs) - 1 =
          rw is (omega (arith, length-span num_byte cs)) in
        Settles-if (one_of r.0 b'.' || one_of r.0 b'e')
          (λ _. Settles-bind (returned-Settles (c ∷ cs) r.1 (stof r.0) left) (λ a k. yields k))
          (λ _. Settles-bind (returned-Settles (c ∷ cs) r.1 (stoi r.0) left) (λ a k. yields k))
    | inr isnt ↦ rw isnt throws
  ]

  abbrev Vals : ℕ → Type 0
  Vals f = (cs : List ℕ) → 2 * length cs < f → Settles (Shorter cs) (parser_val stof f cs)

  abbrev Arrs : ℕ → Type 0
  Arrs f = (cs : List ℕ) → suc (2 * length cs) < f → Settles (Shorter cs) (parser_arr stof f cs)

  abbrev Maps : ℕ → Type 0
  Maps f =
      (fs : Fields) (cs : List ℕ)
      → suc (2 * length cs) < f
      → Settles (Shorter cs) (parser_map stof f fs cs)

  val_round : (f : ℕ) → Vals f → Arrs f → Maps f → Vals (suc f)
  unfolding parser_val parser_str parser_comment
  val_round f vals arrs maps [] h = yields (omega arith)
  val_round f vals arrs maps (c ∷ cs) h =
      let bound : suc (2 * length cs) < f = omega (arith, h) in
      let bound' : 2 * length cs < f = omega (arith, h) in
      Settles-if (blank_byte c) (λ _. Settles-weaken (vals cs bound') (λ r k. omega (arith, k)))
        (λ _.
          Settles-if (c == b'"')
            (λ _.
              Settles-bind (closed-Settles (λ d. not (d == b'"')) cs)
                (λ r k. yields (omega (arith, k))))
            (λ _.
              Settles-if (c == b'f' || c == b't') (λ _. yields (parser_bool-Shorter c cs))
                (λ _.
                  Settles-if (c == b'[')
                    (λ _. Settles-bind (arrs cs bound) (λ r k. yields (omega (arith, k))))
                    (λ _.
                      Settles-if (c == b'{')
                        (λ _.
                          Settles-bind (maps no_fields cs bound) (λ r k. yields (omega (arith, k))))
                        (λ _.
                          Settles-if (c == b'/')
                            (λ _.
                              Settles-bind
                                (Settles-bind (closed-Settles (λ d. not (d == 10)) (c ∷ cs))
                                  (λ r k. yields k))
                                (λ rest k.
                                  Settles-weaken (vals rest (omega (arith, k, h)))
                                    (λ r j. omega (arith, j, k))))
                            (λ _. parser_num-Settles c cs))))))

  arr_round : (f : ℕ) → Vals f → Arrs f → Arrs (suc f)
  unfolding parser_arr
  arr_round f vals arrs [] h = hangs
  arr_round f vals arrs (c ∷ cs) h =
      Settles-if (c == b']') (λ _. yields (omega arith))
        (λ _. Settles-bind (vals (c ∷ cs) (omega (arith, h))) (λ r k.
          let s = length-span separator r.1 in
          Settles-bind (arrs (span separator r.1).1 (omega (arith, s, k, h)))
            (λ r' k'. yields (omega (arith, s, k, k')))))

  map_round : (f : ℕ) → Vals f → Maps f → Maps (suc f)
  unfolding parser_map span put
  map_round f vals maps fs [] h =
      elim f as (λ f. 1 < suc f → Settles (Shorter []) (parser_map stof (suc f) fs [])) [
        | zero ↦ λ k. absurd (omega (arith, k))
        | suc g ↦ λ k. throws
      ]
        h
  map_round f vals maps fs (c ∷ cs) h =
      Settles-if (c == b'}') (λ _. yields (omega arith))
        (λ _. Settles-bind (vals (c ∷ cs) (omega (arith, h))) (λ r k.
          let s = length-span colon_byte r.1 in
          Settles-bind (vals (span colon_byte r.1).1 (omega (arith, s, k, h))) (λ r' k'.
            Settles-bind
              (returned-Settles (c ∷ cs) r'.1 (put r.0 r'.0 fs) (omega (arith, s, k, k')))
              (λ q l.
                let m = length-span separator q.1 in
                Settles-weaken (maps q.0 (span separator q.1).1 (omega (arith, m, l, h)))
                  (λ a j. omega (arith, j, m, l))))))

  settled : (f : ℕ) → Vals f × Arrs f × Maps f
  settled zero = (
    λ cs h. absurd (omega (arith, h)),
    λ cs h. absurd (omega (arith, h)),
    λ fs cs h. absurd (omega (arith, h)),
  )
  settled (suc f) =
      let (vals, arrs, maps) = settled f in
      (val_round f vals arrs maps, arr_round f vals arrs, map_round f vals maps)

  -- Whatever the text and what is left of the text before, a run of the parser ends with a value and
  -- with less of the text left (or with none left of none), with an exception, or in a loop at the
  -- end of the text: the fuel is enough.
  pub parser-Settles : (left s : List ℕ) → Settles (Shorter (left ++ s)) (parser stof left s)
  unfolding parser
  parser-Settles left s = (settled (2 * length (left ++ s) + 1)).0 (left ++ s) (omega arith)
