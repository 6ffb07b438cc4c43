-- ===== src/Config/Parser.antt =====
-- The parser of app/hao_config.cpp. The stream `ss` is the list of the bytes that are left in it:
-- `peek` is the head, or -1 if there is none, and `get` drops it.
use hao_server.Base.{
  ℕ, zero, suc, ◌+◌, ◌*◌, ◌^◌, Bool, true, false, ◌||◌, not, List, [], ◌∷◌, ◌++◌, Option, none,
  some, ltb, ◌==◌, if◌then◌else◌, drop, length,
}
use hao_server.Base.Int.{ℤ, pos, negsuc}
use hao_server.Base.Decimal.{is_digit, value_of}
use hao_server.Config.{
  JsonValue, Items, Fields, object, int, bool, double, string, array, no_items, item, no_fields,
  insert_field,
}
use hao_server.Config.Outcome.{Outcome, ok, thrown, unending, out_of_fuel, ◌>>=◌}

-- The bytes up to the first that fails the test, and the rest.
unfoldable pub span : (ℕ → Bool) → List ℕ → List ℕ × List ℕ
span test [] = ([], [])
span test (c ∷ cs) = let r = span test cs in if test c then (c ∷ r.0, r.1) else ([], c ∷ cs)

-- Whether a byte stands in a list
unfoldable pub one_of : List ℕ → ℕ → Bool
one_of [] c = false
one_of (x ∷ xs) c = c == x || one_of xs c

abbrev pub negated : ℕ → ℤ
negated zero = pos 0
negated (suc n) = negsuc n

-- std::stoi of bytes without a space: a sign, digits, and whatever follows. `none` is an exception.
unfoldable pub in_range : Bool → ℕ → Option ℤ
in_range negative n =
    if negative
    then (if ltb (2 ^ 31) n then none else some (negated n))
    else if ltb n (2 ^ 31)
    then some (pos n)
    else none

unfoldable pub stoi_digits : Bool → List ℕ → Option ℤ
stoi_digits negative [] = none
stoi_digits negative (d ∷ ds) = in_range negative (value_of 0 (d ∷ ds))

unfoldable pub stoi : List ℕ → Option ℤ
stoi [] = none
stoi (c ∷ cs) =
    if c == b'-'
    then stoi_digits true (span is_digit cs).0
    else if c == b'+'
    then stoi_digits false (span is_digit cs).0
    else stoi_digits false (span is_digit (c ∷ cs)).0

-- The bytes that ParserNum takes
abbrev pub num_byte : ℕ → Bool
num_byte c = is_digit c || (c == b'e' || (c == b'-' || c == b'+'))

abbrev pub returned {ℓ} : {A : Type ℓ} → List ℕ → Option A → Outcome (A × List ℕ)
returned rest none = thrown
returned rest (some a) = ok (a, rest)

-- The spaces of ParserVal, what stands between a key and its value, and what stands behind a value
abbrev pub blank_byte : ℕ → Bool
blank_byte c = c == b' ' || (c == 10 || c == 9)

abbrev pub colon_byte : ℕ → Bool
colon_byte c = c == b' ' || c == b':'

abbrev pub separator : ℕ → Bool
separator c = c == b' ' || (c == 9 || (c == 10 || c == b','))

-- Text up to a closing byte, which is taken as well. At the end of the text peek is no closing byte, and
-- the loop goes on appending what get gives, until an allocation fails: this is `unending`.
abbrev pub closed : List ℕ × List ℕ → Outcome (List ℕ × List ℕ)
closed (s, []) = unending
closed (s, q ∷ rest) = ok (s, rest)

-- ParserStr, behind the first quote
unfoldable pub parser_str : List ℕ → Outcome (List ℕ × List ℕ)
parser_str cs = closed (span (λ c. not (c == b'"')) cs)

-- ParserComment, from the first slash on
unfoldable pub parser_comment : List ℕ → Outcome (List ℕ)
parser_comment cs = closed (span (λ c. not (c == 10)) cs) >>= λ r. ok (r.1)

abbrev pub begins : ℕ → List ℕ → Bool
begins c [] = false
begins c (d ∷ ds) = d == c

-- ParserBool
unfoldable pub parser_bool : List ℕ → JsonValue × List ℕ
parser_bool [] = (bool true, [])
parser_bool (c ∷ cs) = if c == b'f' then (bool false, drop 4 cs) else (bool true, drop 3 cs)

-- JsonValue::put, whose get<string> throws if the key is not a string
unfoldable pub put : JsonValue → JsonValue → Fields → Option Fields
put (string k) v fs = some (insert_field k v fs)
put k v fs = none

module _ (stof : List ℕ → Option ℕ) where
  -- ParserNum
  unfoldable pub parser_num : List ℕ → Outcome (JsonValue × List ℕ)
  parser_num cs =
      let r = span num_byte cs in
      if one_of r.0 b'.' || one_of r.0 b'e'
      then returned (r.1) (stof (r.0)) >>= (λ d. ok (double d.0, d.1))
      else returned (r.1) (stoi (r.0)) >>= (λ n. ok (int n.0, n.1))

  -- A call of ParserVal costs a unit of fuel, and so does each round of a loop.
  unfoldable mutual
    pub parser_val : ℕ → List ℕ → Outcome (JsonValue × List ℕ)
    parser_val zero cs = out_of_fuel
    parser_val (suc f) [] = ok (int (pos 0), [])
    parser_val (suc f) (c ∷ cs) =
        let again = parser_val f cs in
        let text = parser_str cs >>= λ r. ok (string r.0, r.1) in
        let list = parser_arr f cs >>= λ r. ok (array r.0, r.1) in
        let fields = parser_map f no_fields cs >>= λ r. ok (object r.0, r.1) in
        let comment = parser_comment (c ∷ cs) >>= λ rest. parser_val f rest in
        let flag : Outcome (JsonValue × List ℕ) = ok (parser_bool (c ∷ cs)) in
        if blank_byte c
        then again
        else if c == b'"'
        then text
        else if c == b'f' || c == b't'
        then flag
        else if c == b'['
        then list
        else if c == b'{'
        then fields
        else if c == b'/'
        then comment
        else parser_num (c ∷ cs)

    -- ParserArr, behind the bracket: at the end of the text it adds zeros for ever.
    pub parser_arr : ℕ → List ℕ → Outcome (Items × List ℕ)
    parser_arr zero cs = out_of_fuel
    parser_arr (suc f) [] = unending
    parser_arr (suc f) (c ∷ cs) =
        let more = do
          (v, rest) ← parser_val f (c ∷ cs)
          (vs, rest') ← parser_arr f (span separator rest).1
          ok (item v vs, rest')
        in if c == b']' then ok (no_items, cs) else more

    -- ParserMap, behind the brace, with the fields so far
    pub parser_map : ℕ → Fields → List ℕ → Outcome (Fields × List ℕ)
    parser_map zero fs cs = out_of_fuel
    parser_map (suc f) fs cs =
        let more = do
          (k, rest) ← parser_val f cs
          (v, rest') ← parser_val f (span colon_byte rest).1
          r ← returned rest' (put k v fs)
          parser_map f r.0 (span separator r.1).1
        in if begins b'}' cs then ok (fs, drop 1 cs) else more

  -- parser, of what is left in the stream and of the new text
  unfoldable pub parser : List ℕ → List ℕ → Outcome (JsonValue × List ℕ)
  parser left s = let cs = left ++ s in parser_val (2 * length cs + 1) cs
