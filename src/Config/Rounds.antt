-- ===== src/Config/Rounds.antt =====
-- Single rounds of the loops of app/hao_config.cpp, on the text that operator<< of
-- _include/hao_config.h writes.
use hao_server.Base.{
  ℕ, suc, ◌<◌, ◌≡◌, refl, sym, ap, ◌∙◌, subst, true, false, not, List, [], ◌∷◌, ◌++◌, Option, arith,
  ◌==◌, All, length, append_assoc,
}
use hao_server.Base.Int.{ℤ}
use hao_server.Config.{
  JsonValue, Items, Fields, object, int, bool, double, string, array, no_items, item, no_fields,
  field, insert_field, show, show_items, show_fields, show_int,
}
use hao_server.Config.Outcome.{ok, ◌>>=◌}
use hao_server.Config.Parser.{
  span, parser_str, parser_num, parser_val, parser_arr, parser_map, separator, colon_byte, put,
}
use hao_server.Config.Printable.{IsPrintable, ArePrintable, Stops, IsPlain, Behind, InRange}
use hao_server.Config.Numbers.{
  span-All, parser_num-show_int, show_int-starts, starts_number, parser_val-number,
}

-- The fields of two objects, one behind the other
unfoldable pub append_fields : Fields → Fields → Fields
append_fields no_fields gs = gs
append_fields (field k v fs) gs = field k v (append_fields fs gs)

-- All keys of the second stand behind all keys of the first.
abbrev pub AllBehind : Fields → Fields → Type 0
AllBehind no_fields gs = Unit
AllBehind (field k v fs) gs = Behind k gs × AllBehind fs gs

pub insert_field-last :
    (fs gs : Fields) (k : List ℕ) (v : JsonValue)
    → AllBehind fs (field k v gs)
    → insert_field k v fs ≡ append_fields fs (field k v no_fields)
unfolding insert_field append_fields
insert_field-last no_fields gs k v h = refl
insert_field-last (field j w fs) gs k v h =
    rw (h.0.0) (ap (field j w) (insert_field-last fs gs k v h.1))

pub AllBehind-append :
    (fs gs : Fields) (k : List ℕ) (v : JsonValue)
    → AllBehind fs (field k v gs)
    → Behind k gs
    → AllBehind (append_fields fs (field k v no_fields)) gs
unfolding append_fields
AllBehind-append no_fields gs k v h b = (b, tt)
AllBehind-append (field j w fs) gs k v h b = (h.0.1, AllBehind-append fs gs k v h.1 b)

pub append_fields_assoc :
    (fs gs : Fields) (k : List ℕ) (v : JsonValue)
    → append_fields (append_fields fs (field k v no_fields)) gs ≡ append_fields fs (field k v gs)
unfolding append_fields
append_fields_assoc no_fields gs k v = refl
append_fields_assoc (field j w fs) gs k v = ap (field j w) (append_fields_assoc fs gs k v)

pub append_fields_nil : (fs : Fields) → append_fields fs no_fields ≡ fs
unfolding append_fields
append_fields_nil no_fields = refl
append_fields_nil (field k v fs) = ap (field k v) (append_fields_nil fs)

-- A text in quotes, behind the first quote
pub parser_str-plain : (s rest : List ℕ) → IsPlain s → parser_str (s ++ b'"' ∷ rest) ≡ ok (s, rest)
unfolding parser_str
parser_str-plain s rest h = rw (span-All (λ c. not (c == b'"')) s b'"' rest (unquoted s h) refl)
  where
    unquoted : (s : List ℕ) → IsPlain s → All (λ c. not (c == b'"') ≡ true) s
    unquoted [] h = tt
    unquoted (c ∷ s) h = (rw h.0, unquoted s h.1)

-- A value's text starts with a byte that is no bracket, brace or separator.
abbrev Opens : ℕ → Type 0
Opens c =
    ((c == b']') ≡ false) × ((c == b'}') ≡ false) × (separator c ≡ false) × (colon_byte c ≡ false)

number-Opens : (c : ℕ) → starts_number c ≡ true → Opens c
number-Opens c h = (ground (arith, h), ground (arith, h), ground (arith, h), ground (arith, h))

module _ (show_double : ℕ → List ℕ) (stof : List ℕ → Option ℕ) where
  pub show-Opens :
      (v : JsonValue)
      → IsPrintable v
      → (c : ℕ) × (cs : List ℕ) × (show show_double v ≡ c ∷ cs) × Opens c
  unfolding show
  show-Opens (object fs) h = (b'{', show_fields show_double fs true, refl, (refl, refl, refl, refl))
  show-Opens (bool true) h = (b't', _, refl, (refl, refl, refl, refl))
  show-Opens (bool false) h = (b'f', _, refl, (refl, refl, refl, refl))
  show-Opens (int n) h =
      let (c, cs, e, start) = show_int-starts n in (c, cs, e, number-Opens c start)
  show-Opens (double d) h = absurd h
  show-Opens (string s) h = (b'"', _, refl, (refl, refl, refl, refl))
  show-Opens (array vs) h = (b'[', show_items show_double vs true, refl, (refl, refl, refl, refl))

  -- Behind a value, its separators are skipped up to the next value or the closing bracket.
  pub skip_to_items :
      (vs : Items) (rest : List ℕ)
      → ArePrintable vs
      → (span separator (show_items show_double vs false ++ rest)).1
        ≡ show_items show_double vs true ++ rest
  unfolding show span
  skip_to_items no_items rest h = refl
  skip_to_items (item v vs) rest h =
      let (c, cs, e, o) = show-Opens v h.0 in
      subst
        (λ l.
          (span separator ((l ++ show_items show_double vs false) ++ rest)).1
          ≡ (l ++ show_items show_double vs false) ++ rest)
        (sym e) (rw o.2 refl)

  pub skip_to_fields :
      (fs : Fields) (rest : List ℕ)
      → (span separator (show_fields show_double fs false ++ rest)).1
        ≡ show_fields show_double fs true ++ rest
  unfolding show span
  skip_to_fields no_fields rest = refl
  skip_to_fields (field k v fs) rest = refl

  -- What follows a value stops a number.
  pub items_stop : (vs : Items) (rest : List ℕ) → Stops (show_items show_double vs false ++ rest)
  unfolding show
  items_stop no_items rest = refl
  items_stop (item v vs) rest = refl

  pub fields_stop : (fs : Fields) (rest : List ℕ) → Stops (show_fields show_double fs false ++ rest)
  unfolding show
  fields_stop no_fields rest = refl
  fields_stop (field k v fs) rest = refl

  pub skip_colon :
      (v : JsonValue) (rest : List ℕ)
      → IsPrintable v
      → (span colon_byte (b':' ∷ (show show_double v ++ rest))).1 ≡ show show_double v ++ rest
  unfolding span
  skip_colon v rest h =
      let (c, cs, e, o) = show-Opens v h in
      subst (λ l. (span colon_byte (b':' ∷ (l ++ rest))).1 ≡ l ++ rest) (sym e) (rw o.3 refl)

  -- A round of ParserArr, at a value
  pub arr_round :
      (f : ℕ) (v : JsonValue) (rest : List ℕ)
      → IsPrintable v
      → parser_arr stof (suc f) (show show_double v ++ rest) ≡ (
          parser_val stof f (show show_double v ++ rest) >>= λ r.
          parser_arr stof f (span separator r.1).1 >>= λ s. ok (item r.0 s.0, s.1))
  unfolding parser_arr
  arr_round f v rest h =
      let (c, cs, e, o) = show-Opens v h in
      subst
        (λ l. parser_arr stof (suc f) (l ++ rest) ≡ (
          parser_val stof f (l ++ rest) >>= λ r.
          parser_arr stof f (span separator r.1).1 >>= λ s. ok (item r.0 s.0, s.1)))
        (sym e) (rw o.0 refl)

  pub key_read :
      (f : ℕ) (k rest : List ℕ)
      → IsPlain k
      → parser_val stof (suc f) (b'"' ∷ (k ++ b'"' ∷ rest)) ≡ ok (string k, rest)
  unfolding parser_val
  key_read f k rest h = rw (parser_str-plain k rest h) refl

  -- A round of ParserMap, at a key and a value
  pub map_round :
      (f : ℕ) (acc : Fields) (k : List ℕ) (v : JsonValue) (rest rest' : List ℕ)
      → IsPlain k
      → IsPrintable v
      → parser_val stof (suc f) (show show_double v ++ rest) ≡ ok (v, rest')
      → parser_map stof (suc (suc f)) acc (b'"' ∷ (k ++ b'"' ∷ b':' ∷ (show show_double v ++ rest)))
        ≡ parser_map stof (suc f) (insert_field k v acc) (span separator rest').1
  unfolding parser_map put
  map_round f acc k v rest rest' plain h e =
      rw (key_read f k (b':' ∷ (show show_double v ++ rest)) plain, skip_colon v rest h, e) refl

  pub fields_text :
      (k : List ℕ) (v : JsonValue) (fs : Fields) (rest : List ℕ)
      → show_fields show_double (field k v fs) true ++ rest
        ≡ b'"'
          ∷ (k ++ b'"' ∷ b':' ∷ (show show_double v ++ (show_fields show_double fs false ++ rest)))
  unfolding show
  fields_text k v fs rest = simp append_assoc

  pub number_read :
      (f : ℕ) (n : ℤ) (rest : List ℕ)
      → InRange n
      → Stops rest
      → parser_val stof (suc f) (show_int n ++ rest) ≡ ok (int n, rest)
  number_read f n rest h stop =
      let (c, cs, e, start) = show_int-starts n in
      subst (λ l. parser_val stof (suc f) (l ++ rest) ≡ parser_num stof (l ++ rest)) (sym e)
        (parser_val-number stof f c (cs ++ rest) start)
      ∙ parser_num-show_int stof n rest h stop

  pub show_pos : (v : JsonValue) → IsPrintable v → 0 < length (show show_double v)
  show_pos v h = let (c, cs, e, o) = show-Opens v h in omega (arith, ap length e)
