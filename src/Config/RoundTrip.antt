-- ===== src/Config/RoundTrip.antt =====
-- The text that operator<< of _include/hao_config.h writes is read back by the parser of
-- app/hao_config.cpp.
use hao_server.Base.{
  ℕ, zero, suc, ◌+◌, ◌*◌, ◌≤◌, ◌<◌, ◌≡◌, refl, sym, ap, ◌∙◌, subst, Bool, true, false, List, [],
  ◌∷◌, ◌++◌, Option, arith, if◌then◌else◌, length, append_assoc, length-append, append-nil,
}
use hao_server.Config.{
  JsonValue, Items, Fields, object, int, bool, double, string, array, no_items, item, no_fields,
  field, insert_field, show, show_items, show_fields, show_int, true_text, false_text,
}
use hao_server.Config.Outcome.{ok}
use hao_server.Config.Parser.{parser_bool, parser_val, parser_arr, parser_map, parser}
use hao_server.Config.Printable.{IsPrintable, ArePrintable, ArePrintableFields, Stops}
use hao_server.Config.Rounds.{
  append_fields, insert_field-last, AllBehind-append, append_fields_assoc, append_fields_nil,
  skip_to_items, skip_to_fields, items_stop, fields_stop, arr_round, key_read, map_round,
  fields_text, number_read, show_pos, AllBehind,
}

module _ (show_double : ℕ → List ℕ) (stof : List ℕ → Option ℕ) where
  abbrev ReadsValue : JsonValue → Type 0
  ReadsValue v =
      IsPrintable v
      → (f : ℕ) (rest : List ℕ) → 2 * length (show show_double v) < f
      → Stops rest
      → parser_val stof f (show show_double v ++ rest) ≡ ok (v, rest)

  abbrev ReadsItems : Items → Type 0
  ReadsItems vs =
      ArePrintable vs
      → (f : ℕ) (rest : List ℕ) → suc (2 * length (show_items show_double vs true)) < f
      → parser_arr stof f (show_items show_double vs true ++ rest) ≡ ok (vs, rest)

  abbrev ReadsFields : Fields → Type 0
  ReadsFields fs =
      ArePrintableFields fs
      → (f : ℕ) (acc : Fields) (rest : List ℕ) → AllBehind acc fs
      → suc (2 * length (show_fields show_double fs true)) < f
      → parser_map stof f acc (show_fields show_double fs true ++ rest)
        ≡ ok (append_fields acc fs, rest)

  item_read : (v : JsonValue) (vs : Items) → ReadsValue v → ReadsItems vs → ReadsItems (item v vs)
  unfolding show
  item_read v vs ih ihs h zero rest fuel = absurd (omega arith)
  item_read v vs ih ihs h (suc f) rest fuel =
      let more = show_items show_double vs false in
      let size = length-append (show show_double v) more in
      let left : length (show_items show_double vs true) ≤ length more = items_shorter vs in
      let pos = show_pos show_double stof v h.0 in
      ap (parser_arr stof (suc f)) (append_assoc (show show_double v) more rest)
      ∙ arr_round show_double stof f v (more ++ rest) h.0
      ∙ rw
          (
            ih h.0 f (more ++ rest) (omega (arith, size, fuel))
                (items_stop show_double stof vs rest),
            skip_to_items show_double stof vs rest h.1,
            ihs h.1 f rest (omega (arith, size, fuel, left, pos)),
          )
          refl
    where
      items_shorter :
          (vs : Items)
          → length (show_items show_double vs true) ≤ length (show_items show_double vs false)
      items_shorter no_items = omega arith
      items_shorter (item v vs) = omega arith

  field_read :
      (k : List ℕ) (v : JsonValue) (fs : Fields)
      → ReadsValue v
      → ReadsFields fs
      → ReadsFields (field k v fs)
  unfolding show
  field_read k v fs ih ihs h zero acc rest b fuel = absurd (omega arith)
  field_read k v fs ih ihs h (suc zero) acc rest b fuel = absurd (omega arith)
  field_read k v fs ih ihs h (suc (suc f)) acc rest b fuel =
      let more = show_fields show_double fs false in
      let texts = length-append (k ++ b'"' ∷ []) (b':' ∷ (show show_double v ++ more)) in
      let values = length-append (show show_double v) more in
      let keys = length-append k (b'"' ∷ []) in
      let left : length (show_fields show_double fs true) ≤ length more = fields_shorter fs in
      let pos = show_pos show_double stof v h.2 in
      ap (parser_map stof (suc (suc f)) acc) (fields_text show_double stof k v fs rest)
      ∙ map_round show_double stof f acc k v (more ++ rest) (more ++ rest) h.0 h.2 (
          ih h.2 (suc f) (more ++ rest) (omega (arith, fuel, texts, values, keys))
            (fields_stop show_double stof fs rest))
      ∙ ap (parser_map stof (suc f) (insert_field k v acc))
          (skip_to_fields show_double stof fs rest)
      ∙ ap (λ a. parser_map stof (suc f) a (show_fields show_double fs true ++ rest))
          (insert_field-last acc fs k v b)
      ∙ ihs h.3 (suc f) (append_fields acc (field k v no_fields)) rest
          (AllBehind-append acc fs k v b h.1) (omega (arith, fuel, texts, values, keys, left, pos))
      ∙ ap (λ a. ok (a, rest)) (append_fields_assoc acc fs k v)
    where
      fields_shorter :
          (fs : Fields)
          → length (show_fields show_double fs true) ≤ length (show_fields show_double fs false)
      fields_shorter no_fields = omega arith
      fields_shorter (field k v fs) = omega arith

  -- A unit of the fuel pays for the call.
  one_unit : (bound f : ℕ) → bound < f → (left : ℕ) × (f ≡ suc left)
  one_unit bound zero h = absurd (omega arith)
  one_unit bound (suc left) h = (left, refl)

  paid :
      (bound : ℕ) (Reads : ℕ → Type 0)
      → ((left : ℕ) → bound ≤ left → Reads (suc left))
      → {f : ℕ} → bound < f
      → Reads f
  paid bound Reads reads {f} h =
      let (left, e) = one_unit bound f h in subst Reads (sym e) (reads left (omega (arith, e, h)))

  bool_read :
      (b : Bool) (f : ℕ) (rest : List ℕ)
      → parser_val stof (suc f) ((if b then true_text else false_text) ++ rest) ≡ ok (bool b, rest)
  unfolding parser_val parser_bool
  bool_read true f rest = refl
  bool_read false f rest = refl

  value_read : (v : JsonValue) → ReadsValue v
  unfolding show parser_val parser_arr parser_map append_fields
  value_read v = elim v as ReadsValue ReadsItems ReadsFields [
    | object (fs → ih) ↦ λ h f rest fuel stop.
        paid _
          (λ g.
            parser_val stof g (b'{' ∷ (show_fields show_double fs true ++ rest))
            ≡ ok (object fs, rest))
          (λ g m. rw (ih h g no_fields rest tt (omega (arith, m))) refl) fuel
    | bool b ↦ λ h f rest fuel stop.
        paid _
          (λ g.
            parser_val stof g ((if b then true_text else false_text) ++ rest) ≡ ok (bool b, rest))
          (λ g m. bool_read b g rest) fuel
    | int n ↦ λ h f rest fuel stop.
        paid _ (λ g. parser_val stof g (show_int n ++ rest) ≡ ok (int n, rest))
          (λ g m. number_read show_double stof g n rest h stop) fuel
    | double d ↦ λ h. absurd h
    | string s ↦ λ h f rest fuel stop.
        paid _ (λ g. parser_val stof g (b'"' ∷ ((s ++ b'"' ∷ []) ++ rest)) ≡ ok (string s, rest))
          (λ g m. rw (append_assoc s (b'"' ∷ []) rest) (key_read show_double stof g s rest h)) fuel
    | array (vs → ih) ↦ λ h f rest fuel stop.
        paid _
          (λ g.
            parser_val stof g (b'[' ∷ (show_items show_double vs true ++ rest))
            ≡ ok (array vs, rest))
          (λ g m. rw (ih h g rest (omega (arith, m))) refl) fuel
    | no_items ↦ λ h f rest fuel.
        paid _ (λ g. parser_arr stof g (b']' ∷ rest) ≡ ok (no_items, rest)) (λ g m. refl) fuel
    | item (w → ih) (vs → ihs) ↦ item_read w vs ih ihs
    | no_fields ↦ λ h f acc rest b fuel.
        paid _ (λ g. parser_map stof g acc (b'}' ∷ rest) ≡ ok (append_fields acc no_fields, rest))
          (λ g m. ap (λ a. ok (a, rest)) (sym (append_fields_nil acc))) fuel
    | field k (w → ih) (fs → ihs) ↦ field_read k w fs ih ihs
  ]

  -- A value without a double, with integers of 32 bits, without a quote in a text and with the keys
  -- of each object in their order: what `str` writes for it is read back by ParserVal, from the front
  -- of any text that does not go on with a byte of a number, if the fuel is more than twice the
  -- length of the value's text.
  pub parser_val-show :
      (v : JsonValue) (f : ℕ) (rest : List ℕ)
      → IsPrintable v
      → 2 * length (show show_double v) < f
      → Stops rest
      → parser_val stof f (show show_double v ++ rest) ≡ ok (v, rest)
  parser_val-show v f rest h fuel stop = value_read v h f rest fuel stop

  -- From an empty stream, the parser reads such a value's text back as a whole.
  pub parser-show :
      (v : JsonValue) → IsPrintable v → parser stof [] (show show_double v) ≡ ok (v, [])
  unfolding parser
  parser-show v h =
      ap (parser_val stof (2 * length (show show_double v) + 1))
        (sym (append-nil (show show_double v)))
      ∙ parser_val-show v (2 * length (show show_double v) + 1) [] h (omega arith) tt
