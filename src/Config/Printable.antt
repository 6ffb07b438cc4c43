-- ===== src/Config/Printable.antt =====
-- The values of _include/hao_config.h whose text app/hao_config.cpp reads back: those without a
-- double, with integers of 32 bits and without a quote in a text.
use hao_server.Base.{ℕ, ◌^◌, ◌<◌, ◌≡◌, false, List, [], ◌∷◌, ◌==◌, All}
use hao_server.Base.Int.{ℤ, pos, negsuc}
use hao_server.Config.{
  JsonValue, Items, Fields, object, int, bool, double, string, array, no_items, item, no_fields,
  field, compare_text, behind,
}
use hao_server.Config.Parser.{num_byte}

abbrev pub IsPlain : List ℕ → Type 0
IsPlain s = All (λ c. (c == b'"') ≡ false) s

abbrev pub InRange : ℤ → Type 0
InRange (pos n) = n < 2 ^ 31
InRange (negsuc n) = n < 2 ^ 31

-- All keys stand behind this one in the order of the keys.
abbrev pub Behind : List ℕ → Fields → Type 0
Behind k no_fields = Unit
Behind k (field j v fs) = (compare_text j k ≡ behind) × Behind k fs

abbrev mutual
  pub IsPrintable : JsonValue → Type 0
  IsPrintable (object fs) = ArePrintableFields fs
  IsPrintable (bool b) = Unit
  IsPrintable (int n) = InRange n
  IsPrintable (double d) = ⊥
  IsPrintable (string s) = IsPlain s
  IsPrintable (array vs) = ArePrintable vs

  pub ArePrintable : Items → Type 0
  ArePrintable no_items = Unit
  ArePrintable (item v vs) = IsPrintable v × ArePrintable vs

  pub ArePrintableFields : Fields → Type 0
  ArePrintableFields no_fields = Unit
  ArePrintableFields (field k v fs) =
      IsPlain k × Behind k fs × IsPrintable v × ArePrintableFields fs

-- No number goes on here.
abbrev pub Stops : List ℕ → Type 0
Stops [] = Unit
Stops (c ∷ cs) = num_byte c ≡ false
