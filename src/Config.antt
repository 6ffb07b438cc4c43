-- ===== src/Config.antt =====
-- _include/hao_config.h and app/hao_config.cpp: the values of a configuration file, their text and
-- the parser. Text is bytes. A double is its bit pattern; `std::stof` and the text of a double are
-- arguments.
pub mod Outcome
pub mod Parser
pub mod Printable
pub mod Numbers
pub mod Rounds
pub mod RoundTrip
pub mod Total
pub mod Errors
use hao_server.Base.{
  ℕ, zero, suc, ◌+◌, ◌-◌, ◌*◌, ◌^◌, ◌≡◌, Bool, true, false, ◌&&◌, ◌||◌, not, List, [], ◌∷◌, ◌++◌,
  Option, none, some, ltb, leb, ◌==◌, if◌then◌else◌, take, drop, length,
}
use hao_server.Base.Int.{ℤ, pos, negsuc}
use hao_server.Base.Decimal.{is_digit, decimal, value_of}

-- JsonValue. The fields of an object stand in the order of std::map.
mutual
  pub data JsonValue : Type 0 where
    object : Fields → JsonValue
    bool : Bool → JsonValue
    int : ℤ → JsonValue
    double : ℕ → JsonValue
    string : List ℕ → JsonValue
    array : Items → JsonValue

  pub data Items : Type 0 where
    no_items : Items
    item : JsonValue → Items → Items

  pub data Fields : Type 0 where
    no_fields : Fields
    field : List ℕ → JsonValue → Fields → Fields

-- The order of std::string
pub data Order : Type 0 where
  before same behind : Order

abbrev pub by_order {ℓ} : {A : Type ℓ} → Order → A → A → A → A
by_order before a b c = a
by_order same a b c = b
by_order behind a b c = c

unfoldable pub compare_text : List ℕ → List ℕ → Order
compare_text [] [] = same
compare_text [] (y ∷ ys) = before
compare_text (x ∷ xs) [] = behind
compare_text (x ∷ xs) (y ∷ ys) =
    let rest = compare_text xs ys in if ltb x y then before else if ltb y x then behind else rest

-- get<JsonObject>(value_)[key] = value
unfoldable pub insert_field : List ℕ → JsonValue → Fields → Fields
insert_field k v no_fields = field k v no_fields
insert_field k v (field j w fs) =
    let rest = insert_field k v fs in
    by_order (compare_text k j) (field k v (field j w fs)) (field k v fs) (field j w rest)

-- What `get<JsonObject>(value_)[key]` finds; a missing key gets a default value, an empty object.
unfoldable pub find_field : List ℕ → Fields → JsonValue
find_field k no_fields = object no_fields
find_field k (field j w fs) = let rest = find_field k fs in by_order (compare_text k j) rest w rest

-- JsonValue::operator[] with a key; of anything but an object it gives the static `err`.
unfoldable pub at_key : List ℕ → JsonValue → JsonValue
at_key k (object fs) = find_field k fs
at_key k v = object no_fields

-- operator int and operator bool
unfoldable pub as_int : JsonValue → ℤ
as_int (int n) = n
as_int v = pos 0

unfoldable pub as_bool : JsonValue → Bool
as_bool (bool b) = b
as_bool v = false

-- operator double, whose default 0.0 has the pattern 0, and operator string
unfoldable pub as_double : JsonValue → ℕ
as_double (double d) = d
as_double v = 0

unfoldable pub as_string : JsonValue → List ℕ
as_string (string s) = s
as_string v = []

abbrev pub item_at : ℕ → Items → Option JsonValue
item_at i no_items = none
item_at zero (item v vs) = some v
item_at (suc i) (item v vs) = item_at i vs

abbrev pub count_items : Items → ℕ
count_items no_items = 0
count_items (item v vs) = suc (count_items vs)

abbrev pub count_fields : Fields → ℕ
count_fields no_fields = 0
count_fields (field k v fs) = suc (count_fields fs)

-- JsonValue::operator[] with an index, which reads out of bounds behind the end of an array; of
-- anything but an array it gives the static `err`.
unfoldable pub at_index : ℕ → JsonValue → Option JsonValue
at_index i (array vs) = item_at i vs
at_index i v = some (object no_fields)

-- JsonValue::size
unfoldable pub size : JsonValue → ℕ
size (object fs) = count_fields fs
size (array vs) = count_items vs
size v = 0

-- A decimal number with its sign
unfoldable pub show_int : ℤ → List ℕ
show_int (pos n) = decimal n
show_int (negsuc n) = b'-' ∷ decimal (suc n)

abbrev pub true_text : List ℕ
true_text = b't' ∷ b'r' ∷ b'u' ∷ b'e' ∷ []

abbrev pub false_text : List ℕ
false_text = b'f' ∷ b'a' ∷ b'l' ∷ b's' ∷ b'e' ∷ []

abbrev pub quoted : List ℕ → List ℕ
quoted s = b'"' ∷ (s ++ b'"' ∷ [])

-- A comma in front of all but the first
abbrev pub comma : Bool → List ℕ
comma first = if first then [] else b',' ∷ []

-- operator<<; `first` says that the loop is in its first round.
module _ (show_double : ℕ → List ℕ) where
  unfoldable mutual
    pub show : JsonValue → List ℕ
    show (object fs) = b'{' ∷ show_fields fs true
    show (bool b) = if b then true_text else false_text
    show (int n) = show_int n
    show (double d) = show_double d
    show (string s) = quoted s
    show (array vs) = b'[' ∷ show_items vs true

    pub show_items : Items → Bool → List ℕ
    show_items no_items first = b']' ∷ []
    show_items (item v vs) first = comma first ++ (show v ++ show_items vs false)

    pub show_fields : Fields → Bool → List ℕ
    show_fields no_fields first = b'}' ∷ []
    show_fields (field k v fs) first =
        comma first ++ (quoted k ++ b':' ∷ (show v ++ show_fields fs false))
