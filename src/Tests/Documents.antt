-- ===== src/Tests/Documents.antt =====
-- JSON values that can be looked into, to run the stratum client on.
use fpga_ethash.Json.{Json, JsonError, logic_error}
use fpga_ethash.Base.{
  ℕ, zero, suc, List, [], ◌∷◌, Bool, true, false, Result, ok, err, text_eq, if◌then◌else◌,
}

mutual
  pub data Doc : Type 0 where
    nothing : Doc
    flag : Bool → Doc
    num : ℕ → Doc
    word : List ℕ → Doc
    list : Docs → Doc
    object : Members → Doc

  pub data Docs : Type 0 where
    nil : Docs
    cons : Doc → Docs → Docs

  pub data Members : Type 0 where
    end : Members
    member : List ℕ → Doc → Members → Members

abbrev find : Members → List ℕ → Doc → Doc
find end key default = default
find (member k v rest) key default =
    let later = find rest key default in if text_eq k key then v else later

abbrev has : Members → List ℕ → Bool
has end key = false
has (member k v rest) key = let later = has rest key in if text_eq k key then true else later

abbrev nth : Docs → ℕ → Doc → Doc
nth nil i default = default
nth (cons v rest) zero default = v
nth (cons v rest) (suc i) default = nth rest i default

abbrev how_many : Docs → ℕ
how_many nil = 0
how_many (cons v rest) = suc (how_many rest)

abbrev values : Docs → List Doc
values nil = []
values (cons v rest) = v ∷ values rest

abbrev pairs : Members → List (List ℕ × Doc)
pairs end = []
pairs (member k v rest) = (k, v) ∷ pairs rest

abbrev get : Doc → List ℕ → Doc → Result JsonError Doc
get (object ms) key default = ok (find ms key default)
get nothing key default = ok default
get _ key default = err logic_error

abbrev at : Doc → ℕ → Doc → Result JsonError Doc
at (list vs) i default = ok (nth vs i default)
at nothing i default = ok default
at _ i default = err logic_error

abbrev is_member : Doc → List ℕ → Result JsonError Bool
is_member (object ms) key = ok (has ms key)
is_member nothing key = ok false
is_member _ key = err logic_error

abbrev empty : Doc → Bool
empty nothing = true
empty (list nil) = true
empty (object end) = true
empty _ = false

abbrev size : Doc → ℕ
size (list vs) = how_many vs
size _ = 0

abbrev as_string : Doc → Result JsonError (List ℕ)
as_string (word s) = ok s
as_string nothing = ok []
as_string _ = err logic_error

abbrev as_uint : Doc → Result JsonError ℕ
as_uint (num n) = ok n
as_uint nothing = ok 0
as_uint _ = err logic_error

abbrev as_bool : Doc → Result JsonError Bool
as_bool (flag b) = ok b
as_bool nothing = ok false
as_bool (num zero) = ok false
as_bool (num (suc n)) = ok true
as_bool _ = err logic_error

abbrev is_null : Doc → Bool
is_null nothing = true
is_null _ = false

abbrev is_bool : Doc → Bool
is_bool (flag b) = true
is_bool _ = false

abbrev to_bool? : Doc → Bool
to_bool? (flag b) = true
to_bool? (num n) = true
to_bool? nothing = true
to_bool? _ = false

abbrev is_string : Doc → Bool
is_string (word s) = true
is_string _ = false

abbrev is_array : Doc → Bool
is_array (list vs) = true
is_array _ = false

abbrev is_object : Doc → Bool
is_object (object ms) = true
is_object _ = false

abbrev elements : Doc → List Doc
elements (list vs) = values vs
elements _ = []

abbrev members : Doc → List (List ℕ × Doc)
members (object ms) = pairs ms
members _ = []

abbrev pub docs : Json
docs = record {
  Value = Doc;
  null = nothing;
  text = word;
  number = num;
  is_null = is_null;
  is_bool = is_bool;
  is_string = is_string;
  is_array = is_array;
  is_object = is_object;
  to_bool? = to_bool?;
  to_string? = is_string;
  to_array? = is_array;
  to_object? = is_object;
  is_member = is_member;
  empty = empty;
  size = size;
  get = get;
  at = at;
  as_string = as_string;
  as_uint = as_uint;
  as_bool = as_bool;
  elements = elements;
  members = members;
}
