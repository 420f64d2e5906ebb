-- ===== src/Tests/Sample.antt =====
-- A small JSON package and the status classes of HTTP, which show that `External` can be met.
use torpc.Common.{
  decimal, ℕ, ◌≤◌, ◌<◌, ◌≡◌, ◌↔◌, refl, String, true, ◌&&◌, List, [], ◌∷◌, Option, none, some,
  arith, ok, err, lookup, str_eq, if◌then◌else◌, ltb, leb,
}
use torpc.External.{External}

mutual
  pub data Json : Type 0 where
    a_text : String → Json
    a_number : ℕ → Json
    an_array : Items → Json
    an_object : Fields → Json

  pub data Items : Type 0 where
    nil : Items
    cons : Json → Items → Items

  pub data Fields : Type 0 where
    end : Fields
    field : String → Json → Fields → Fields

abbrev pub to_fields : List (String × Json) → Fields
to_fields [] = end
to_fields ((k, v) ∷ fs) = field k v (to_fields fs)

abbrev pub items : Items → List Json
items nil = []
items (cons v vs) = v ∷ items vs

abbrev pub find : String → Fields → Option Json
find k end = none
find k (field j v fs) = if str_eq j k then some v else find k fs

abbrev pub get : String → Json → Option Json
get k (an_object fs) = find k fs
get k _ = none

abbrev pub as_str : Json → Option String
as_str (a_text s) = some s
as_str _ = none

abbrev pub as_array : Json → Option (List Json)
as_array (an_array vs) = some (items vs)
as_array _ = none

pub get-object :
    (k : String) (fs : List (String × Json)) → get k (an_object (to_fields fs)) ≡ lookup k fs
unfolding lookup
get-object k [] = refl
get-object k ((j, v) ∷ fs) = ground (arith, get-object k fs)

pub in_range : (a b s : ℕ) → ((leb a s && ltb s b) ≡ true) ↔ ((a ≤ s) × (s < b))
in_range a b s = ground arith

-- Its parser reads a text as itself, and refuses the empty one.
abbrev pub sample : External
sample = record {
  Value = Json;
  text = a_text;
  number = a_number;
  object = λ fs. an_object (to_fields fs);
  as_str = as_str;
  as_array = as_array;
  get = get;
  from_str = λ s. if str_eq s "" then err "EOF while parsing a value" else ok (a_text s);
  as_str-text = λ s. refl;
  get-object = get-object;
  is_success = λ s. leb 200 s && ltb s 300;
  is_server_error = λ s. leb 500 s && ltb s 600;
  status_text = decimal;
  is_success_iff = in_range 200 300;
  is_server_error_iff = in_range 500 600;
}
