-- ===== src/Texts.antt =====
-- The functions that return text which the C library makes: those of Link (link.hxx), Id (id.hxx),
-- Encoding (encoding.hxx), Config (config.hxx) and Hello (hello.hxx), all in include/zenoh/api. Each
-- copies a C string, or the strings of an array, and drops what it got; get_locators does not copy, and
-- returns views of the strings.
pub mod Released
mod Tests
use zenoh_cpp.Base.{ℕ, zero, suc, List, [], ◌∷◌, Option, none, some, if◌then◌else◌, Text, is_empty}
use zenoh_cpp.Result.{ZResult, Run, returned, threw, M, pure, ◌>>=◌, ◌>>◌, c_call, result_check}

-- The C functions that make a string, and those that make an array, from a C value.
pub data StringRequest (Obj : Type 0) : Type 0 where
  z_link_src z_link_dst z_link_group z_link_auth_identifier : Obj → StringRequest Obj
  z_id_to_string z_encoding_to_string zc_config_to_string : Obj → StringRequest Obj

pub data ArrayRequest (Obj : Type 0) : Type 0 where
  z_link_interfaces z_hello_locators : Obj → ArrayRequest Obj

pub record TextApi : Type 1 where
  pub Obj : Type 0
  pub World : Type 0
  pub CString : Type 0
  pub CArray : Type 0
  pub string_of : StringRequest Obj → World → CString × World
  pub zc_config_get_from_substr : Obj → Text → World → (ZResult × CString) × World
  -- What z_string_data and z_string_len show.
  pub text_of : CString → Text
  pub drop_string : CString → World → World
  pub array_of : ArrayRequest Obj → World → CArray × World
  pub z_string_array_len : CArray → ℕ
  -- `none` is a null pointer.
  pub z_string_array_get : CArray → ℕ → Option CString
  pub drop_array : CArray → World → World
  -- What a view of a string shows later; `none` is a dangling view.
  pub view_shows : CString → World → Option Text

-- A call of one of the functions, and what it returns.
pub data TextCall (Obj : Type 0) : Type 0 where
  link_src link_dst link_group link_auth_identifier link_interfaces : Obj → TextCall Obj
  id_text encoding_text config_text : Obj → TextCall Obj
  config_value : Obj → (key : Text) → TextCall Obj
  hello_locators : Obj → TextCall Obj

pub data Answer : Type 0 where
  text : Text → Answer
  optional : Option Text → Answer
  texts : List Text → Answer

-- `if (result.empty()) return std::nullopt; return result;`
abbrev pub if_not_empty : Text → Option Text
if_not_empty t = if is_empty t then none else some t

module _ (api : TextApi) where
  open api use {
    Obj, World, CString, CArray, string_of, zc_config_get_from_substr, text_of, drop_string,
    array_of, z_string_array_len, z_string_array_get, drop_array, view_shows,
  }

  -- `std::string out(z_string_data(z_loan(s)), z_string_len(z_loan(s))); z_drop(z_move(s));`
  unfoldable pub copy_and_drop : CString → M World Text
  copy_and_drop s err w = returned (text_of s) err (drop_string s w)

  unfoldable pub string_text : StringRequest Obj → M World Text
  unfolding copy_and_drop
  string_text q = do s ← c_call (string_of q); copy_and_drop s

  -- get_group and get_auth_identifier
  unfoldable pub optional_text : StringRequest Obj → M World (Option Text)
  unfolding string_text
  optional_text q = do t ← string_text q; pure (if_not_empty t)

  -- Config::get. If the check throws, the string is left as it is.
  unfoldable pub get_text : Obj → Text → M World Text
  unfolding copy_and_drop result_check
  get_text config key err w =
      let ((code, s), w') = zc_config_get_from_substr config key w in
      elim (result_check code err w') [
        | returned u err' w'' ↦ copy_and_drop s err' w''
        | threw code' w'' ↦ threw code' w''
      ]

  -- `for (size_t i = 0; i < z_string_array_len(a); i++)`, with the rounds that are left; reading through
  -- a null pointer is `none`.
  unfoldable pub copy_elements : ℕ → ℕ → CArray → Option (List Text)
  copy_elements zero i a = some []
  copy_elements (suc n) i a = elim (z_string_array_get a i) [
    | none ↦ none
    | some s ↦ elim (copy_elements n (suc i) a) [ none ↦ none | some ts ↦ some (text_of s ∷ ts) ]
  ]

  -- The body of get_interfaces.
  unfoldable pub array_texts :
      ArrayRequest Obj → Option ZResult → World → Option (Run World (List Text))
  unfolding copy_elements
  array_texts q err w =
      let (a, w') = array_of q w in
      elim (copy_elements (z_string_array_len a) 0 a) [
        | none ↦ none
        | some ts ↦ some (returned ts err (drop_array a w'))
      ]

  -- The body of get_locators: the strings are not copied, and their views are returned when the array is
  -- dropped.
  unfoldable pub view_elements : ℕ → ℕ → CArray → Option (List CString)
  view_elements zero i a = some []
  view_elements (suc n) i a = elim (z_string_array_get a i) [
    | none ↦ none
    | some s ↦ elim (view_elements n (suc i) a) [ none ↦ none | some ss ↦ some (s ∷ ss) ]
  ]

  unfoldable pub array_views :
      ArrayRequest Obj → Option ZResult → World → Option (Run World (List CString))
  unfolding view_elements
  array_views q err w =
      let (a, w') = array_of q w in
      elim (view_elements (z_string_array_len a) 0 a) [
        | none ↦ none
        | some ss ↦ some (returned ss err (drop_array a w'))
      ]

  -- A program that reads the views; `none` where one of them dangles.
  unfoldable pub read_views : List CString → World → Option (List Text)
  read_views [] w = some []
  read_views (s ∷ ss) w = elim (view_shows s w) [
    | none ↦ none
    | some t ↦ elim (read_views ss w) [ none ↦ none | some ts ↦ some (t ∷ ts) ]
  ]

  abbrev pub read_all_views : Option (Run World (List CString)) → Option (Run World (List Text))
  read_all_views none = none
  read_all_views (some (returned ss err w)) = elim (read_views ss w) [
    | none ↦ none
    | some ts ↦ some (returned ts err w)
  ]
  read_all_views (some (threw code w)) = some (threw code w)

  -- The functions of Link, Id, Encoding, Config and Hello.
  abbrev pub get_src : Obj → M World Text
  get_src link = string_text (z_link_src link)

  abbrev pub get_dst : Obj → M World Text
  get_dst link = string_text (z_link_dst link)

  abbrev pub get_group : Obj → M World (Option Text)
  get_group link = optional_text (z_link_group link)

  abbrev pub get_auth_identifier : Obj → M World (Option Text)
  get_auth_identifier link = optional_text (z_link_auth_identifier link)

  abbrev pub get_interfaces : Obj → Option ZResult → World → Option (Run World (List Text))
  get_interfaces link = array_texts (z_link_interfaces link)

  abbrev pub id_to_string : Obj → M World Text
  id_to_string i = string_text (z_id_to_string i)

  abbrev pub encoding_as_string : Obj → M World Text
  encoding_as_string encoding = string_text (z_encoding_to_string encoding)

  abbrev pub config_to_string : Obj → M World Text
  config_to_string config = string_text (zc_config_to_string config)

  abbrev pub config_get : Obj → Text → M World Text
  config_get config = get_text config

  abbrev pub get_locators : Obj → Option ZResult → World → Option (Run World (List CString))
  get_locators hello = array_views (z_hello_locators hello)

  abbrev pub answer : {A : Type 0} → (A → Answer) → Run World A → Run World Answer
  answer f (returned a err w) = returned (f a) err w
  answer f (threw code w) = threw code w

  abbrev pub answer_texts : Option (Run World (List Text)) → Option (Run World Answer)
  answer_texts none = none
  answer_texts (some r) = some (answer texts r)

  -- One call; `none` is undefined behaviour. The views of get_locators are read behind the call.
  unfoldable pub text_call : TextCall Obj → Option ZResult → World → Option (Run World Answer)
  unfolding string_text optional_text get_text array_texts array_views read_views
  text_call (link_src l) err w = some (answer text (get_src l err w))
  text_call (link_dst l) err w = some (answer text (get_dst l err w))
  text_call (link_group l) err w = some (answer optional (get_group l err w))
  text_call (link_auth_identifier l) err w = some (answer optional (get_auth_identifier l err w))
  text_call (link_interfaces l) err w = answer_texts (get_interfaces l err w)
  text_call (id_text i) err w = some (answer text (id_to_string i err w))
  text_call (encoding_text e) err w = some (answer text (encoding_as_string e err w))
  text_call (config_text c) err w = some (answer text (config_to_string c err w))
  text_call (config_value c key) err w = some (answer text (config_get c key err w))
  text_call (hello_locators h) err w = answer_texts (read_all_views (get_locators h err w))
