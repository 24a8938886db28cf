-- ===== src/Texts/Released.antt =====
-- What the functions of Texts return, and that no C string and no array is left behind.
use zenoh_cpp.Base.{
  ℕ, suc, ◌+◌, ◌≡◌, ◌⊎◌, refl, subst, List, [], ◌∷◌, map, true, false, Option, none, some, arith,
  length, get_elem?, Text, Bool-cases, inl, inr,
}
use zenoh_cpp.Result.{ZResult, is_ok, Run, returned, threw, result_check}
use zenoh_cpp.Texts.{
  StringRequest, z_link_src, z_link_dst, z_link_group, z_link_auth_identifier, z_id_to_string,
  z_encoding_to_string, zc_config_to_string, ArrayRequest, z_link_interfaces, z_hello_locators,
  TextApi, TextCall, link_src, link_dst, link_group, link_auth_identifier, link_interfaces, id_text,
  encoding_text, config_text, config_value, hello_locators, Answer, text, optional, texts,
  copy_and_drop, string_text, if_not_empty, optional_text, get_text, copy_elements, array_texts,
  view_elements, array_views, read_views, read_all_views, text_call,
}

-- An element of a list.
abbrev pub IsAmong : {A : Type 0} → A → List A → Type 0
IsAmong s [] = ⊥
IsAmong s (x ∷ xs) = (s ≡ x) ⊎ IsAmong s xs

-- What the documentation of the C functions promises: how much of the library's memory a string or an
-- array holds, what the library has given out and what was released. A string that is refused holds
-- nothing, and an array gives its strings by index.
pub record TextContract (api : TextApi) : Type 0 where
  pub holds : api.CString → ℕ
  pub holds_array : api.CArray → ℕ
  pub contents : api.CArray → List api.CString
  pub given : api.World → ℕ
  pub released : api.World → ℕ
  pub string_gives :
      (q : StringRequest api.Obj) (w : api.World)
      → let (s, w') = api.string_of q w in
        (given w' ≡ holds s + given w) × (released w' ≡ released w)
  pub get_gives :
      (c : api.Obj) (key : Text) (w : api.World)
      → let ((code, s), w') = api.zc_config_get_from_substr c key w in
        (given w' ≡ holds s + given w) × (released w' ≡ released w)
  pub refused_holds :
      (c : api.Obj) (key : Text) (w : api.World)
      → let ((code, s), w') = api.zc_config_get_from_substr c key w in
        is_ok code ≡ false → holds s ≡ 0
  pub drop_string_releases :
      (s : api.CString) (w : api.World)
      → (released (api.drop_string s w) ≡ holds s + released w)
        × (given (api.drop_string s w) ≡ given w)
  pub array_gives :
      (q : ArrayRequest api.Obj) (w : api.World)
      → let (a, w') = api.array_of q w in
        (given w' ≡ holds_array a + given w) × (released w' ≡ released w)
  pub drop_array_releases :
      (a : api.CArray) (w : api.World)
      → (released (api.drop_array a w) ≡ holds_array a + released w)
        × (given (api.drop_array a w) ≡ given w)
  pub len_contents : (a : api.CArray) → api.z_string_array_len a ≡ length (contents a)
  pub get_contents :
      (a : api.CArray) (i : ℕ) → api.z_string_array_get a i ≡ get_elem? (contents a) i
  -- z_hello_locators makes an array of strings that do not own their characters: these are the hello's,
  -- and stay when the array is dropped.
  pub locators_stay :
      (h : api.Obj) (w : api.World) (s : api.CString)
      → let (a, w') = api.array_of (z_hello_locators h) w in
        IsAmong s (contents a) → api.view_shows s (api.drop_array a w') ≡ some (api.text_of s)

module _ (api : TextApi) (contract : TextContract api) where
  open api use {
    Obj, World, CString, CArray, string_of, zc_config_get_from_substr, text_of, array_of,
  }
  open contract use {given, released, contents}

  abbrev pub world_of : Run World Answer → World
  world_of (returned a err w) = w
  world_of (threw code w) = w

  -- Nothing more is given out and not released.
  abbrev pub Balanced : World → World → Type 0
  Balanced w w' = given w' + released w ≡ released w' + given w

  -- What the text of the string is that the library gives, the end of the run following from it.
  abbrev pub gives_text : StringRequest Obj → World → Text
  gives_text q w = text_of (string_of q w).0

  abbrev pub GetShows : Option ZResult → (code : ZResult) → Text → Run World Answer → Type 0
  GetShows none code t r =
      (is_ok code ≡ true → r ≡ returned (text t) none (world_of r))
      × (is_ok code ≡ false → r ≡ threw code (world_of r))
  GetShows (some e) code t r = r ≡ returned (text t) (some code) (world_of r)

  abbrev pub Shows : TextCall Obj → Option ZResult → World → Run World Answer → Type 0
  Shows (link_src l) err w r = r ≡ returned (text (gives_text (z_link_src l) w)) err (world_of r)
  Shows (link_dst l) err w r = r ≡ returned (text (gives_text (z_link_dst l) w)) err (world_of r)
  Shows (link_group l) err w r =
      r ≡ returned (optional (if_not_empty (gives_text (z_link_group l) w))) err (world_of r)
  Shows (link_auth_identifier l) err w r =
      r
      ≡ returned (optional (if_not_empty (gives_text (z_link_auth_identifier l) w))) err
          (world_of r)
  Shows (link_interfaces l) err w r =
      r
      ≡ returned (texts (map text_of (contents (array_of (z_link_interfaces l) w).0))) err
          (world_of r)
  Shows (id_text i) err w r = r ≡ returned (text (gives_text (z_id_to_string i) w)) err (world_of r)
  Shows (encoding_text e) err w r =
      r ≡ returned (text (gives_text (z_encoding_to_string e) w)) err (world_of r)
  Shows (config_text c) err w r =
      r ≡ returned (text (gives_text (zc_config_to_string c) w)) err (world_of r)
  Shows (config_value c key) err w r =
      let ((code, s), w') = zc_config_get_from_substr c key w in GetShows err code (text_of s) r
  Shows (hello_locators h) err w r =
      r
      ≡ returned (texts (map text_of (contents (array_of (z_hello_locators h) w).0))) err
          (world_of r)

  copy_elements-map :
      (rest : List CString) (i : ℕ) (a : CArray)
      → ((j : ℕ) → api.z_string_array_get a (i + j) ≡ get_elem? rest j)
      → copy_elements api (length rest) i a ≡ some (map text_of rest)
  unfolding copy_elements
  copy_elements-map [] i a h = refl
  copy_elements-map (s ∷ rest) i a h =
      let here : api.z_string_array_get a i ≡ some s =
        subst (λ k. api.z_string_array_get a k ≡ some s) (omega arith) (h 0) in
      let later : (j : ℕ) → api.z_string_array_get a (suc i + j) ≡ get_elem? rest j =
        λ j. subst (λ k. api.z_string_array_get a k ≡ get_elem? rest j) (omega arith) (h (suc j)) in
      rw (copy_elements, here, copy_elements-map rest (suc i) a later)

  abbrev after_string : StringRequest Obj → World → World
  after_string q w = api.drop_string (string_of q w).0 (string_of q w).1

  abbrev after_array : ArrayRequest Obj → World → World
  after_array q w = api.drop_array (array_of q w).0 (array_of q w).1

  string-Balanced : (q : StringRequest Obj) (w : World) → Balanced w (after_string q w)
  string-Balanced q w = omega (
    arith,
    contract.string_gives q w,
    contract.drop_string_releases (string_of q w).0 (string_of q w).1,
  )

  array-Balanced : (q : ArrayRequest Obj) (w : World) → Balanced w (after_array q w)
  array-Balanced q w = omega (
    arith,
    contract.array_gives q w,
    contract.drop_array_releases (array_of q w).0 (array_of q w).1,
  )

  get-Balanced :
      (c : Obj) (key : Text) (w : World)
      → let ((code, s), w') = zc_config_get_from_substr c key w in
        Balanced w (api.drop_string s w') × (is_ok code ≡ false → Balanced w w')
  get-Balanced c key w =
      let ((code, s), w') = zc_config_get_from_substr c key w in
      (
        omega (arith, contract.get_gives c key w, contract.drop_string_releases s w'),
        λ bad. omega (arith, contract.get_gives c key w, contract.refused_holds c key w bad),
      )

  abbrev Goes : TextCall Obj → Option ZResult → World → Type 0
  Goes call err w =
      (r : Run World Answer) × (text_call api call err w ≡ some r)
      × Shows call err w r
      × Balanced w (world_of r)

  array_texts-map :
      (q : ArrayRequest Obj) (err : Option ZResult) (w : World)
      → array_texts api q err w
        ≡ some (
            returned
              (map text_of (contents (array_of q w).0))
              err
              (api.drop_array (array_of q w).0 (array_of q w).1))
  unfolding array_texts
  array_texts-map q err w = rw (
    array_texts,
    contract.len_contents (array_of q w).0,
    copy_elements-map (contents (array_of q w).0) 0 (array_of q w).0 (λ j.
        subst
          (λ k. api.z_string_array_get (array_of q w).0 k ≡ get_elem? (contents (array_of q w).0) j)
          (omega arith) (contract.get_contents (array_of q w).0 j)),
  )

  view_elements-all :
      (rest : List CString) (i : ℕ) (a : CArray)
      → ((j : ℕ) → api.z_string_array_get a (i + j) ≡ get_elem? rest j)
      → view_elements api (length rest) i a ≡ some rest
  unfolding view_elements
  view_elements-all [] i a h = refl
  view_elements-all (s ∷ rest) i a h =
      let here : api.z_string_array_get a i ≡ some s =
        subst (λ k. api.z_string_array_get a k ≡ some s) (omega arith) (h 0) in
      let later : (j : ℕ) → api.z_string_array_get a (suc i + j) ≡ get_elem? rest j =
        λ j. subst (λ k. api.z_string_array_get a k ≡ get_elem? rest j) (omega arith) (h (suc j)) in
      rw (view_elements, here, view_elements-all rest (suc i) a later)

  read_views-map :
      (ss : List CString) (w : World)
      → ((s : CString) → IsAmong s ss → api.view_shows s w ≡ some (text_of s))
      → read_views api ss w ≡ some (map text_of ss)
  unfolding read_views
  read_views-map [] w stay = refl
  read_views-map (s ∷ ss) w stay =
      rw (read_views, stay s (inl refl), read_views-map ss w (λ t later. stay t (inr later)))

  locators-map :
      (h : Obj) (err : Option ZResult) (w : World)
      → read_all_views api (array_views api (z_hello_locators h) err w)
        ≡ some (
            returned (map text_of (contents (array_of (z_hello_locators h) w).0)) err (
              api.drop_array
                (array_of (z_hello_locators h) w).0
                (array_of (z_hello_locators h) w).1))
  unfolding array_views
  locators-map h err w =
      let a = (array_of (z_hello_locators h) w).0 in
      rw (
        array_views,
        contract.len_contents a,
        view_elements-all (contents a) 0 a (λ j.
            subst (λ k. api.z_string_array_get a k ≡ get_elem? (contents a) j) (omega arith)
              (contract.get_contents a j)),
        read_all_views,
        read_views-map (contents a) _ (contract.locators_stay h w),
      )

  config_value-Goes :
      (c : Obj) (key : Text) (err : Option ZResult) (w : World) → Goes (config_value c key) err w
  unfolding text_call get_text result_check copy_and_drop
  config_value-Goes c key (some e) w =
      let ((code, s), w') = zc_config_get_from_substr c key w in
      (
        returned (text (text_of s)) (some code) (api.drop_string s w'),
        refl,
        refl,
        (get-Balanced c key w).0,
      )
  config_value-Goes c key none w =
      elim (Bool-cases (is_ok (zc_config_get_from_substr c key w).0.0)) [
        | inl good ↦
            let ((code, s), w') = zc_config_get_from_substr c key w in
            (
              returned (text (text_of s)) none (api.drop_string s w'),
              rw (text_call, get_text, result_check, good),
              ((λ g. refl), λ b. absurd (cc)),
              (get-Balanced c key w).0,
            )
        | inr bad ↦
            let ((code, s), w') = zc_config_get_from_substr c key w in
            (
              threw code w',
              rw (text_call, get_text, result_check, bad),
              ((λ g. absurd (cc)), λ b. refl),
              (get-Balanced c key w).1 bad,
            )
      ]

  -- Every one of these functions ends, with no read through a null pointer. It returns the text of the
  -- string that the library makes; get_group and get_auth_identifier return nothing where this is
  -- empty; get_interfaces returns the texts of all the strings of the array, in order, and so do the
  -- views that get_locators returns, when they are read behind the call and the hello is alive;
  -- Config::get throws the code of the library, or writes it to `*err` and returns the text even so.
  -- In each case, also when it throws, the memory that the library has given out and that is not
  -- released is what it was: no string and no array leaks, and none is released twice.
  pub text_call_lem :
      (call : TextCall Obj) (err : Option ZResult) (w : World)
      → (r : Run World Answer) × (text_call api call err w ≡ some r)
        × Shows call err w r
        × Balanced w (world_of r)
  unfolding text_call string_text optional_text copy_and_drop
  text_call_lem (link_src l) err w = (
    returned (text (gives_text (z_link_src l) w)) err (after_string (z_link_src l) w),
    refl,
    refl,
    string-Balanced (z_link_src l) w,
  )
  text_call_lem (link_dst l) err w = (
    returned (text (gives_text (z_link_dst l) w)) err (after_string (z_link_dst l) w),
    refl,
    refl,
    string-Balanced (z_link_dst l) w,
  )
  text_call_lem (link_group l) err w = (
    returned (optional (if_not_empty (gives_text (z_link_group l) w))) err
        (after_string (z_link_group l) w),
    refl,
    refl,
    string-Balanced (z_link_group l) w,
  )
  text_call_lem (link_auth_identifier l) err w = (
    returned (optional (if_not_empty (gives_text (z_link_auth_identifier l) w))) err
        (after_string (z_link_auth_identifier l) w),
    refl,
    refl,
    string-Balanced (z_link_auth_identifier l) w,
  )
  text_call_lem (id_text i) err w = (
    returned (text (gives_text (z_id_to_string i) w)) err (after_string (z_id_to_string i) w),
    refl,
    refl,
    string-Balanced (z_id_to_string i) w,
  )
  text_call_lem (encoding_text e) err w = (
    returned (text (gives_text (z_encoding_to_string e) w)) err
        (after_string (z_encoding_to_string e) w),
    refl,
    refl,
    string-Balanced (z_encoding_to_string e) w,
  )
  text_call_lem (config_text c) err w = (
    returned (text (gives_text (zc_config_to_string c) w)) err
        (after_string (zc_config_to_string c) w),
    refl,
    refl,
    string-Balanced (zc_config_to_string c) w,
  )
  text_call_lem (link_interfaces l) err w = (
    returned (texts (map text_of (contents (array_of (z_link_interfaces l) w).0))) err
        (after_array (z_link_interfaces l) w),
    rw (text_call, array_texts-map (z_link_interfaces l) err w),
    refl,
    array-Balanced (z_link_interfaces l) w,
  )
  text_call_lem (hello_locators h) err w = (
    returned (texts (map text_of (contents (array_of (z_hello_locators h) w).0))) err
        (after_array (z_hello_locators h) w),
    rw (text_call, locators-map h err w),
    refl,
    array-Balanced (z_hello_locators h) w,
  )
  text_call_lem (config_value c key) err w = config_value-Goes c key err w
