-- ===== src/Texts/Tests.antt =====
-- A library that counts what it gives out and what was released; it knows no key but "mode".
use zenoh_cpp.Base.{
  ℕ, arith, ◌+◌, ◌≡◌, refl, List, [], ◌∷◌, false, Option, inl, inr, ◌==◌, none, some, length,
  get_elem?, Text, codes, text_eq, if◌then◌else◌,
}
use zenoh_cpp.Result.{ZResult, z_ok, other, is_ok, Run, returned, threw}
use zenoh_cpp.Texts.{
  StringRequest, z_link_group, TextApi, link_group, link_interfaces, hello_locators, config_value,
  Answer, text, optional, texts, text_call,
}
use zenoh_cpp.Texts.Released.{IsAmong, TextContract, world_of, Balanced, text_call_lem}

-- What was given out, and what was released. A link is a number, and is in no group.
abbrev of_request : StringRequest ℕ → Text
of_request (z_link_group l) = []
of_request q = codes "tcp"

-- A string, and whether it holds memory.
abbrev found : Text → ℕ × ℕ → (ZResult × (Text × ℕ)) × (ℕ × ℕ)
found key w =
    if text_eq key (codes "mode")
    then ((z_ok, (codes "peer", 1)), (1 + w.0, w.1))
    else ((other 4, ([], 0)), w)

-- A string that held its own memory dangles when it is dropped.
abbrev shown : Text × ℕ → Option Text
shown s = if s.1 == 0 then some s.0 else none

abbrev counting : TextApi
counting = record {
  Obj = ℕ;
  World = ℕ × ℕ;
  CString = Text × ℕ;
  CArray = List (Text × ℕ);
  string_of = λ q w. ((of_request q, 1), (1 + w.0, w.1));
  zc_config_get_from_substr = λ c key w. found key w;
  text_of = λ s. s.0;
  drop_string = λ s w. (w.0, s.1 + w.1);
  array_of = λ q w. (((codes "lo", 0) ∷ (codes "eth", 0) ∷ []), (1 + w.0, w.1));
  z_string_array_len = length;
  z_string_array_get = get_elem?;
  drop_array = λ a w. (w.0, 1 + w.1);
  view_shows = λ s w. shown s;
}

found_gives :
    (key : Text) (w : ℕ × ℕ)
    → ((found key w).1.0 ≡ (found key w).0.1.1 + w.0) × ((found key w).1.1 ≡ w.1)
found_gives key w = ground arith

found_refused : (key : Text) (w : ℕ × ℕ) → is_ok (found key w).0.0 ≡ false → (found key w).0.1.1 ≡ 0
found_refused key w h = ground arith

locators_shown :
    (s : Text × ℕ) → IsAmong s ((codes "lo", 0) ∷ (codes "eth", 0) ∷ []) → shown s ≡ some s.0
locators_shown s (inl e) = rw e refl
locators_shown s (inr (inl e)) = rw e refl
locators_shown s (inr (inr never)) = elim never [ ]

unfoldable counting-Contract : TextContract counting
counting-Contract = record {
  holds = λ s. s.1;
  holds_array = λ a. 1;
  contents = λ a. a;
  given = λ w. w.0;
  released = λ w. w.1;
  string_gives = λ q w. (refl, refl);
  get_gives = λ c key w. found_gives key w;
  refused_holds = λ c key w. found_refused key w;
  drop_string_releases = λ s w. (refl, refl);
  array_gives = λ q w. (refl, refl);
  drop_array_releases = λ a w. (refl, refl);
  len_contents = λ a. refl;
  get_contents = λ a i. refl;
  locators_stay = λ h w s among. locators_shown s among;
}

interfaces_run :
    text_call counting (link_interfaces 7) none (3, 3)
    ≡ some (returned (texts (codes "lo" ∷ codes "eth" ∷ [])) none (4, 4))
unfolding text_call
interfaces_run = refl

locators_run :
    text_call counting (hello_locators 7) none (3, 3)
    ≡ some (returned (texts (codes "lo" ∷ codes "eth" ∷ [])) none (4, 4))
unfolding text_call
locators_run = refl

group_run :
    text_call counting (link_group 7) none (3, 3) ≡ some (returned (optional none) none (4, 4))
unfolding text_call
group_run = refl

-- An unknown key throws, and with an `err` gives the empty text.
get_run :
    text_call counting (config_value 7 (codes "id")) none (3, 3) ≡ some (threw (other 4) (3, 3))
unfolding text_call
get_run = refl

text_call_lem_example :
    (r : Run (ℕ × ℕ) Answer) × (text_call counting (config_value 7 (codes "id")) (some z_ok) (3, 3)
      ≡ some r)
    × (r ≡ returned (text []) (some (other 4)) (world_of counting counting-Contract r))
    × Balanced counting counting-Contract (3, 3) (world_of counting counting-Contract r)
unfolding counting-Contract
text_call_lem_example =
    text_call_lem counting counting-Contract (config_value 7 (codes "id")) (some z_ok) (3, 3)
