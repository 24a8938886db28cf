-- ===== src/Serialization/Toy.antt =====
-- A small format in which a number is one cell and a text is its length and its cells: it shows that
-- the promises of Serialization.Api can be kept, and runs the model in tests.
use zenoh_cpp.Base.{
  ℕ, zero, suc, ◌≡◌, ◌≢◌, refl, ap, List, [], ◌∷◌, ◌++◌, Bool, true, false, Option, none, some,
}
use zenoh_cpp.Result.{ZResult, z_ok, z_edeserialize}
use zenoh_cpp.Serialization.Api.{Api, Format}

abbrev size : List ℕ → ℕ
size [] = 0
size (x ∷ xs) = suc (size xs)

abbrev put_cells : List ℕ → List ℕ → ZResult × List ℕ
put_cells cells s = (z_ok, s ++ cells)

abbrev get_cell : List ℕ → (ZResult × ℕ) × List ℕ
get_cell [] = ((z_edeserialize, 0), [])
get_cell (x ∷ xs) = ((z_ok, x), xs)

abbrev split_at : ℕ → List ℕ → Option (List ℕ × List ℕ)
split_at zero xs = some ([], xs)
split_at (suc n) [] = none
split_at (suc n) (x ∷ xs) = elim (split_at n xs) [
  | none ↦ none
  | some (front, back) ↦ some (x ∷ front, back)
]

abbrev get_cells : List ℕ → (ZResult × List ℕ) × List ℕ
get_cells [] = ((z_edeserialize, []), [])
get_cells (n ∷ xs) = elim (split_at n xs) [
  | none ↦ ((z_edeserialize, []), xs)
  | some (front, back) ↦ ((z_ok, front), back)
]

abbrev at_end : List ℕ → Bool
at_end [] = true
at_end (x ∷ xs) = false

abbrev pub toy : Api
toy = record {
  Ser = List ℕ;
  De = List ℕ;
  Payload = List ℕ;
  empty = [];
  finish = λ s. s;
  put_arith = λ k n s. put_cells (n ∷ []) s;
  put_string = λ t s. put_cells (size t ∷ t) s;
  put_length = λ n s. put_cells (n ∷ []) s;
  from_bytes = λ b. b;
  is_done = at_end;
  get_arith = λ k d. get_cell d;
  get_string = get_cells;
  get_length = get_cell;
}

split_at-append : (t rest : List ℕ) → split_at (size t) (t ++ rest) ≡ some (t, rest)
split_at-append [] rest = refl
split_at-append (x ∷ t) rest =
    ap
      (λ (o : Option (List ℕ × List ℕ)).
        let tail : Option (List ℕ × List ℕ) = elim o [
          | none ↦ none
          | some (front, back) ↦ some (x ∷ front, back)
        ] in
        tail)
      (split_at-append t rest)

pub get_string_back :
    (t rest d : List ℕ)
    → d ≡ (size t ∷ t) ++ rest
    → (d' : List ℕ) × (get_cells d ≡ ((z_ok, t), d')) × (d' ≡ rest)
get_string_back t rest d e = (rest, (rw e (rw (split_at-append t rest, get_cells))), refl)

pub get_cell_back :
    (n : ℕ) (rest d : List ℕ)
    → d ≡ (n ∷ []) ++ rest
    → (d' : List ℕ) × (get_cell d ≡ ((z_ok, n), d')) × (d' ≡ rest)
get_cell_back n rest d e = (rest, rw e, refl)

pub at_end_nil : (d : List ℕ) → d ≡ [] → at_end d ≡ true
at_end_nil [] e = refl
at_end_nil (x ∷ xs) e = absurd (cc)

pub at_end_cons : (d : List ℕ) → d ≢ [] → at_end d ≡ false
at_end_cons [] h = absurd (h refl)
at_end_cons (x ∷ xs) h = refl

abbrev pub toy_format : Format toy
toy_format = record {
  written = λ s. s;
  unread = λ d. d;
  arith_code = λ k n. n ∷ [];
  string_code = λ t. size t ∷ t;
  length_code = λ n. n ∷ [];
  written-empty = refl;
  put_arith_appends = λ k n s h. refl;
  put_string_appends = λ t s h. refl;
  put_length_appends = λ n s h. refl;
  unread-from_bytes = λ s. refl;
  get_arith_reads = λ k n rest d h. get_cell_back n rest d;
  get_string_reads = get_string_back;
  get_length_reads = λ n rest d h. get_cell_back n rest d;
  is_done_at_end = at_end_nil;
  is_done_before_end = at_end_cons;
}
