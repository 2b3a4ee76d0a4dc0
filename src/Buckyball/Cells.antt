-- ===== src/Buckyball/Cells.antt =====
-- The scratchpad of nvr/buckyball/bucykball.cc as a function from rows and columns to elements.
use spike_online.Base.{
  ℕ, zero, suc, ◌^◌, ◌<◌, ◌≡◌, refl, ap, ◌∙◌, arith, inl, inr, ◌&&◌, Bool-cases, if_both, some,
  List, [], ◌∷◌, get_elem?, get_or, set, length, length-set, get_or-set_self, get_or-set_ne,
  if◌then◌else◌, ◌==◌,
}
use spike_online.Buckyball.Fields.{dim}

pub get_elem?-get_or {ℓ} :
    {A : Type ℓ} (xs : List A) (i : ℕ) (d : A)
    → i < length xs
    → get_elem? xs i ≡ some (get_or xs i d)
get_elem?-get_or [] i d h = elim h [ ]
get_elem?-get_or (x ∷ xs) zero d h = refl
get_elem?-get_or (x ∷ xs) (suc i) d h = get_elem?-get_or xs i d (omega (arith, h))

-- The element at a row and a column, 0 outside.
unfoldable pub cell : List (List ℕ) → ℕ → ℕ → ℕ
cell spad r c = get_or (get_or spad r []) c 0

-- `n` rows of `w` numbers below `b`.
pub record IsTable (n w b : ℕ) (spad : List (List ℕ)) : Type 0 where
  pub height : length spad ≡ n
  pub width : (r : ℕ) → r < n → length (get_or spad r []) ≡ w
  pub bytes : (r c : ℕ) → cell spad r c < b

-- `n` rows of `dim` bytes.
abbrev pub IsShaped : ℕ → List (List ℕ) → Type 0
IsShaped n = IsTable n dim (2 ^ 8)

abbrev pub put_cell : List (List ℕ) → ℕ → ℕ → ℕ → List (List ℕ)
put_cell spad r c value = set spad r (set (get_or spad r []) c value)

pub cell-put_cell :
    {n w b : ℕ} (spad : List (List ℕ)) (r c value r' c' : ℕ)
    → IsTable n w b spad
    → r < n
    → c < w
    → cell (put_cell spad r c value) r' c' ≡ (if r == r' && c == c' then value else cell spad r' c')
unfolding cell
cell-put_cell spad r c value r' c' h hr hc = elim (Bool-cases (r == r')) [
  | inr f ↦ rw f (
      ap (λ (row : List ℕ). get_or row c' 0)
        (get_or-set_ne spad r r' (set (get_or spad r []) c value) [] (ground (arith, f))))
  | inl t ↦
      let same : r' ≡ r = ground (arith, t) in
      let row = get_or-set_self spad r (set (get_or spad r []) c value) [] (rw h.height hr) in
      rw (t, same, row)
        (elim (Bool-cases (c == c')) [
          | inl k ↦
              let here : c' ≡ c = ground (arith, k) in
              rw (k, here) (get_or-set_self (get_or spad r []) c value 0 (rw (h.width r hr) hc))
          | inr k ↦ rw k (get_or-set_ne (get_or spad r []) c c' value 0 (ground (arith, k)))
        ])
]

pub put_cell-IsTable :
    {n w b : ℕ} (spad : List (List ℕ)) (r c value : ℕ)
    → IsTable n w b spad
    → r < n
    → c < w
    → value < b
    → IsTable n w b (put_cell spad r c value)
put_cell-IsTable {n = n} {w = w} {b = b} spad r c value h hr hc hv = record {
  height = length-set spad r (set (get_or spad r []) c value) ∙ h.height;
  width = wide;
  bytes = λ r' c'.
      rw (cell-put_cell spad r c value r' c' h hr hc)
        (if_both (λ v. v < b) (r == r' && c == c') hv (h.bytes r' c'));
}
  where
    wide : (r' : ℕ) → r' < n → length (get_or (put_cell spad r c value) r' []) ≡ w
    wide r' lt = elim (Bool-cases (r == r')) [
      | inr f ↦
          ap (length {A = ℕ})
            (get_or-set_ne spad r r' (set (get_or spad r []) c value) [] (ground (arith, f)))
          ∙ h.width r' lt
      | inl t ↦
          let same : r' ≡ r = ground (arith, t) in
          let row = get_or-set_self spad r (set (get_or spad r []) c value) [] (rw h.height hr) in
          rw (same, row) (length-set (get_or spad r []) c value ∙ h.width r hr)
    ]
