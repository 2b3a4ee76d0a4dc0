-- ===== src/Buckyball/Invariant.antt =====
-- The shape of the unit's storage in nvr/buckyball/bucykball.cc, which every run keeps, also one that an
-- exception stops.
use spike_online.Base.{
  ℕ, zero, suc, ◌*◌, ◌^◌, ◌<◌, ◌≡◌, refl, arith, true, inl, inr, some, Option-cases, List, [],
  get_elem?, get_or, set, ◌∷◌, length,
}
use mathlib.Core.Option.{some-injective}
use spike_online.Buckyball.Fields.{dim, bank_rows, sp_matrices}
use spike_online.Buckyball.Run.{Run, Result, Stop, done, stopped, next, for, at}
use spike_online.Buckyball.State.{Machine, spad_at, set_spad, set_rf}
use spike_online.Buckyball.Cells.{IsTable, IsShaped, put_cell-IsTable}

-- However a run ends, its state satisfies `P`; and its value satisfies `V`, if it has one.
pub data Ends {S A : Type 0} (P : S → Type 0) (V : A → Type 0) : S × Result A → Type 0 where
  ends : {s : S} {a : A} → V a → P s → Ends P V (s, done a)
  ends_early : {s : S} {why : Stop} → P s → Ends P V (s, stopped why)

abbrev pub Any : {A : Type 0} → A → Type 0
Any a = Unit {0}

module _ {S : Type 0} (P : S → Type 0) where
  pub next-Ends :
      {A B : Type 0} {V : A → Type 0} {W : B → Type 0} {r : S × Result A} {f : A → Run S B}
      → Ends P V r
      → ((a : A) (s : S) → V a → P s → Ends P W (f a s))
      → Ends P W (next r f)
  next-Ends (ends v p) k = k _ _ v p
  next-Ends (ends_early p) k = ends_early p

  pub for-Ends :
      (body : ℕ → Run S (Unit {0})) (n i : ℕ) (s : S)
      → ((k : ℕ) (t : S) → P t → Ends P Any (body k t))
      → P s
      → Ends P Any (for n i body s)
  unfolding for
  for-Ends body zero i s keep p = ends tt p
  for-Ends body (suc n) i s keep p =
      next-Ends (keep i s p) (λ _ t _ q. for-Ends body n (suc i) t keep q)

  pub at-Ends :
      {A : Type 0} (v : List A) (i : ℕ) (s : S)
      → P s
      → Ends P (λ a. get_elem? v i ≡ some a) (at v i s)
  unfolding at
  at-Ends v i s p = elim (Option-cases (get_elem? v i)) [
    | inl absent ↦ rw absent (ends_early p)
    | inr (a, there) ↦ rw there (ends refl p)
  ]

module _ {S : Type 0} {P : S → Type 0} where
  pub Any-Ends : {A : Type 0} {V : A → Type 0} {r : S × Result A} → Ends P V r → Ends P Any r
  Any-Ends (ends v p) = ends tt p
  Any-Ends (ends_early p) = ends_early p

-- The sizes that `reset` gives.
pub record IsSized {Mem : Type 0} (s : Machine Mem) : Type 0 where
  pub spad_shape : IsShaped (sp_matrices * dim) s.buckyball.spad
  pub rf_shape : IsTable 2 bank_rows (2 ^ 32) s.buckyball.rf
  pub is_reset : s.buckyball.resetted ≡ true

get_elem?-some :
    {A : Type 0} (xs : List A) (i : ℕ) (d a : A)
    → get_elem? xs i ≡ some a
    → (i < length xs) × (get_or xs i d ≡ a)
get_elem?-some [] i d a e = cc
get_elem?-some (x ∷ xs) zero d a e = (omega arith, some-injective x a e)
get_elem?-some (x ∷ xs) (suc i) d a e =
    let (lt, same) = get_elem?-some xs i d a e in (omega (arith, lt), same)

-- A table stays one when a number at a place that `at` finds is changed.
put_at-IsTable :
    {n w b : ℕ} (table : List (List ℕ)) (r c value old : ℕ) (row : List ℕ)
    → IsTable n w b table
    → get_elem? table r ≡ some row
    → get_elem? row c ≡ some old
    → value < b
    → IsTable n w b (set table r (set row c value))
put_at-IsTable {n = n} {w = w} {b = b} table r c value old row h hr hc hv =
    let (lr, same) = get_elem?-some table r [] row hr in
    let (lc, _) = get_elem?-some row c 0 old hc in
    let inside : r < n = rw (← h.height) lr in
    let wide : length row ≡ w = rw same at (h.width r inside) in
    rw same at (put_cell-IsTable table r c value h inside (rw (← wide) lc) hv)

module _ {Mem : Type 0} where
  pub spad_at-Ends : (r c : ℕ) (s : Machine Mem) → IsSized s → Ends IsSized Any (spad_at r c s)
  unfolding spad_at
  spad_at-Ends r c s p =
      next-Ends IsSized (at-Ends IsSized s.buckyball.spad r s p)
        λ row t _ q. Any-Ends (at-Ends IsSized row c t q)

  pub set_spad-Ends :
      (r c value : ℕ) (s : Machine Mem)
      → value < 2 ^ 8
      → IsSized s
      → Ends IsSized Any (set_spad r c value s)
  unfolding set_spad at
  set_spad-Ends r c value s small p = elim (Option-cases (get_elem? s.buckyball.spad r)) [
    | inl absent ↦ rw absent (ends_early p)
    | inr (row, hr) ↦ elim (Option-cases (get_elem? row c)) [
      | inl absent ↦ rw (hr, absent) (ends_early p)
      | inr (old, hc) ↦
          rw (hr, hc)
            (ends tt (record {
              spad_shape =
                  put_at-IsTable s.buckyball.spad r c value old row p.spad_shape hr hc small;
              rf_shape = p.rf_shape;
              is_reset = p.is_reset;
            }))
    ]
  ]

  pub set_rf-Ends :
      (bank i value : ℕ) (s : Machine Mem)
      → value < 2 ^ 32
      → IsSized s
      → Ends IsSized Any (set_rf bank i value s)
  unfolding set_rf at
  set_rf-Ends bank i value s small p = elim (Option-cases (get_elem? s.buckyball.rf bank)) [
    | inl absent ↦ rw absent (ends_early p)
    | inr (regs, hr) ↦ elim (Option-cases (get_elem? regs i)) [
      | inl absent ↦ rw (hr, absent) (ends_early p)
      | inr (old, hc) ↦
          rw (hr, hc)
            (ends tt (record {
              spad_shape = p.spad_shape;
              rf_shape = put_at-IsTable s.buckyball.rf bank i value old regs p.rf_shape hr hc small;
              is_reset = p.is_reset;
            }))
    ]
  ]
