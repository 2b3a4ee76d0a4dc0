-- ===== src/Buckyball/Shows.antt =====
-- What a state of nvr/buckyball/bucykball.cc shows: the elements of its scratchpad, its register
-- files and its memory; and what reading and writing an element does to that.
use spike_online.Base.{ℕ, ◌^◌, ◌<◌, ◌≡◌, ap, ◌∙◌, ◌&&◌, List, [], get_or, if◌then◌else◌, ◌==◌}
use spike_online.Buckyball.Fields.{dim}
use spike_online.Buckyball.Run.{Gives, gives, at, done}
use spike_online.Buckyball.State.{Machine, spad_at, set_spad}
use spike_online.Buckyball.Cells.{IsShaped, cell, get_elem?-get_or, cell-put_cell, put_cell-IsTable}

module _ {Mem : Type 0} where
  -- A scratchpad of `n` rows with the elements of `f`, the register files `rf`, and a memory of
  -- which `Q` holds.
  pub record Shows (n : ℕ) (rf : List (List ℕ)) (Q : Mem → Type 0) (f : ℕ → ℕ → ℕ) (s : Machine Mem)
      : Type 0 where
    pub same_rf : s.buckyball.rf ≡ rf
    pub holds : Q s.mem
    pub shape : IsShaped n s.buckyball.spad
    pub cells : (r c : ℕ) → cell s.buckyball.spad r c ≡ f r c

  module _ {n : ℕ} {rf : List (List ℕ)} {Q : Mem → Type 0} {f : ℕ → ℕ → ℕ} {s : Machine Mem} where
    pub show_as :
        (g : ℕ → ℕ → ℕ) → Shows n rf Q f s → ((r c : ℕ) → f r c ≡ g r c) → Shows n rf Q g s
    show_as g h e = record {
      same_rf = h.same_rf;
      holds = h.holds;
      shape = h.shape;
      cells = λ r c. h.cells r c ∙ e r c;
    }

    pub spad_at-reads :
        (r c : ℕ) → Shows n rf Q f s → r < n → c < dim → spad_at r c s ≡ (s, done (f r c))
    unfolding spad_at at cell
    spad_at-reads r c h hr hc =
        let spad = s.buckyball.spad in
        let row = get_elem?-get_or spad r [] (rw h.shape.height hr) in
        let elem = get_elem?-get_or (get_or spad r []) c 0 (rw (h.shape.width r hr) hc) in
        rw (row, elem) (ap (λ v. (s, done v)) (h.cells r c))

    pub set_spad-Gives :
        (r c value : ℕ)
        → Shows n rf Q f s
        → r < n
        → c < dim
        → value < 2 ^ 8
        → Gives
            (λ _. Shows n rf Q (λ r' c'. if r == r' && c == c' then value else f r' c'))
            (set_spad r c value s)
    unfolding set_spad at
    set_spad-Gives r c value h hr hc hv =
        let spad = s.buckyball.spad in
        let row = get_elem?-get_or spad r [] (rw h.shape.height hr) in
        let elem = get_elem?-get_or (get_or spad r []) c 0 (rw (h.shape.width r hr) hc) in
        rw (row, elem)
          (gives (record {
            same_rf = h.same_rf;
            holds = h.holds;
            shape = put_cell-IsTable spad r c value h.shape hr hc hv;
            cells = λ r' c'.
                cell-put_cell spad r c value r' c' h.shape hr hc
                ∙ ap (λ (v : ℕ). if r == r' && c == c' then value else v) (h.cells r' c');
          }))
