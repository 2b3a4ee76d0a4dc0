-- ===== src/Buckyball/Scatter.antt =====
-- `scatter_mvin` of nvr/buckyball/bucykball.cc: words of the memory, lowest byte first, in a register file.
use spike_online.Base.{
  ℕ, suc, ◌+◌, ◌*◌, ◌/◌, ◌^◌, ◌≤◌, ◌<◌, ◌≡◌, refl, ap, ◌∙◌, arith, ◌&&◌, inl, inr, Bool-cases, List,
  [], get_or, if◌then◌else◌, ◌==◌, ltb, bit_or, bit_or_low, bit_and-le, wrap,
}
use spike_online.Buckyball.Fields.{bank_rows, base_dram_addr, rf_bank, count}
use spike_online.Buckyball.Run.{Gives, gives, at, for-Gives, next-Gives, weaken-Gives}
use spike_online.Buckyball.State.{Mmu, Machine, set_rf, load_byte, read_bytes, read_from_dram}
use spike_online.Buckyball.Move.{scatter_mvin}
use spike_online.Buckyball.Cells.{IsTable, cell, get_elem?-get_or, cell-put_cell, put_cell-IsTable}
use spike_online.Buckyball.Ram.{Ram, Has}

module _ {Mem : Type 0} where
  -- Register files with the words of `h`, the scratchpad `spad`, and a memory of which `Q` holds.
  pub record ShowsWords (spad : List (List ℕ)) (Q : Mem → Type 0) (h : ℕ → ℕ → ℕ) (s : Machine Mem)
      : Type 0 where
    pub same_spad : s.buckyball.spad ≡ spad
    pub holds : Q s.mem
    pub shape : IsTable 2 bank_rows (2 ^ 32) s.buckyball.rf
    pub words : (bank i : ℕ) → cell s.buckyball.rf bank i ≡ h bank i

  module _ {spad : List (List ℕ)} {Q : Mem → Type 0} {h : ℕ → ℕ → ℕ} {s : Machine Mem} where
    show_words :
        (h' : ℕ → ℕ → ℕ)
        → ShowsWords spad Q h s
        → ((bank i : ℕ) → h bank i ≡ h' bank i)
        → ShowsWords spad Q h' s
    show_words h' p e = record {
      same_spad = p.same_spad;
      holds = p.holds;
      shape = p.shape;
      words = λ bank i. p.words bank i ∙ e bank i;
    }

    set_rf-Gives :
        (bank i value : ℕ)
        → ShowsWords spad Q h s
        → bank < 2
        → i < bank_rows
        → value < 2 ^ 32
        → Gives
            (λ _. ShowsWords spad Q (λ b k. if bank == b && i == k then value else h b k))
            (set_rf bank i value s)
    unfolding set_rf at cell
    set_rf-Gives bank i value p hb hi hv =
        let rf = s.buckyball.rf in
        let regs = get_elem?-get_or rf bank [] (rw p.shape.height hb) in
        let old = get_elem?-get_or (get_or rf bank []) i 0 (rw (p.shape.width bank hb) hi) in
        rw (regs, old)
          (gives (record {
            same_spad = p.same_spad;
            holds = p.holds;
            shape = put_cell-IsTable rf bank i value p.shape hb hi hv;
            words = λ b k.
                cell-put_cell rf bank i value b k p.shape hb hi
                ∙ ap (λ (v : ℕ). if bank == b && i == k then value else v) (p.words b k);
          }))

-- Four bytes from `a` on.
abbrev pub word : (ℕ → ℕ) → ℕ → ℕ
word g a = g a + g (a + 1) * 2 ^ 8 + g (a + 2) * 2 ^ 16 + g (a + 3) * 2 ^ 24

joined :
    (b c d e : ℕ)
    → b < 2 ^ 8
    → c < 2 ^ 8
    → d < 2 ^ 8
    → e < 2 ^ 8
    → wrap 32 (
        bit_or
          (wrap 32
            (bit_or (wrap 32 (bit_or (wrap 32 (bit_or 0 (b * 2 ^ 0))) (c * 2 ^ 8))) (d * 2 ^ 16)))
          (e * 2 ^ 24))
      ≡ b + c * 2 ^ 8 + d * 2 ^ 16 + e * 2 ^ 24
joined b c d e hb hc hd he =
    let one : wrap 32 (bit_or 0 (b * 2 ^ 0)) ≡ b =
      rw (bit_or_low 0 0 b (omega arith)) (omega (arith, hb)) in
    let two : wrap 32 (bit_or b (c * 2 ^ 8)) ≡ c * 2 ^ 8 + b =
      rw (bit_or_low 8 b c hb) (omega (arith, hb, hc)) in
    let three : wrap 32 (bit_or (c * 2 ^ 8 + b) (d * 2 ^ 16)) ≡ d * 2 ^ 16 + (c * 2 ^ 8 + b) =
      rw (bit_or_low 16 (c * 2 ^ 8 + b) d (omega (arith, hb, hc))) (omega (arith, hb, hc, hd)) in
    let four : wrap 32 (bit_or (d * 2 ^ 16 + (c * 2 ^ 8 + b)) (e * 2 ^ 24))
        ≡ e * 2 ^ 24 + (d * 2 ^ 16 + (c * 2 ^ 8 + b)) =
      rw (bit_or_low 24 (d * 2 ^ 16 + (c * 2 ^ 8 + b)) e (omega (arith, hb, hc, hd)))
        (omega (arith, hb, hc, hd, he)) in
    rw (one, two, three, four) (omega arith)

-- The register files with `k` words from `a` on at the start of bank `bank`.
abbrev pub scattered : (ℕ → ℕ → ℕ) → (ℕ → ℕ) → ℕ → ℕ → ℕ → ℕ → ℕ → ℕ
scattered h g a bank k b i = if bank == b && ltb i k then word g (a + i * 4) else h b i

module _ {Mem : Type 0} {mmu : Mmu Mem} (ram : Ram mmu) where
  -- Four loads, one after the other.
  read_word-Gives :
      (g : ℕ → ℕ) (spad : List (List ℕ)) (h : ℕ → ℕ → ℕ) (s : Machine Mem) (a : ℕ)
      → ShowsWords spad (Has ram g) h s
      → ram.base ≤ a
      → a + 4 ≤ ram.base + ram.size
      → Gives
          (λ v t. (v ≡ word g a) × (v < 2 ^ 32) × ShowsWords spad (Has ram g) h t)
          (read_from_dram mmu 4 a s)
  unfolding read_from_dram read_bytes load_byte
  read_word-Gives g spad h s a p lo hi =
      let start : a + 0 ≡ a = omega arith in
      let (m1, load1, good1, same1) = ram.load_answers s.mem a p.holds.0 lo (omega (arith, hi)) in
      let (m2, load2, good2, same2) =
        ram.load_answers m1 (a + 1) good1 (omega (arith, lo)) (omega (arith, hi)) in
      let (m3, load3, good3, same3) =
        ram.load_answers m2 (a + 2) good2 (omega (arith, lo)) (omega (arith, hi)) in
      let (m4, load4, good4, same4) =
        ram.load_answers m3 (a + 3) good3 (omega (arith, lo)) (omega (arith, hi)) in
      let byte1 = p.holds.1 a in
      let byte2 = same1 (a + 1) ∙ p.holds.1 (a + 1) in
      let byte3 = same2 (a + 2) ∙ same1 (a + 2) ∙ p.holds.1 (a + 2) in
      let byte4 = same3 (a + 3) ∙ same2 (a + 3) ∙ same1 (a + 3) ∙ p.holds.1 (a + 3) in
      let small : (x : ℕ) → g x < 2 ^ 8 = λ x. rw (p.holds.1 x) at (ram.byte s.mem x p.holds.0) in
      let value =
        joined (g a) (g (a + 1)) (g (a + 2)) (g (a + 3)) (small a) (small (a + 1)) (small (a + 2))
          (small (a + 3)) in
      rw (start, load1, load2, load3, load4, byte1, byte2, byte3, byte4, value)
        (gives (
          refl,
          omega (arith, small a, small (a + 1), small (a + 2), small (a + 3)),
          record {
            same_spad = p.same_spad;
            holds = (good4, λ x. same4 x ∙ same3 x ∙ same2 x ∙ same1 x ∙ p.holds.1 x);
            shape = p.shape;
            words = p.words;
          },
        ))

  rf_bank-lt : (rs2 : ℕ) → rf_bank rs2 < 2
  unfolding rf_bank
  rf_bank-lt rs2 = omega (arith, bit_and-le (rs2 / 2 ^ 0) 0x1)

  -- If the words are in range and no more than a bank has room for, `scatter_mvin` ends, without an
  -- exception, with the words of the memory, lowest byte first, at the start of the bank, and with
  -- everything else as it was.
  pub scatter_mvin-scattered :
      (g : ℕ → ℕ) (spad : List (List ℕ)) (h : ℕ → ℕ → ℕ) (s : Machine Mem) (rs1 rs2 : ℕ)
      → ShowsWords spad (Has ram g) h s
      → ram.base ≤ base_dram_addr rs1
      → base_dram_addr rs1 + count rs2 * 4 ≤ ram.base + ram.size
      → count rs2 ≤ bank_rows
      → Gives
          (λ _.
            ShowsWords spad
              (Has ram g)
              (scattered h g (base_dram_addr rs1) (rf_bank rs2) (count rs2)))
          (scatter_mvin mmu rs1 rs2 s)
  unfolding scatter_mvin
  scatter_mvin-scattered g spad h s rs1 rs2 p lo hi room =
      let a = base_dram_addr rs1 in
      let bank = rf_bank rs2 in
      let n = count rs2 in
      for-Gives (λ k. ShowsWords spad (Has ram g) (scattered h g a bank k)) _ n 0 n s (omega arith)
        (λ k t _ lt q.
          next-Gives
            (read_word-Gives g spad (scattered h g a bank k) t (a + k * 4) q (omega (arith, lo))
              (omega (arith, hi, lt)))
            λ v u r.
              weaken-Gives
                (set_rf-Gives bank k v r.2 (rf_bank-lt rs2) (omega (arith, room, lt)) r.1)
                λ _ w r'. show_words (scattered h g a bank (suc k)) r' (λ b i.
                  elim (Bool-cases (k == i)) [
                    | inl same ↦
                        let here : i ≡ k = ground (arith, same) in rw (here, r.0) (ground arith)
                    | inr other ↦ ground (arith, other)
                  ]))
        (show_words (scattered h g a bank 0) p (λ b i. ground arith))
