-- ===== src/Buckyball/Sized.antt =====
-- The instructions of nvr/buckyball/bucykball.cc keep the sizes of the unit's storage, whether they end or an
-- exception stops them.
use spike_online.Base.{
  ℕ, zero, suc, ◌+◌, ◌*◌, ◌/◌, ◌%◌, ◌^◌, ◌<◌, arith, true, false, inl, inr, Bool-cases, none, some,
  List, Bool, ltb, ◌&&◌, u8, not, is_neg, Option,
}
use native.Mathlib.Nat.{one-le-pow, mod-lt}
use spike_online.Buckyball.Fields.{dim}
use spike_online.Buckyball.Run.{Run}
use spike_online.Buckyball.State.{
  Mmu, Machine, load_byte, store_byte, read_bytes, read_from_dram, write_to_dram, loaded, stored,
}
use spike_online.Buckyball.Move.{mvin_elem, mvin, mvout_elem, mvout, scatter_mvin}
use spike_online.Buckyball.Multiply.{
  dot_loop, mul_row, mul_warp16, add_scaled_row, entry_round, entry_loop, int_lt, sparse_col,
  sparse_mul,
}
use spike_online.Buckyball.Invariant.{
  Ends, ends, ends_early, Any, IsSized, next-Ends, for-Ends, at-Ends, spad_at-Ends, set_spad-Ends,
  set_rf-Ends,
}

module _ {Mem : Type 0} where
  dot_loop-Ends :
      (a b c m k acc : ℕ) (s : Machine Mem)
      → acc < 2 ^ 8
      → IsSized s
      → Ends IsSized (λ v. v < 2 ^ 8) (dot_loop a b c m k acc s)
  unfolding dot_loop
  dot_loop-Ends a b c zero k acc s h p = ends h p
  dot_loop-Ends a b c (suc m) k acc s h p = next-Ends IsSized (spad_at-Ends a k s p) λ x t _ q.
      next-Ends IsSized (spad_at-Ends (b + k) c t q)
        λ y u _ q'. dot_loop-Ends a b c m (suc k) (u8 (acc + x * y)) u (omega arith) q'

  pub mul_warp16-Ends :
      (rs1 rs2 : ℕ) (s : Machine Mem) → IsSized s → Ends IsSized Any (mul_warp16 rs1 rs2 s)
  unfolding mul_warp16 mul_row
  mul_warp16-Ends rs1 rs2 s p =
      for-Ends IsSized _ _ 0 s
        (λ i t q.
          next-Ends IsSized
            (for-Ends IsSized _ dim 0 t (λ c u q'. set_spad-Ends _ c 0 u (omega arith) q') q)
            λ _ t' _ q'.
              for-Ends IsSized _ dim 0 t'
                (λ c u q''.
                  next-Ends IsSized (dot_loop-Ends _ _ c dim 0 0 u (omega arith) q'')
                    λ v u' small r. set_spad-Ends _ c v u' small r)
                q')
        p

  add_scaled_row-Ends :
      (c b v : ℕ) (s : Machine Mem) → IsSized s → Ends IsSized Any (add_scaled_row c b v s)
  unfolding add_scaled_row
  add_scaled_row-Ends c b v s p =
      for-Ends IsSized _ dim 0 s
        (λ j t q. next-Ends IsSized (spad_at-Ends b j t q) λ x u _ q'.
          next-Ends IsSized (spad_at-Ends c j u q')
            λ y u' _ r. set_spad-Ends c j (u8 (y + v * x)) u' (omega arith) r)
        p

  entry_round-Ends :
      (a b c : ℕ) (row_indices : List ℕ) (col nz : ℕ) (s : Machine Mem)
      → IsSized s
      → Ends IsSized Any (entry_round a b c row_indices col nz s)
  unfolding entry_round
  entry_round-Ends a b c row_indices col nz s p =
      next-Ends IsSized (at-Ends IsSized row_indices nz s p) λ row t _ q.
        elim (Bool-cases (not (is_neg 32 row) && ltb row dim)) [
          | inl inside ↦ rw inside (
              next-Ends IsSized (spad_at-Ends (a + nz / dim) (nz % dim) t q)
                λ v u _ q'. add_scaled_row-Ends (c + row) (b + col) v u q')
          | inr out ↦ rw out (ends tt q)
        ]

  entry_loop-Ends :
      (round : ℕ → Run (Machine Mem) (Unit {0})) (m limit col_end nz : ℕ) (s : Machine Mem)
      → ((k : ℕ) (t : Machine Mem) → IsSized t → Ends IsSized Any (round k t))
      → IsSized s
      → Ends IsSized Any (entry_loop m limit col_end round nz s)
  unfolding entry_loop
  entry_loop-Ends round zero limit col_end nz s keep p = ends tt p
  entry_loop-Ends round (suc m) limit col_end nz s keep p =
      elim (Bool-cases (int_lt nz col_end && ltb nz limit)) [
        | inl more ↦ rw more (
            next-Ends IsSized (keep nz s p)
              λ _ t _ q. entry_loop-Ends round m limit col_end (suc nz) t keep q)
        | inr over ↦ rw over (ends tt p)
      ]

  pub sparse_mul-Ends :
      (rs1 rs2 : ℕ) (s : Machine Mem) → IsSized s → Ends IsSized Any (sparse_mul rs1 rs2 s)
  unfolding sparse_mul sparse_col
  sparse_mul-Ends rs1 rs2 s p =
      next-Ends IsSized (at-Ends IsSized s.buckyball.rf _ s p) λ row_indices t _ q.
        next-Ends IsSized (at-Ends IsSized s.buckyball.rf _ t q) λ col_ptrs u _ q'.
          for-Ends IsSized _ dim 0 u
            (λ col u' r. next-Ends IsSized (at-Ends IsSized col_ptrs col u' r) λ start v _ r'.
              next-Ends IsSized (at-Ends IsSized col_ptrs (col + 1) v r') λ stop v' _ r''.
                entry_loop-Ends _ _ _ stop start v'
                  (λ k w w'. entry_round-Ends _ _ _ row_indices col k w w') r'')
            q'

module _ {Mem : Type 0} (mmu : Mmu Mem) where
  load_byte-Ends : (a : ℕ) (s : Machine Mem) → IsSized s → Ends IsSized Any (load_byte mmu a s)
  unfolding load_byte
  load_byte-Ends a s p = loaded-Ends (mmu.load s.mem a)
    where
      loaded-Ends : (r : Mem × Option ℕ) → Ends IsSized Any (loaded s r)
      loaded-Ends (m, some byte) =
          ends tt
            (record { spad_shape = p.spad_shape; rf_shape = p.rf_shape; is_reset = p.is_reset })
      loaded-Ends (m, none) =
          ends_early
            (record { spad_shape = p.spad_shape; rf_shape = p.rf_shape; is_reset = p.is_reset })

  store_byte-Ends :
      (a v : ℕ) (s : Machine Mem) → IsSized s → Ends IsSized Any (store_byte mmu a v s)
  unfolding store_byte
  store_byte-Ends a v s p = stored-Ends (mmu.store s.mem a v)
    where
      stored-Ends : (r : Mem × Bool) → Ends IsSized Any (stored s r)
      stored-Ends (m, true) =
          ends tt
            (record { spad_shape = p.spad_shape; rf_shape = p.rf_shape; is_reset = p.is_reset })
      stored-Ends (m, false) =
          ends_early
            (record { spad_shape = p.spad_shape; rf_shape = p.rf_shape; is_reset = p.is_reset })

  -- What is read fits its type.
  read_bytes-Ends :
      (w a n i value : ℕ) (s : Machine Mem)
      → value < 2 ^ w
      → IsSized s
      → Ends IsSized (λ v. v < 2 ^ w) (read_bytes mmu w a n i value s)
  unfolding read_bytes
  read_bytes-Ends w a zero i value s h p = ends h p
  read_bytes-Ends w a (suc n) i value s h p =
      next-Ends IsSized (load_byte-Ends (a + i) s p)
        λ b t _ q. read_bytes-Ends w a n (suc i) _ t (mod-lt _ (one-le-pow w 2 (omega arith))) q

  read_from_dram-Ends :
      (size a : ℕ) (s : Machine Mem)
      → IsSized s
      → Ends IsSized (λ v. v < 2 ^ (size * 8)) (read_from_dram mmu size a s)
  unfolding read_from_dram
  read_from_dram-Ends size a s p =
      read_bytes-Ends (size * 8) a size 0 0 s (one-le-pow (size * 8) 2 (omega arith)) p

  pub mvin-Ends :
      (rs1 rs2 : ℕ) (s : Machine Mem) → IsSized s → Ends IsSized Any (mvin mmu rs1 rs2 s)
  unfolding mvin mvin_elem
  mvin-Ends rs1 rs2 s p =
      for-Ends IsSized _ _ 0 s
        (λ i t q.
          for-Ends IsSized _ dim 0 t
            (λ j u q'.
              next-Ends IsSized (read_from_dram-Ends 1 _ u q')
                λ v u' small r. set_spad-Ends _ j v u' small r)
            q)
        p

  pub mvout-Ends :
      (rs1 rs2 : ℕ) (s : Machine Mem) → IsSized s → Ends IsSized Any (mvout mmu rs1 rs2 s)
  unfolding mvout mvout_elem write_to_dram
  mvout-Ends rs1 rs2 s p =
      for-Ends IsSized _ _ 0 s
        (λ i t q.
          for-Ends IsSized _ dim 0 t
            (λ j u q'.
              next-Ends IsSized (spad_at-Ends _ j u q')
                λ v u' _ r. for-Ends IsSized _ 1 0 u' (λ b w r'. store_byte-Ends _ _ w r') r)
            q)
        p

  pub scatter_mvin-Ends :
      (rs1 rs2 : ℕ) (s : Machine Mem) → IsSized s → Ends IsSized Any (scatter_mvin mmu rs1 rs2 s)
  unfolding scatter_mvin
  scatter_mvin-Ends rs1 rs2 s p =
      for-Ends IsSized _ _ 0 s
        (λ i t q.
          next-Ends IsSized (read_from_dram-Ends 4 _ t q)
            λ v u small r. set_rf-Ends _ i v u small r)
        p
