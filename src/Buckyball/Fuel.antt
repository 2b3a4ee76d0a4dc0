-- ===== src/Buckyball/Fuel.antt =====
-- The loop over the entries of a column in nvr/buckyball/bucykball.cc, without its fuel.
use spike_online.Base.{
  ℕ, zero, suc, ◌+◌, ◌≤◌, ◌≡◌, refl, ap, arith, false, ◌&&◌, if◌then◌else◌, ltb,
}
use spike_online.Buckyball.Run.{Run, ◌>>◌, pure}
use spike_online.Buckyball.State.{Machine}
use spike_online.Buckyball.Multiply.{entry_loop, int_lt}

module _ {Mem : Type 0} (limit col_end : ℕ) (round : ℕ → Run (Machine Mem) (Unit {0})) where
  entry_loop-enough :
      (m m' nz_idx : ℕ)
      → limit ≤ nz_idx + m
      → limit ≤ nz_idx + m'
      → entry_loop m limit col_end round nz_idx ≡ entry_loop m' limit col_end round nz_idx
  unfolding entry_loop
  entry_loop-enough zero zero nz_idx h h' = refl
  entry_loop-enough zero (suc m') nz_idx h h' =
      let over : (int_lt nz_idx col_end && ltb nz_idx limit) ≡ false = ground (arith, h) in
      rw over refl
  entry_loop-enough (suc m) zero nz_idx h h' =
      let over : (int_lt nz_idx col_end && ltb nz_idx limit) ≡ false = ground (arith, h') in
      rw over refl
  entry_loop-enough (suc m) (suc m') nz_idx h h' =
      rw (entry_loop-enough m m' (suc nz_idx) (omega (arith, h)) (omega (arith, h'))) refl

  entry_loop_step :
      (m nz_idx : ℕ)
      → limit ≤ m
      → entry_loop m limit col_end round nz_idx ≡ (
          if int_lt nz_idx col_end && ltb nz_idx limit
          then (do round nz_idx; entry_loop m limit col_end round (suc nz_idx))
          else pure tt)
  unfolding entry_loop
  entry_loop_step zero nz_idx h =
      let over : (int_lt nz_idx col_end && ltb nz_idx limit) ≡ false = ground (arith, h) in
      rw over refl
  entry_loop_step (suc m) nz_idx h =
      ap
        (λ (rest : Run (Machine Mem) (Unit {0})).
          if int_lt nz_idx col_end && ltb nz_idx limit then (do round nz_idx; rest) else pure tt)
        (entry_loop-enough m (suc m) (suc nz_idx) (omega (arith, h)) (omega (arith, h)))

  -- The loop with as much fuel as there are entries does what the source's loop does: as long as both
  -- comparisons hold it runs a round and goes on with the next entry, with the same fuel.
  pub entry_loop_rounds :
      (nz_idx : ℕ)
      → entry_loop limit limit col_end round nz_idx ≡ (
          if int_lt nz_idx col_end && ltb nz_idx limit
          then (do round nz_idx; entry_loop limit limit col_end round (suc nz_idx))
          else pure tt)
  entry_loop_rounds nz_idx = entry_loop_step limit nz_idx (omega arith)
