-- ===== src/Buckyball/Kept.antt =====
-- The custom instructions of nvr/buckyball/bucykball.cc, from `reset` on, keep the sizes and types of the
-- unit's storage.
use spike_online.Base.{
  ℕ, zero, suc, ◌*◌, ◌^◌, ◌<◌, ◌≡◌, refl, arith, true, List, [], get_or, replicate, if_both,
  if_cases, ◌==◌, length-replicate, get_or-replicate, not,
}
use spike_online.Buckyball.Fields.{dim, bank_rows, sp_matrices}
use spike_online.Buckyball.Run.{Run, Result}
use spike_online.Buckyball.State.{Mmu, Machine, reset}
use spike_online.Buckyball.Custom.{
  custom3, dispatch, reset_if_needed, mvin_funct, mvout_funct, mul_funct, scatter_mvin_funct,
  sparse_mul_funct, flush_funct,
}
use spike_online.Buckyball.Invariant.{Ends, ends, ends_early, Any, IsSized, next-Ends}
use spike_online.Buckyball.Cells.{IsTable, cell}
use spike_online.Buckyball.Sized.{
  mul_warp16-Ends, sparse_mul-Ends, mvin-Ends, mvout-Ends, scatter_mvin-Ends,
}

get_or-replicate_row : (n r : ℕ) (row : List ℕ) → r < n → get_or (replicate n row) r [] ≡ row
get_or-replicate_row zero r row h = elim h [ ]
get_or-replicate_row (suc n) zero row h = refl
get_or-replicate_row (suc n) (suc r) row h = get_or-replicate_row n r row (omega (arith, h))

cell-replicate : (n w r c : ℕ) → cell (replicate n (replicate w 0)) r c ≡ 0
unfolding cell
cell-replicate zero w r c = refl
cell-replicate (suc n) w zero c = get_or-replicate w c 0
cell-replicate (suc n) w (suc r) c = cell-replicate n w r c

pub replicate-IsTable : (n w b : ℕ) → 0 < b → IsTable n w b (replicate n (replicate w 0))
replicate-IsTable n w b h = record {
  height = length-replicate n (replicate w 0);
  width = λ r lt. rw (get_or-replicate_row n r (replicate w 0) lt) (length-replicate w 0);
  bytes = λ r c. rw (cell-replicate n w r c) h;
}

reset-IsSized :
    {Mem : Type 0} (s : Machine Mem) → IsSized (record s { buckyball = reset s.buckyball })
unfolding reset
reset-IsSized s = record {
  spad_shape = replicate-IsTable (sp_matrices * dim) dim (2 ^ 8) (omega arith);
  rf_shape = replicate-IsTable 2 bank_rows (2 ^ 32) (omega arith);
  is_reset = refl;
}

Ends-state :
    {S A : Type 0} {P : S → Type 0} {V : A → Type 0} {r : S × Result A} → Ends P V r → P r.0
Ends-state (ends v p) = p
Ends-state (ends_early p) = p

Keeps : {Mem : Type 0} → Run (Machine Mem) (Unit {0}) → Type 0
Keeps m = (s : _) → IsSized s → Ends IsSized Any (m s)

dispatch-Keeps : {Mem : Type 0} (mmu : Mmu Mem) (f xs1 xs2 : ℕ) → Keeps (dispatch mmu f xs1 xs2)
unfolding dispatch Keeps
dispatch-Keeps mmu f xs1 xs2 = if_both Keeps (f == mvin_funct) (mvin-Ends mmu xs1 xs2) (
    if_both Keeps (f == mvout_funct) (mvout-Ends mmu xs1 xs2) (
      if_both Keeps (f == mul_funct) (mul_warp16-Ends xs1 xs2) (
        if_both Keeps (f == scatter_mvin_funct) (scatter_mvin-Ends mmu xs1 xs2) (
          if_both Keeps (f == sparse_mul_funct) (sparse_mul-Ends xs1 xs2)
            (if_both Keeps (f == flush_funct) (λ s p. ends tt p) (λ s p. ends_early p))))))

-- A unit that is as `reset` left it, or as earlier instructions left it, has storage of the sizes and
-- with the elements of its types after an instruction, whichever instruction it is and whether it ends
-- or an exception stops it, and is reset; a unit that was never reset may be anything before it.
pub custom3-IsSized :
    {Mem : Type 0} (mmu : Mmu Mem) (f xs1 xs2 : ℕ) (s : Machine Mem)
    → (s.buckyball.resetted ≡ true → IsSized s)
    → IsSized (custom3 mmu f xs1 xs2 s).0
unfolding custom3 Keeps
custom3-IsSized mmu f xs1 xs2 s h =
    let start : IsSized (record s { buckyball = reset_if_needed s.buckyball }) =
      if_cases (λ b. IsSized (record s { buckyball = b })) (not s.buckyball.resetted)
        (λ _. reset-IsSized s) (λ e. h (ground (arith, e))) in
    Ends-state {V = Any}
      (next-Ends IsSized (dispatch-Keeps mmu f xs1 xs2 _ start) λ _ t _ q. ends tt q)
