-- ===== src/Decode/Stack.antt =====
-- The stack frame of the Zcmp push and pop instructions.
use spike_online.Decode.{
  mask_of_list, stack_adj_base, rvc_rlist, rvc_spimm, sn, regmask_loop, zcmp_regmask,
  zcmp_stack_adjustment,
}
use spike_online.Decode.Fields.{x-lt}
use spike_online.Base.{
  ℕ, zero, suc, ◌+◌, ◌*◌, ◌/◌, ◌≤◌, ◌<◌, ◌≡◌, refl, arith, Bool, true, ◌&&◌, ◌==◌, ==_iff, bit, ap,
  Bool-cases, inl, inr,
}

-- The number of 1s among the low `n` bits.
pub ones : ℕ → ℕ → ℕ
ones zero mask = 0
ones (suc n) mask = bit mask n + ones n mask

rlist-lt : (b : ℕ) → rvc_rlist b < 16
unfolding rvc_rlist
rlist-lt b = x-lt b 4 4

frame : ℕ → ℕ → ℕ
frame width r = (ones 32 (mask_of_list r) * width + 15) / 16 * 16

frame_table : (n r : ℕ) → Bool
frame_table zero r = true
frame_table (suc n) r =
    (stack_adj_base r 64 == frame 8 r)
    && (stack_adj_base r 32 == frame 4 r)
    && frame_table n (r + 1)

frames_agree : frame_table 12 4 ≡ true
unfolding frame_table stack_adj_base frame ones mask_of_list regmask_loop sn bit
frames_agree = refl

frame_entry :
    (n lo r : ℕ)
    → frame_table n lo ≡ true
    → lo ≤ r
    → r < lo + n
    → (stack_adj_base r 64 ≡ frame 8 r) × (stack_adj_base r 32 ≡ frame 4 r)
unfolding frame_table
frame_entry zero lo r t le lt = absurd (omega arith)
frame_entry (suc n) lo r t le lt = elim (Bool-cases (lo == r)) [
  | inl e ↦ rw (← (==_iff lo r).0 e) (ground arith, ground arith)
  | inr ne ↦ frame_entry n (lo + 1) r (ground arith) (ground arith) (ground arith)
]

-- For a register list of 4 or more, the frame is the room for the registers that the mask names,
-- rounded up to 16 bytes, and the extra space that the instruction asks for: at both register
-- widths.
pub zcmp_stack_fits :
    (b : ℕ)
    → 4 ≤ rvc_rlist b
    → (zcmp_stack_adjustment b 64 ≡ (ones 32 (zcmp_regmask b) * 8 + 15) / 16 * 16 + rvc_spimm b)
      × (zcmp_stack_adjustment b 32 ≡ (ones 32 (zcmp_regmask b) * 4 + 15) / 16 * 16 + rvc_spimm b)
unfolding zcmp_stack_adjustment zcmp_regmask frame
zcmp_stack_fits b h =
    let (e64, e32) = frame_entry 12 4 (rvc_rlist b) frames_agree h (rlist-lt b) in
    (ap (λ (n : ℕ). n + rvc_spimm b) e64, ap (λ (n : ℕ). n + rvc_spimm b) e32)
