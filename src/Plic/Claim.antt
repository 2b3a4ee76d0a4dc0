-- ===== src/Plic/Claim.antt =====
-- Claiming an interrupt: what `context_claim` of riscv/plic.cc changes.
use spike_online.Plic.{
  Context, Plic, context_best_pending, context_update, put_context, context_claim, mask32, at,
}
use spike_online.Plic.Pending.{deliverable}
use spike_online.Base.{
  ℕ, ◌/◌, ◌%◌, ◌<◌, ◌≡◌, ◌≢◌, refl, arith, Bool, true, false, not, ◌&&◌, ◌||◌, if◌then◌else◌, ltb,
  ◌==◌, length, set, any_bit, any_bit_lem, bit-set_bit, bit_or, get_or-set_self, get_or-set_ne,
  Bool-cases, inl, inr, ==_iff,
}

-- The context with one more source claimed.
abbrev pub claim_source : Context → ℕ → Context
claim_source c id = record c {
  claimed = set c.claimed (id / 32) (bit_or (at c.claimed (id / 32)) (mask32 (id % 32)));
}

claimed_bit :
    (c : Context) (id k : ℕ)
    → id / 32 < length c.claimed
    → any_bit (at (claim_source c id).claimed (k / 32)) (mask32 (k % 32))
      ≡ (k == id || any_bit (at c.claimed (k / 32)) (mask32 (k % 32)))
claimed_bit c id k h =
    let w = bit_or (at c.claimed (id / 32)) (mask32 (id % 32)) in
    rw
      (
        any_bit_lem (at (claim_source c id).claimed (k / 32)) (k % 32),
        any_bit_lem (at c.claimed (k / 32)) (k % 32),
      )
      (elim (Bool-cases (k / 32 == id / 32)) [
        | inl same ↦
            let e = (==_iff (k / 32) (id / 32)).0 same in
            rw (e, get_or-set_self c.claimed (id / 32) w 0 h)
              (ground (arith, bit-set_bit (at c.claimed (id / 32)) (id % 32) (k % 32)))
        | inr other ↦ ground (arith, get_or-set_ne c.claimed (id / 32) (k / 32) w 0)
      ])

withdraw : (a b q k : Bool) → (a && b && not (q || k)) ≡ (if q then false else (a && b && not k))
withdraw a b true k = ground arith
withdraw a b false k = refl

-- Where there is a best pending source, and the array of claims has its word, a claim returns it
-- and the controller stores the context with that source claimed: the source is no longer
-- deliverable, and every other source stays as deliverable as it was.
pub context_claim_once :
    (p : Plic) (k : ℕ) (c : Context)
    → context_best_pending p c ≢ 0
    → context_best_pending p c / 32 < length c.claimed
    → let id = context_best_pending p c in
      let c' = claim_source c id in
      ((context_claim p k c).1 ≡ id)
      × ((context_claim p k c).0 ≡ context_update (put_context p k c') c')
      × ((j : ℕ)
          → deliverable p.num_ids c' j ≡ (if j == id then false else deliverable p.num_ids c j))
unfolding context_claim deliverable
context_claim_once p k c some_best h =
    let id = context_best_pending p c in
    let test : (id == 0) ≡ false = ground arith in
    (refl, rw test, λ j. rw (claimed_bit c id j h) (withdraw (ltb j p.num_ids) _ (j == id) _))
