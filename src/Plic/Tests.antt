-- ===== src/Plic/Tests.antt =====
-- Instances for riscv/plic.cc: a controller with eight sources, three of which are pending.
use spike_online.Plic.{
  Plic, Context, at, context_best_pending, context_claim, context_update, put_context, scan_words,
  scan_bits, consider,
}
use spike_online.Plic.Pending.{deliverable, context_best_pending_lem}
use spike_online.Plic.Pin.{context_update-pin}
use spike_online.Plic.Claim.{claim_source, context_claim_once}
use spike_online.Base.{
  ℕ, ◌≤◌, ◌<◌, ◌≡◌, ◌≢◌, refl, arith, true, false, if◌then◌else◌, ◌==◌, [], ◌∷◌, bit,
}

abbrev context : Context
context = record {
  proc = 0;
  mmode = true;
  priority_threshold = 1;
  enable = 0xff ∷ [];
  pending = 0x2c ∷ [];
  pending_priority = 0 ∷ 0 ∷ 3 ∷ 7 ∷ 0 ∷ 7 ∷ 0 ∷ 0 ∷ [];
  claimed = 0 ∷ [];
}

abbrev plic : Plic
plic = record {
  contexts = context ∷ [];
  num_ids = 8;
  num_ids_word = 1;
  max_prio = 15;
  priority = 0 ∷ 0 ∷ 3 ∷ 7 ∷ 0 ∷ 7 ∷ 0 ∷ 0 ∷ [];
  level = 0x2c ∷ [];
  mips = 0 ∷ [];
}

best_is_3 : context_best_pending plic context ≡ 3
unfolding context_best_pending scan_words scan_bits consider
best_is_3 = refl

no_source_0 : deliverable 8 context 0 ≡ false
unfolding deliverable
no_source_0 = refl

context_best_pending_lem_example :
    (context_best_pending plic context ≡ 0
      → (id : ℕ) → deliverable 8 context id ≡ true
      → at context.pending_priority id ≤ 1)
    × (context_best_pending plic context ≢ 0
        → (deliverable 8 context (context_best_pending plic context) ≡ true)
          × (1 < at context.pending_priority (context_best_pending plic context))
          × ((id : ℕ)
              → deliverable 8 context id ≡ true
              → (at context.pending_priority id
                  ≤ at context.pending_priority (context_best_pending plic context))
                × (id < context_best_pending plic context
                    → at context.pending_priority id
                      < at context.pending_priority (context_best_pending plic context))))
context_best_pending_lem_example = context_best_pending_lem plic context no_source_0 (omega arith)

context_claim_once_example :
    ((context_claim plic 0 context).1 ≡ context_best_pending plic context)
    × ((context_claim plic 0 context).0
        ≡ context_update
            (put_context plic 0 (claim_source context (context_best_pending plic context)))
            (claim_source context (context_best_pending plic context)))
    × ((j : ℕ)
        → deliverable 8 (claim_source context (context_best_pending plic context)) j
          ≡ (if j == context_best_pending plic context then false else deliverable 8 context j))
context_claim_once_example =
    context_claim_once plic 0 context (λ e. ground (arith, best_is_3, e)) (omega (arith, best_is_3))

context_update-pin_example :
    (bit (at (context_update plic context).mips 0) 11 ≡ (
      if 11 == 11
      then (if context_best_pending plic context == 0 then 0 else 1)
      else bit (at plic.mips 0) 11))
    × ((i : ℕ) → i ≢ 0 → at (context_update plic context).mips i ≡ at plic.mips i)
context_update-pin_example = context_update-pin plic context 11 (omega arith) (omega arith)
