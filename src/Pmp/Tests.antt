-- ===== src/Pmp/Tests.antt =====
-- Instances for the physical memory protection: a region of 4096 bytes at 0x80000000 that may be
-- read.
use spike_online.Pmp.{
  Pmp, entry, access_ok, match4, match_at, pmp_ok, sectors, load, tor_paddr, tor_base_paddr,
  napot_mask, pmp_tor_mask,
}
use spike_online.Pmp.First.{covered, pmp_ok-Answers}
use spike_online.Pmp.Region.{match4_napot}
use spike_online.Pmp.Homogeneous.{is_misaligned, subset_match, homogeneous_loop, pmp_homogeneous}
use spike_online.Base.{
  some, none, ℕ, zero, suc, ◌+◌, ◌*◌, ◌/◌, ◌^◌, ◌<◌, ◌≡◌, ◌↔◌, refl, arith, true, false, [], ◌∷◌,
}

abbrev pmp : Pmp
pmp = record {
  entries = record { val = 0x200001ff; cfg = 0x19 } ∷ [];
  n_pmp = 1;
  max_pmp = 64;
  lg_pmp_granularity = 2;
  rlb = false;
  mml = false;
  mmwp = false;
}

match4_napot_example : match4 pmp 0 0x80000abc ≡ true ↔ 0x80000abc / 2 ^ (9 + 3) ≡ 0x80000
match4_napot_example =
    match4_napot pmp 0 0x80000 9 0x80000abc refl refl refl (omega arith) (omega arith)

all_covered : (s : ℕ) → s < sectors 8 → match_at pmp 0 0x80000ab8 (0 + 4 * s) ≡ true
unfolding match4 tor_paddr napot_mask pmp_tor_mask
all_covered zero h = refl
all_covered (suc zero) h = refl
all_covered (suc (suc s)) h = absurd (omega (arith, h))

readable : access_ok pmp (entry pmp 0) load 0 false ≡ true
unfolding access_ok
readable = refl

pmp_ok-Answers_example :
    pmp_ok pmp 0x80000ab8 8 load 0 false ≡ access_ok pmp (entry pmp 0) load 0 false
pmp_ok-Answers_example =
    pmp_ok-Answers pmp 0x80000ab8 8 load 0 false _ (omega arith)
      (covered 0 0 (omega arith) all_covered)

homogeneous_test :
    (pmp_homogeneous pmp 0x80000000 4096 ≡ some true)
    × (pmp_homogeneous pmp 0x80000000 8192 ≡ some false)
    × (pmp_homogeneous pmp 0x80000800 4096 ≡ none)
unfolding pmp_homogeneous homogeneous_loop subset_match is_misaligned tor_base_paddr tor_paddr
    napot_mask pmp_tor_mask
homogeneous_test = (refl, refl, refl)
