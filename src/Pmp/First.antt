-- ===== src/Pmp/First.antt =====
-- The entry that decides an access: `pmp_ok` of riscv/mmu.cc.
use spike_online.Pmp.{
  AccessType, Pmp, Sectors, sectors, match_at, entry, entry_sectors, sector_loop, entry_loop,
  access_ok, no_match_ok, pmp_ok,
}
use spike_online.Base.{
  ℕ, zero, suc, ◌+◌, ◌*◌, ◌<◌, ◌≡◌, refl, ap, ◌∙◌, arith, Bool, true, false, ◌==◌,
}

shifted :
    (at : ℕ → Bool) (offset s : ℕ) (b : Bool)
    → at (offset + 4 * suc s) ≡ b
    → at (offset + 4 + 4 * s) ≡ b
shifted at offset s b h =
    let e : offset + 4 + 4 * s ≡ offset + 4 * suc s = omega arith in ap at e ∙ h

first_sector : (at : ℕ → Bool) (offset : ℕ) (b : Bool) → at (offset + 4 * 0) ≡ b → at offset ≡ b
first_sector at offset b h = let e : offset ≡ offset + 4 * 0 = omega arith in ap at e ∙ h

any_stays :
    (at : ℕ → Bool) (left offset : ℕ) (m : Sectors)
    → m.any_match ≡ true
    → (sector_loop at left offset m).any_match ≡ true
unfolding sector_loop
any_stays at zero offset m h = h
any_stays at (suc left) offset m h = any_stays at left (offset + 4) _ (rw h refl)

any_found :
    (at : ℕ → Bool) (left offset s : ℕ) (m : Sectors)
    → s < left
    → at (offset + 4 * s) ≡ true
    → (sector_loop at left offset m).any_match ≡ true
unfolding sector_loop
any_found at zero offset s m h e = absurd (omega (arith, h))
any_found at (suc left) offset zero m h e =
    any_stays at left (offset + 4) _ (rw (first_sector at offset true e) (ground arith))
any_found at (suc left) offset (suc s) m h e =
    any_found at left (offset + 4) s _ (omega (arith, h)) (shifted at offset s true e)

any_none :
    (at : ℕ → Bool) (left offset : ℕ) (m : Sectors)
    → ((s : ℕ) → s < left → at (offset + 4 * s) ≡ false)
    → m.any_match ≡ false
    → (sector_loop at left offset m).any_match ≡ false
unfolding sector_loop
any_none at zero offset m h e = e
any_none at (suc left) offset m h e =
    any_none at left (offset + 4) _
      (λ s k. shifted at offset s false (h (suc s) (omega (arith, k))))
      (rw (e, first_sector at offset false (h 0 (omega arith))) refl)

all_falls :
    (at : ℕ → Bool) (left offset : ℕ) (m : Sectors)
    → m.all_match ≡ false
    → (sector_loop at left offset m).all_match ≡ false
unfolding sector_loop
all_falls at zero offset m h = h
all_falls at (suc left) offset m h = all_falls at left (offset + 4) _ (rw h refl)

all_fails :
    (at : ℕ → Bool) (left offset s : ℕ) (m : Sectors)
    → s < left
    → at (offset + 4 * s) ≡ false
    → (sector_loop at left offset m).all_match ≡ false
unfolding sector_loop
all_fails at zero offset s m h e = absurd (omega (arith, h))
all_fails at (suc left) offset zero m h e =
    all_falls at left (offset + 4) _ (rw (first_sector at offset false e) (ground arith))
all_fails at (suc left) offset (suc s) m h e =
    all_fails at left (offset + 4) s _ (omega (arith, h)) (shifted at offset s false e)

all_stays :
    (at : ℕ → Bool) (left offset : ℕ) (m : Sectors)
    → ((s : ℕ) → s < left → at (offset + 4 * s) ≡ true)
    → m.all_match ≡ true
    → (sector_loop at left offset m).all_match ≡ true
unfolding sector_loop
all_stays at zero offset m h e = e
all_stays at (suc left) offset m h e =
    all_stays at left (offset + 4) _
      (λ s k. shifted at offset s true (h (suc s) (omega (arith, k))))
      (rw (e, first_sector at offset true (h 0 (omega arith))) refl)

-- The sectors of an access that an entry meets.
abbrev At : Pmp → ℕ → ℕ → ℕ → Bool → ℕ → Type 0
At p addr len i b s = (s < sectors len) × (match_at p i addr (0 + 4 * s) ≡ b)

none_met :
    (p : Pmp) (addr len i : ℕ)
    → ((s : ℕ) → s < sectors len → match_at p i addr (0 + 4 * s) ≡ false)
    → (entry_sectors p i addr len).any_match ≡ false
unfolding entry_sectors
none_met p addr len i h = any_none _ _ 0 _ h refl

some_met :
    (p : Pmp) (addr len i s : ℕ)
    → At p addr len i true s
    → (entry_sectors p i addr len).any_match ≡ true
unfolding entry_sectors
some_met p addr len i s (h, e) = any_found _ _ 0 s _ h e

all_met :
    (p : Pmp) (addr len i : ℕ)
    → ((s : ℕ) → s < sectors len → match_at p i addr (0 + 4 * s) ≡ true)
    → (entry_sectors p i addr len).all_match ≡ true
unfolding entry_sectors
all_met p addr len i h = all_stays _ _ 0 _ h refl

some_missed :
    (p : Pmp) (addr len i s : ℕ)
    → At p addr len i false s
    → (entry_sectors p i addr len).all_match ≡ false
unfolding entry_sectors
some_missed p addr len i s (h, e) = all_fails _ _ 0 s _ h e

-- What the entries answer from `i` on, `left` of them: no entry meets the access; an entry that
-- meets no sector leaves it to those behind it; one that covers it decides by its permissions; and
-- one that meets some sectors only refuses it.
pub data Answers (p : Pmp) (addr len : ℕ) (type : AccessType) (mode : ℕ) (hlvx : Bool)
    : ℕ → ℕ → Bool → Type 0 where
  unmatched : (i : ℕ) → Answers p addr len type mode hlvx 0 i (no_match_ok p type mode)
  passed :
      (left i : ℕ) (b : Bool)
      → ((s : ℕ) → s < sectors len → match_at p i addr (0 + 4 * s) ≡ false)
      → Answers p addr len type mode hlvx left (i + 1) b
      → Answers p addr len type mode hlvx (suc left) i b
  covered :
      (left i : ℕ)
      → 0 < sectors len
      → ((s : ℕ) → s < sectors len → match_at p i addr (0 + 4 * s) ≡ true)
      → Answers p addr len type mode hlvx (suc left) i (access_ok p (entry p i) type mode hlvx)
  split :
      (left i s t : ℕ)
      → At p addr len i true s
      → At p addr len i false t
      → Answers p addr len type mode hlvx (suc left) i false

loop-Answers :
    (p : Pmp) (addr len : ℕ) (type : AccessType) (mode : ℕ) (hlvx : Bool) (left i : ℕ) (b : Bool)
    → Answers p addr len type mode hlvx left i b
    → entry_loop p addr len type mode hlvx left i ≡ b
unfolding entry_loop
loop-Answers p addr len type mode hlvx _ _ _ (unmatched i) = refl
loop-Answers p addr len type mode hlvx _ _ _ (passed left i b none_match rest) =
    rw (none_met p addr len i none_match, entry_loop)
      (loop-Answers p addr len type mode hlvx _ _ b rest)
loop-Answers p addr len type mode hlvx _ _ _ (covered left i h all) =
    rw (some_met p addr len i 0 (h, all 0 h), all_met p addr len i all, entry_loop) refl
loop-Answers p addr len type mode hlvx _ _ _ (split left i s t met missed) =
    rw (some_met p addr len i s met, some_missed p addr len i t missed, entry_loop) refl

-- Where there are entries, `pmp_ok` answers what the first entry that meets any sector of the
-- access says, and the default where no entry does.
pub pmp_ok-Answers :
    (p : Pmp) (addr len : ℕ) (type : AccessType) (mode : ℕ) (hlvx b : Bool)
    → 0 < p.n_pmp
    → Answers p addr len type mode hlvx p.n_pmp 0 b
    → pmp_ok p addr len type mode hlvx ≡ b
unfolding pmp_ok
pmp_ok-Answers p addr len type mode hlvx b h answers =
    let some_entry : (p.n_pmp == 0) ≡ false = ground arith in
    rw (some_entry, pmp_ok) (loop-Answers p addr len type mode hlvx p.n_pmp 0 b answers)
