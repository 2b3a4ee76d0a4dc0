-- ===== src/Interrupt/Privilege.antt =====
-- What `legalize_privilege` and `set_privilege` of riscv/processor.cc leave behind.
use spike_online.Interrupt.{
  Extensions, Mode, legalize_privilege, set_privilege, enter, prv_u, prv_s, prv_m,
}
use mathlib.Core.Path.{subst}
use spike_online.Base.{
  ℕ, ◌≡◌, ◌≢◌, ◌≤◌, refl, ◌&&◌, not, arith, Bool, ◌↔◌, ◌||◌, true, false, inl, inr, none, some,
  Option-cases, if◌then◌else◌, ◌==◌,
}

-- The levels that a hart with these extensions has.
abbrev pub has_level : Extensions → ℕ → Bool
has_level x p = p == prv_m || (x.has_u && (p == prv_u || (x.has_s && p == prv_s)))

-- A requested level up to M is turned into a level that the hart has, and a level that it has is
-- kept.
pub legalize_privilege-has_level :
    (x : Extensions) (p : ℕ)
    → p ≤ 3
    → (q : ℕ) × (legalize_privilege x p ≡ some q)
      × (has_level x q ≡ true)
      × (has_level x p ≡ true → q ≡ p)
unfolding legalize_privilege
legalize_privilege-has_level x p h =
    let q : ℕ = if not x.has_u then 3 else if p == 2 || (p == 1 && not x.has_s) then 0 else p in
    (q, ground arith, ground arith, λ k. ground arith)

some_inj : {A : Type 0} {a b : A} → some a ≡ some b → a ≡ b
some_inj e = cc

none≢some : {A : Type 0} {a : A} → none ≡ some a → ⊥
none≢some e = cc

legalized : (x : Extensions) (p q : ℕ) → legalize_privilege x p ≡ some q → has_level x q ≡ true
unfolding legalize_privilege
legalized x p q e = ground arith

-- What a change of the mode from `s` to `s'` with the virtual flag `virt` has to leave.
pub record IsChange (x : Extensions) (s : Mode) (virt : Bool) (s' : Mode) : Type 0 where
  legal : has_level x s'.prv ≡ true
  virtual : (s'.v ≡ true) ↔ ((virt ≡ true) × (s'.prv ≢ prv_m))
  previous : (s'.prev_prv ≡ s.prv) × (s'.prev_v ≡ s.v)
  prv_flag : (s'.prv_changed ≡ false) ↔ (s'.prv ≡ s.prv)
  v_flag : (s'.v_changed ≡ false) ↔ (s'.v ≡ s.v)

enter-IsChange :
    (x : Extensions) (s : Mode) (p : ℕ) (virt : Bool)
    → has_level x p ≡ true
    → IsChange x s virt (enter s p virt)
unfolding enter
enter-IsChange x s p virt h = record {
  legal = h;
  virtual = (λ k. ground arith, λ k. ground arith);
  previous = (refl, refl);
  prv_flag = (λ k. ground arith, λ k. ground arith);
  v_flag = (λ k. ground arith, λ k. ground arith);
}

-- Where `set_privilege` does not fail, the level that is set is one that the hart has, the hart is
-- virtual exactly if that was asked for and the level is not M, the previous mode is kept, and the
-- flags of a change tell whether the mode has changed.
pub set_privilege-IsChange :
    (x : Extensions) (s s' : Mode) (p : ℕ) (virt : Bool)
    → set_privilege x s p virt ≡ some s'
    → IsChange x s virt s'
unfolding set_privilege
set_privilege-IsChange x s s' p virt e = elim (Option-cases (legalize_privilege x p)) [
  | inl failed ↦ absurd (none≢some (rw (failed, set_privilege) at e))
  | inr (q, level) ↦
      subst (IsChange x s virt) (some_inj (rw (level, set_privilege) at e))
        (enter-IsChange x s q virt (legalized x p q level))
]
