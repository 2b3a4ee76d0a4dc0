-- ===== src/Traps/Level.antt =====
-- Which level a trap of riscv/processor.cc goes to.
use spike_online.Decode.Field.{get_field}
use spike_online.Traps.{
  mstatus_mdt, mstatus, or_mode, Core, TrapInfo, to_vs, to_hs, trap_vs, trap_hs, trap_m, nmie,
  take_trap,
}
use spike_online.Interrupt.{Mode, legalize_privilege, set_privilege, enter}
use spike_online.Base.{
  ℕ, inl, inr, ◌≤◌, ◌≡◌, ◌⊎◌, refl, arith, Bool, true, false, not, ◌&&◌, ◌||◌, ltb, ◌==◌, if_cases,
}
use spike_online.Base.{sym, ◌∙◌, leb, ◌^◌, ◌<◌, if◌then◌else◌}
use spike_online.Traps.Delegation.{
  number, handed_hs, handed_vs, doubled, stays_below_m, hs_lem, vs_lem, double_lem,
}

-- A trap outside debug mode never lowers the level. It ends at VS if VS has it, else at HS if HS has
-- it, and at M if neither has it or it is a double trap; there, under Smdbltrp, the hart may stop
-- with a critical error and stay where it is.
pub record IsTaken (c : Core) (t : TrapInfo) (c' : Core) : Type 0 where
  pub keeps_level : c.mode.prv ≤ c'.mode.prv
  pub destination :
      ((c'.mode.prv ≡ (if stays_below_m c t then 1 else 3))
        × (c'.mode.v ≡ (not (doubled c t) && handed_vs c t)))
      ⊎ ((c.smdbltrp ≡ true)
          × (stays_below_m c t ≡ false)
          × (c'.critical_error ≡ true)
          × (c'.mode ≡ c.mode))

level_s :
    (u s : Bool) (m : Mode) (virt : Bool)
    → u ≡ true
    → s ≡ true
    → ((or_mode (set_privilege (record { has_u = u; has_s = s }) m 1 virt) m).prv ≡ 1)
      × ((or_mode (set_privilege (record { has_u = u; has_s = s }) m 1 virt) m).v ≡ virt)
unfolding set_privilege legalize_privilege enter
level_s true true m true h k = (refl, refl)
level_s true true m false h k = (refl, refl)
level_s true false m virt h k = cc
level_s false s m virt h k = cc

level_m :
    (u s : Bool) (m : Mode)
    → ((or_mode (set_privilege (record { has_u = u; has_s = s }) m 3 false) m).prv ≡ 3)
      × ((or_mode (set_privilege (record { has_u = u; has_s = s }) m 3 false) m).v ≡ false)
unfolding set_privilege legalize_privilege enter
level_m true s m = (refl, refl)
level_m false s m = (refl, refl)

both : (a b : Bool) → (a && b) ≡ true → (a ≡ true) × (b ≡ true)
both true b h = (refl, h)
both false b h = cc

below_of_vs : (d vs hs : Bool) → (not d && vs) ≡ true → (not d && (vs || hs)) ≡ true
below_of_vs false true hs h = refl
below_of_vs false false hs h = cc
below_of_vs true vs hs h = cc

below_of_hs : (d vs hs : Bool) → (not d && hs) ≡ true → (not d && (vs || hs)) ≡ true
below_of_hs false true true h = refl
below_of_hs false false true h = refl
below_of_hs false vs false h = cc
below_of_hs true vs hs h = cc

not_below :
    (d vs hs : Bool) → (not d && vs) ≡ false → (not d && hs) ≡ false → (not d && (vs || hs)) ≡ false
not_below false false false h k = refl
not_below false true hs h k = cc
not_below false false true h k = cc
not_below true vs hs h k = refl

low_level : (d l b v r r' : Bool) → (not d && (l && b && v && r || l && b && r')) ≡ true → l ≡ true
low_level false true b v r r' h = refl
low_level false false b v r r' h = cc
low_level true l b v r r' h = cc

module _ (c : Core) (t : TrapInfo) (some_bits : 0 < c.max_xlen) (word : c.max_xlen ≤ 64)
    (fits : t.cause < 2 ^ c.max_xlen) where
  module _ (epc : ℕ) (u : c.extensions.has_u ≡ true) (sup : c.extensions.has_s ≡ true) where
    to_s :
        (c' : Core) (virt : Bool)
        → (c'.mode.prv ≡ 1) × (c'.mode.v ≡ virt)
        → stays_below_m c t ≡ true
        → (not (doubled c t) && handed_vs c t) ≡ virt
        → IsTaken c t c'
    to_s c' virt level stays at =
        let low : leb c.mode.prv 1 ≡ true =
          low_level (doubled c t) (leb c.mode.prv 1) (ltb (number c t) c.max_xlen) c.mode.v _ _
            stays in
        record {
          keeps_level = ground (arith, level.0, low);
          destination = inl (level.0 ∙ rw stays, level.1 ∙ sym at);
        }

    trap_m-IsTaken :
        c.mode.prv ≤ 3
        → stays_below_m c t ≡ false
        → (not (doubled c t) && handed_vs c t) ≡ false
        → IsTaken c t (trap_m c t epc)
    unfolding trap_m
    trap_m-IsTaken bound above at =
        let level = level_m c.extensions.has_u c.extensions.has_s c.mode in
        if_cases (IsTaken c t)
          (c.smdbltrp && (not (get_field (c.read mstatus) mstatus_mdt == 0) || not (nmie c)))
          (λ h. record {
            keeps_level = omega arith;
            destination = inr ((both c.smdbltrp _ h).0, above, refl, refl);
          })
          (λ h. record {
            keeps_level = omega (arith, level.0, bound);
            destination = inl (level.0 ∙ rw above, level.1 ∙ sym at);
          })

    -- A trap outside debug mode, of a hart with the levels U, S and M, never lowers the level. It goes to
    -- VS where the delegation registers hand its cause to VS, else to HS where they hand it to HS,
    -- and to M where they do not or it is a double trap; at M, a hart with Smdbltrp may stop with a
    -- critical error instead and keep its mode. The cause fits the registers of the hart.
    pub take_trap-IsTaken : c.debug_mode ≡ false → c.mode.prv ≤ 3 → IsTaken c t (take_trap c t epc)
    unfolding take_trap trap_vs trap_hs
    take_trap-IsTaken normal bound =
        let level =
          λ (virt : Bool). level_s c.extensions.has_u c.extensions.has_s c.mode virt u sup in
        let d = doubled c t in
        let vs = handed_vs c t in
        let hs = handed_hs c t in
        if_cases (IsTaken c t) c.debug_mode (λ h. cc)
          (λ h.
            if_cases (IsTaken c t) (to_vs c t)
              (λ k.
                let given : (not d && vs) ≡ true =
                  rw (double_lem c t some_bits word fits, vs_lem c t some_bits word fits) at k in
                to_s (trap_vs c t epc) true (level true) (below_of_vs d vs hs given) given)
              (λ k.
                let off : (not d && vs) ≡ false =
                  rw (double_lem c t some_bits word fits, vs_lem c t some_bits word fits) at k in
                if_cases (IsTaken c t) (to_hs c t)
                  (λ l.
                    let given : (not d && hs) ≡ true =
                      rw (double_lem c t some_bits word fits, hs_lem c t some_bits word fits) at
                        l in
                    to_s (trap_hs c t epc) false (level false) (below_of_hs d vs hs given) off)
                  (λ l.
                    let unhanded : (not d && hs) ≡ false =
                      rw (double_lem c t some_bits word fits, hs_lem c t some_bits word fits) at
                        l in
                    trap_m-IsTaken bound (not_below d vs hs off unhanded) off)))
