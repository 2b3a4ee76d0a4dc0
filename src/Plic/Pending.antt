-- ===== src/Plic/Pending.antt =====
-- What `context_best_pending` of riscv/plic.cc finds.
use spike_online.Plic.{
  Context, Plic, Best, consider, scan_bits, scan_words, context_best_pending, mask32, at,
}
use mathlib.Core.Bool.{false≢true}
use mathlib.Core.Path.{subst}
use native.Mathlib.Nat.{le_refl}
use spike_online.Base.{
  ℕ, zero, suc, ◌+◌, ◌*◌, ◌/◌, ◌%◌, ◌≤◌, ◌<◌, ◌≡◌, ◌≢◌, refl, sym, ap, ◌∙◌, arith, Bool, true,
  false, not, ◌&&◌, ◌||◌, if◌then◌else◌, ltb, leb, ◌==◌, any_bit, Bool-cases, inl, inr, ==_iff,
  zero-bit_and, ltb→lt,
}

-- The source is in range, pending in the context and not claimed.
unfoldable pub deliverable : ℕ → Context → ℕ → Bool
deliverable num_ids c id =
    ltb id num_ids
    && any_bit (at c.pending (id / 32)) (mask32 (id % 32))
    && not (any_bit (at c.claimed (id / 32)) (mask32 (id % 32)))

abbrev take_source : Context → ℕ → Best → Best
take_source c id b =
    if b.best_id == 0 || ltb b.best_id_prio (at c.pending_priority id)
    then record { best_id = id; best_id_prio = at c.pending_priority id }
    else b

consider_lem :
    (n : ℕ) (c : Context) (i j : ℕ) (b : Best)
    → j < 32
    → consider n c i j b
      ≡ (if deliverable n c (i * 32 + j) then take_source c (i * 32 + j) b else b)
unfolding consider deliverable
consider_lem n c i j b h =
    let q : (i * 32 + j) / 32 ≡ i = omega arith in
    let r : (i * 32 + j) % 32 ≡ j = omega arith in
    rw (q, r)
      (elim (Bool-cases (any_bit (at c.pending i) (mask32 j))) [
        | inl p ↦ elim (Bool-cases (any_bit (at c.claimed i) (mask32 j))) [
          | inl k ↦ rw (p, k) (ground arith)
          | inr k ↦ rw (p, k) (ground arith)
        ]
        | inr p ↦ rw p (ground arith)
      ])

-- The best of the sources below `limit`: of the highest priority, and the lowest of those.
pub record IsBest (n : ℕ) (c : Context) (limit : ℕ) (b : Best) : Type 0 where
  pub nothing :
      b.best_id ≡ 0 → (b.best_id_prio ≡ 0) × ((id : ℕ) → id < limit → deliverable n c id ≡ false)
  pub found :
      b.best_id ≢ 0
      → (b.best_id < limit)
        × (deliverable n c b.best_id ≡ true)
        × (b.best_id_prio ≡ at c.pending_priority b.best_id)
  pub most :
      (id : ℕ) → id < limit → deliverable n c id ≡ true → at c.pending_priority id ≤ b.best_id_prio
  pub first :
      (id : ℕ)
      → id < b.best_id
      → deliverable n c id ≡ true
      → at c.pending_priority id < b.best_id_prio

idle :
    (n : ℕ) (c : Context) (i j : ℕ)
    → at c.pending i ≡ 0
    → j < 32
    → deliverable n c (i * 32 + j) ≡ false
unfolding deliverable
idle n c i j z lt =
    let q : (i * 32 + j) / 32 ≡ i = omega arith in
    rw (q, z, zero-bit_and) (elim (Bool-cases (ltb (i * 32 + j) n)) [ inl t ↦ rw t | inr f ↦ rw f ])

deliverable-lt : (n : ℕ) (c : Context) (id : ℕ) → deliverable n c id ≡ true → id < n
unfolding deliverable
deliverable-lt n c id d = elim (Bool-cases (ltb id n)) [
  | inl t ↦ ltb→lt id n t
  | inr f ↦ absurd (
      false≢true (
        sym (
          ap
            (λ t.
              t
              && any_bit (at c.pending (id / 32)) (mask32 (id % 32))
              && not (any_bit (at c.claimed (id / 32)) (mask32 (id % 32))))
            f)
        ∙ d))
]

module _ (n : ℕ) (c : Context) (no_zero : deliverable n c 0 ≡ false) where
  skip_source :
      (id : ℕ) (b : Best) → deliverable n c id ≡ false → IsBest n c id b → IsBest n c (suc id) b
  skip_source id b d h = record {
    nothing = λ e. (
      (h.nothing e).0,
      λ k lt. elim (Bool-cases (k == id)) [
        | inl same ↦ rw ((==_iff k id).0 same) d
        | inr other ↦ (h.nothing e).1 k (ground arith)
      ],
    );
    found = λ ne. let (lt, del, prio) = h.found ne in (omega arith, del, prio);
    most = λ k lt del. elim (Bool-cases (k == id)) [
      | inl same ↦
          absurd (false≢true (sym d ∙ ap (deliverable n c) (sym ((==_iff k id).0 same)) ∙ del))
      | inr other ↦ h.most k (ground arith) del
    ];
    first = h.first;
  }

  positive : (id : ℕ) → deliverable n c id ≡ true → id ≢ 0
  positive id d e = false≢true (sym no_zero ∙ ap (deliverable n c) (sym e) ∙ d)

  new-IsBest :
      (id : ℕ)
      → deliverable n c id ≡ true
      → ((k : ℕ)
          → k < id
          → deliverable n c k ≡ true
          → at c.pending_priority k < at c.pending_priority id)
      → IsBest n c (suc id) (record { best_id = id; best_id_prio = at c.pending_priority id })
  new-IsBest id d below = record {
    nothing = λ e. absurd (positive id d e);
    found = λ ne. (omega arith, d, refl);
    most = λ k lt del. elim (Bool-cases (k == id)) [
      | inl same ↦ rw ((==_iff k id).0 same) (le_refl _)
      | inr other ↦ let s = below k (ground arith) del in omega arith
    ];
    first = below;
  }

  keep_best :
      (id : ℕ) (b : Best)
      → b.best_id ≢ 0
      → at c.pending_priority id ≤ b.best_id_prio
      → IsBest n c id b
      → IsBest n c (suc id) b
  keep_best id b ne le h = record {
    nothing = λ e. absurd (ne e);
    found = λ ne'. let (lt, del, prio) = h.found ne' in (omega arith, del, prio);
    most = λ k lt del. elim (Bool-cases (k == id)) [
      | inl same ↦ rw ((==_iff k id).0 same) le
      | inr other ↦ h.most k (ground arith) del
    ];
    first = h.first;
  }

  take_source-IsBest :
      (id : ℕ) (b : Best)
      → deliverable n c id ≡ true
      → IsBest n c id b
      → IsBest n c (suc id) (take_source c id b)
  take_source-IsBest id b d h = elim (Bool-cases (b.best_id == 0)) [
    | inl none_yet ↦
        let empty = h.nothing ((==_iff b.best_id 0).0 none_yet) in
        rw none_yet (new-IsBest id d (λ k lt del. absurd (false≢true (sym (empty.1 k lt) ∙ del))))
    | inr some_yet ↦ elim (Bool-cases (ltb b.best_id_prio (at c.pending_priority id))) [
      | inl higher ↦
          rw (some_yet, higher)
            (new-IsBest id d (λ k lt del. let m = h.most k lt del in ground arith))
      | inr lower ↦ rw (some_yet, lower) (keep_best id b (ground arith) (ground arith) h)
    ]
  ]

  consider-IsBest :
      (i j : ℕ) (b : Best)
      → j < 32
      → IsBest n c (i * 32 + j) b
      → IsBest n c (suc (i * 32 + j)) (consider n c i j b)
  consider-IsBest i j b lt h =
      rw (consider_lem n c i j b lt) (elim (Bool-cases (deliverable n c (i * 32 + j))) [
        | inl d ↦ rw d (take_source-IsBest (i * 32 + j) b d h)
        | inr d ↦ rw d (skip_source (i * 32 + j) b d h)
      ])

  scan_bits-IsBest :
      (i left j : ℕ) (b : Best)
      → j + left ≡ 32
      → IsBest n c (i * 32 + j) b
      → IsBest n c (i * 32 + 32) (scan_bits n c i left j b)
  unfolding scan_bits
  scan_bits-IsBest i zero j b e h =
      let same : j ≡ 32 = omega arith in subst (λ t. IsBest n c (i * 32 + t) b) same h
  scan_bits-IsBest i (suc left) j b e h =
      let next : suc (i * 32 + j) ≡ i * 32 + (j + 1) = omega arith in
      scan_bits-IsBest i left (j + 1) (consider n c i j b) (omega arith)
        (rw next at (consider-IsBest i j b (omega arith) h))

  -- A word with no pending bit is passed over.
  skip_word :
      (i left j : ℕ) (b : Best)
      → at c.pending i ≡ 0
      → j + left ≡ 32
      → IsBest n c (i * 32 + j) b
      → IsBest n c (i * 32 + 32) b
  skip_word i zero j b z e h =
      let same : j ≡ 32 = omega arith in subst (λ t. IsBest n c (i * 32 + t) b) same h
  skip_word i (suc left) j b z e h =
      let next : suc (i * 32 + j) ≡ i * 32 + (j + 1) = omega arith in
      skip_word i left (j + 1) b z (omega arith)
        (rw next at (skip_source (i * 32 + j) b (idle n c i j z (omega arith)) h))

  scan_words-IsBest :
      (left i : ℕ) (b : Best)
      → IsBest n c (i * 32) b
      → IsBest n c ((i + left) * 32) (scan_words n c left i b)
  unfolding scan_words
  scan_words-IsBest zero i b h = let same : (i + 0) * 32 ≡ i * 32 = omega arith in rw same h
  scan_words-IsBest (suc left) i b h =
      let here : i * 32 ≡ i * 32 + 0 = omega arith in
      let next : i * 32 + 32 ≡ (i + 1) * 32 = omega arith in
      let last : (i + suc left) * 32 ≡ (i + 1 + left) * 32 = omega arith in
      rw last (elim (Bool-cases (at c.pending i == 0)) [
        | inl z ↦ rw z (
            scan_words-IsBest left (i + 1) b
              (rw next at (skip_word i 32 0 b ((==_iff _ 0).0 z) refl (rw here at h))))
        | inr nz ↦ rw nz (
            scan_words-IsBest left (i + 1) (scan_bits n c i 32 0 b)
              (rw next at (scan_bits-IsBest i 32 0 b refl (rw here at h))))
      ])

start-IsBest :
    (n : ℕ) (c : Context) → IsBest n c (0 * 32) (record { best_id = 0; best_id_prio = 0 })
start-IsBest n c = record {
  nothing = λ e. (refl, λ k lt. absurd (omega arith));
  found = λ ne. absurd (ne refl);
  most = λ k lt. absurd (omega arith);
  first = λ k lt. absurd (omega arith);
}

-- Where no source 0 is pending and the words cover the sources, the source that the controller
-- presents is none exactly if no deliverable source has a priority above the threshold; otherwise
-- it is deliverable and above the threshold, no deliverable source has a higher priority, and those
-- of equal priority have higher numbers.
pub context_best_pending_lem :
    (p : Plic) (c : Context)
    → deliverable p.num_ids c 0 ≡ false
    → p.num_ids ≤ p.num_ids_word * 32
    → (context_best_pending p c ≡ 0
        → (id : ℕ) → deliverable p.num_ids c id ≡ true
        → at c.pending_priority id ≤ c.priority_threshold)
      × (context_best_pending p c ≢ 0
          → (deliverable p.num_ids c (context_best_pending p c) ≡ true)
            × (c.priority_threshold < at c.pending_priority (context_best_pending p c))
            × ((id : ℕ)
                → deliverable p.num_ids c id ≡ true
                → (at c.pending_priority id ≤ at c.pending_priority (context_best_pending p c))
                  × (id < context_best_pending p c
                      → at c.pending_priority id
                        < at c.pending_priority (context_best_pending p c))))
unfolding context_best_pending
context_best_pending_lem p c no_zero covers =
    let b = scan_words p.num_ids c p.num_ids_word 0 (record { best_id = 0; best_id_prio = 0 }) in
    let h : IsBest p.num_ids c ((0 + p.num_ids_word) * 32) b =
      scan_words-IsBest p.num_ids c no_zero p.num_ids_word 0 _ (start-IsBest p.num_ids c) in
    let inside : (id : ℕ) → deliverable p.num_ids c id ≡ true → id < (0 + p.num_ids_word) * 32 =
      λ id d. let lt = deliverable-lt p.num_ids c id d in omega arith in
    elim (Bool-cases (leb b.best_id_prio c.priority_threshold)) [
      | inl masked ↦
          rw masked (
            (λ e id d. let m = h.most id (inside id d) d in ground arith),
            (λ ne. absurd (ne refl)),
          )
      | inr above ↦
          let some_best : b.best_id ≢ 0 = λ e. let z = (h.nothing e).0 in ground arith in
          let (lt, del, prio) = h.found some_best in
          rw above (
            (λ e. absurd (some_best e)),
            (λ ne. (
              del,
              ground arith,
              λ id d. (
                let m = h.most id (inside id d) d in ground arith,
                λ lower. let f = h.first id lower d in ground arith,
              ),
            )),
          )
    ]
