-- ===== src/Bus/Find.antt =====
-- Which device of the bus answers an address.
use spike_online.Bus.{add_device, upper_bound, is_empty, find_device}
use spike_online.Base.{
  ℕ, suc, ◌+◌, ◌-◌, ◌≤◌, ◌<◌, ◌≡◌, refl, sym, ap, ◌∙◌, arith, true, false, inl, inr, Bool-cases,
  ltb→lt, ==_iff, Option, none, some, List, [], ◌∷◌, get_elem?, if◌then◌else◌, ltb, ◌==◌,
}

module _ {P : Type 0} where
  -- The bases ascend, from `low` on.
  pub Ascends : ℕ → List (ℕ × P) → Type 0
  Ascends low [] = 0 ≤ 0
  Ascends low ((base, dev) ∷ devices) = (low ≤ base) × Ascends (base + 1) devices

  Ascends-lower :
      (low low' : ℕ) (devices : List (ℕ × P))
      → low' ≤ low
      → Ascends low devices
      → Ascends low' devices
  unfolding Ascends
  Ascends-lower low low' [] h s = s
  Ascends-lower low low' ((base, dev) ∷ devices) h (l, s) = (omega (arith, l, h), s)

  pub add_device-Ascends :
      (low : ℕ) (devices : List (ℕ × P)) (addr : ℕ) (dev : P)
      → low ≤ addr
      → Ascends low devices
      → Ascends low (add_device devices addr dev)
  unfolding Ascends add_device
  add_device-Ascends low [] addr dev h s = (h, omega arith)
  add_device-Ascends low ((base, other) ∷ devices) addr dev h (l, s) =
      elim (Bool-cases (ltb addr base)) [
        | inl t ↦ rw (t, add_device) (h, (ground (arith, t), s))
        | inr f ↦ elim (Bool-cases (base == addr)) [
          | inl t ↦
              rw (f, t, add_device)
                (h, Ascends-lower (base + 1) (addr + 1) devices (ground (arith, t)) s)
          | inr g ↦
              rw (f, g, add_device)
                (l, add_device-Ascends (base + 1) devices addr dev (ground (arith, f, g)) s)
        ]
      ]

  -- What a map has at a key.
  pub lookup : List (ℕ × P) → ℕ → Option P
  lookup [] key = none
  lookup ((base, dev) ∷ devices) key = if base == key then some dev else lookup devices key

  pub lookup-add_device :
      (devices : List (ℕ × P)) (addr key : ℕ) (dev : P)
      → lookup (add_device devices addr dev) key
        ≡ (if addr == key then some dev else lookup devices key)
  unfolding lookup add_device
  lookup-add_device [] addr key dev = refl
  lookup-add_device ((base, other) ∷ devices) addr key dev = elim (Bool-cases (ltb addr base)) [
    | inl t ↦ rw (t, add_device) refl
    | inr f ↦ elim (Bool-cases (base == addr)) [
      | inl t ↦
          rw (f, t, add_device)
            (elim (Bool-cases (addr == key)) [
              | inl k ↦ rw k refl
              | inr k ↦
                  let other_key : (base == key) ≡ false = ground arith in rw (k, other_key) refl
            ])
      | inr g ↦
          rw (f, g, add_device)
            (elim (Bool-cases (base == key)) [
              | inl k ↦
                  let other_key : (addr == key) ≡ false = ground arith in rw (k, other_key) refl
              | inr k ↦ rw (k, lookup) (lookup-add_device devices addr key dev)
            ])
    ]
  ]

  -- Of every base of a list.
  pub Every : (ℕ → Type 0) → List (ℕ × P) → Type 0
  Every Q [] = 0 ≤ 0
  Every Q ((base, dev) ∷ devices) = Q base × Every Q devices

  Every-map :
      (Q R : ℕ → Type 0) (devices : List (ℕ × P))
      → ((b : ℕ) → Q b → R b)
      → Every Q devices
      → Every R devices
  unfolding Every
  Every-map Q R [] f h = h
  Every-map Q R ((base, dev) ∷ devices) f (q, h) = (f base q, Every-map Q R devices f h)

  Every-lookup :
      (Q : ℕ → Type 0) (devices : List (ℕ × P)) (key : ℕ) (dev : P)
      → Every Q devices
      → lookup devices key ≡ some dev
      → Q key
  unfolding Every lookup
  Every-lookup Q [] key dev h e = cc
  Every-lookup Q ((base, other) ∷ devices) key dev (q, h) e = elim (Bool-cases (base == key)) [
    | inl t ↦ let same = (==_iff base key).0 t in rw same at q
    | inr f ↦
        let miss : (if base == key then some other else lookup devices key) ≡ lookup devices key =
          rw f refl in
        Every-lookup Q devices key dev h (sym miss ∙ e)
  ]

  Ascends-Every :
      (low : ℕ) (devices : List (ℕ × P)) → Ascends low devices → Every (λ b. low ≤ b) devices
  unfolding Ascends Every
  Ascends-Every low [] h = h
  Ascends-Every low ((base, dev) ∷ devices) (l, s) = (
    l,
    Every-map (λ b. base + 1 ≤ b) (λ b. low ≤ b) devices (λ b k. omega (arith, k, l))
        (Ascends-Every (base + 1) devices s),
  )

  -- The device with the greatest base at or below an address, none if every base is above it.
  pub IsNearest : List (ℕ × P) → ℕ → Option (ℕ × P) → Type 0
  IsNearest devices addr none = Every (λ b. addr < b) devices
  IsNearest devices addr (some (base, dev)) =
      (lookup devices base ≡ some dev) × (base ≤ addr) × Every (λ b. b ≤ addr → b ≤ base) devices

  abbrev or_item : Option (ℕ × P) → ℕ × P → ℕ × P
  or_item none item = item
  or_item (some other) item = other

  after :
      (devices : List (ℕ × P)) (addr k : ℕ)
      → is_empty devices ≡ false
      → upper_bound devices addr ≡ suc k
      → find_device devices addr ≡ get_elem? devices k
  unfolding find_device
  after devices addr k h e =
      let positive : (suc k == 0) ≡ false = ground arith in
      let back : suc k - 1 ≡ k = omega arith in rw (h, e, positive, back) refl

  find_device-cons :
      (base : ℕ) (dev : P) (devices : List (ℕ × P)) (addr : ℕ)
      → find_device ((base, dev) ∷ devices) addr
        ≡ (if ltb addr base then none else some (or_item (find_device devices addr) (base, dev)))
  unfolding find_device upper_bound
  find_device-cons base dev [] addr = elim (Bool-cases (ltb addr base)) [
    | inl t ↦ rw t refl
    | inr f ↦ rw f refl
  ]
  find_device-cons base dev ((base', dev') ∷ devices) addr = elim (Bool-cases (ltb addr base)) [
    | inl t ↦ rw t refl
    | inr f ↦ elim (Bool-cases (ltb addr base')) [
      | inl t ↦ rw (f, t, find_device, upper_bound) refl
      | inr g ↦
          let here : find_device ((base', dev') ∷ devices) addr
              ≡ some (or_item (find_device devices addr) (base', dev')) =
            find_device-cons base' dev' devices addr ∙ rw g refl in
          let item : get_elem? ((base', dev') ∷ devices) (upper_bound devices addr)
              ≡ some (or_item (find_device devices addr) (base', dev')) =
            sym (after ((base', dev') ∷ devices) addr (upper_bound devices addr) refl (rw g refl))
            ∙ here in
          let item' = or_item (find_device ((base', dev') ∷ devices) addr) (base, dev) in
          let last : (if ltb addr base then none else some item') ≡ some item' = rw f refl in
          after ((base, dev) ∷ (base', dev') ∷ devices) addr (suc (upper_bound devices addr)) refl
            (rw (f, g) refl)
          ∙ item
          ∙ ap (λ o. some (or_item o (base, dev))) (sym here)
          ∙ sym last
    ]
  ]

  find_device-below :
      (base : ℕ) (dev : P) (devices : List (ℕ × P)) (addr : ℕ)
      → base ≤ addr
      → find_device ((base, dev) ∷ devices) addr
        ≡ some (or_item (find_device devices addr) (base, dev))
  find_device-below base dev devices addr h =
      let low : ltb addr base ≡ false = ground (arith, h) in
      find_device-cons base dev devices addr ∙ rw low refl

  IsNearest-cons :
      (base : ℕ) (dev : P) (devices : List (ℕ × P)) (addr : ℕ) (found : Option (ℕ × P))
      → base ≤ addr
      → Every (λ b. base + 1 ≤ b) devices
      → IsNearest devices addr found
      → IsNearest ((base, dev) ∷ devices) addr (some (or_item found (base, dev)))
  unfolding IsNearest Every lookup
  IsNearest-cons base dev devices addr none h above near =
      let self : (base == base) ≡ true = ground arith in
      let others =
        Every-map (λ b. addr < b) (λ b. b ≤ addr → b ≤ base) devices (λ b k l. omega (arith, k, l))
          near in
      (rw self refl, h, ((λ l. omega arith), others))
  IsNearest-cons base dev devices addr (some (base', dev')) h above (there, low, near) =
      let higher : base + 1 ≤ base' =
        Every-lookup (λ b. base + 1 ≤ b) devices base' dev' above there in
      let other : (base == base') ≡ false = ground (arith, higher) in
      (rw other there, low, ((λ l. omega (arith, higher)), near))

  find_device-IsNearest :
      (low : ℕ) (devices : List (ℕ × P)) (addr : ℕ)
      → Ascends low devices
      → IsNearest devices addr (find_device devices addr)
  unfolding IsNearest Every Ascends find_device
  find_device-IsNearest low [] addr s = omega arith
  find_device-IsNearest low ((base, dev) ∷ devices) addr (l, s) =
      elim (Bool-cases (ltb addr base)) [
        | inl t ↦
            rw (find_device-cons base dev devices addr, t)
              (
                ltb→lt addr base t,
                Every-map (λ b. base + 1 ≤ b) (λ b. addr < b) devices (λ b k. ground (arith, k, t))
                    (Ascends-Every (base + 1) devices s),
              )
        | inr f ↦ rw (find_device-below base dev devices addr (ground (arith, f))) (
            IsNearest-cons base dev devices addr (find_device devices addr) (ground (arith, f))
              (Ascends-Every (base + 1) devices s)
              (find_device-IsNearest (base + 1) devices addr s))
      ]

  -- The devices that are attached one after the other, the last item first.
  abbrev pub attach : List (ℕ × P) → List (ℕ × P)
  attach [] = []
  attach ((addr, dev) ∷ items) = add_device (attach items) addr dev

  attach-Ascends : (items : List (ℕ × P)) → Ascends 0 (attach items)
  unfolding Ascends
  attach-Ascends [] = omega arith
  attach-Ascends ((addr, dev) ∷ items) =
      add_device-Ascends 0 (attach items) addr dev (omega arith) (attach-Ascends items)

  -- In every bus that is made by attaching devices, the device that answers an address is the one
  -- with the greatest base at or below it, and there is none exactly if every base is above it.
  pub find_device-attach :
      (items : List (ℕ × P)) (addr : ℕ)
      → IsNearest (attach items) addr (find_device (attach items) addr)
  find_device-attach items addr = find_device-IsNearest 0 (attach items) addr (attach-Ascends items)
