-- ===== src/Buckyball/Run.antt =====
-- The runs of nvr/buckyball/bucykball.cc: code that changes the unit and the memory and that an
-- exception may stop. A stopped run keeps what it changed before.
use spike_online.Base.{ℕ, zero, suc, ◌+◌, ◌≤◌, ◌<◌, ◌≡◌, arith, List, Option, none, some}
use spike_online.Base.{get_elem?}
use mathlib.Core.Path.{subst}

-- Why a run stops: an access to memory raises an exception, `at` throws, or the instruction is none.
pub data Stop : Type 0 where
  fault : Stop
  out_of_range : Stop
  illegal_instruction : Stop

pub data Result (A : Type 0) : Type 0 where
  done : A → Result A
  stopped : Stop → Result A

module _ {S : Type 0} where
  abbrev pub next : {A B : Type 0} → S × Result A → (A → S → S × Result B) → S × Result B
  next (s, done a) f = f a s
  next (s, stopped why) f = (s, stopped why)

-- A run from a state to a state and a result.
abbrev pub Run : Type 0 → Type 0 → Type 0
Run S A = S → S × Result A

module _ {S : Type 0} where
  abbrev pub pure : {A : Type 0} → A → Run S A
  pure a s = (s, done a)

  infixl 5 ◌>>=◌ ◌>>◌
  abbrev pub ◌>>=◌ : {A B : Type 0} → Run S A → (A → Run S B) → Run S B
  ◌>>=◌ m f s = next (m s) f

  abbrev pub ◌>>◌ : {B : Type 0} → Run S (Unit {0}) → Run S B → Run S B
  m >> k = m >>= λ _. k

  abbrev pub read : {A : Type 0} → (S → A) → Run S A
  read f s = (s, done (f s))

  abbrev pub modify : (S → S) → Run S (Unit {0})
  modify f s = (f s, done tt)

  abbrev pub throw : {A : Type 0} → Stop → Run S A
  throw why s = (s, stopped why)

  -- `v.at(i)` of a vector.
  abbrev pub or_throw : {A : Type 0} → Option A → Run S A
  or_throw none = throw out_of_range
  or_throw (some a) = pure a

  unfoldable pub at : {A : Type 0} → List A → ℕ → Run S A
  at v i = or_throw (get_elem? v i)

  -- `for (i = first; i < first + n; i++)`
  unfoldable pub for : ℕ → ℕ → (ℕ → Run S (Unit {0})) → Run S (Unit {0})
  for zero i body = pure tt
  for (suc n) i body = do body i; for n (suc i) body

-- A run that ends with a value and a state that satisfy `Q`.
pub data Gives {S A : Type 0} (Q : A → S → Type 0) : S × Result A → Type 0 where
  gives : {a : A} {s : S} → Q a s → Gives Q (s, done a)

module _ {S A : Type 0} {Q : A → S → Type 0} where
  pub next-Gives :
      {B : Type 0} {P : B → S → Type 0} {r : S × Result A} {f : A → S → S × Result B}
      → Gives Q r
      → ((a : A) (s : S) → Q a s → Gives P (f a s))
      → Gives P (next r f)
  next-Gives (gives q) k = k _ _ q

  pub weaken-Gives :
      {P : A → S → Type 0} {r : S × Result A}
      → Gives Q r
      → ((a : A) (s : S) → Q a s → P a s)
      → Gives P r
  weaken-Gives (gives q) k = gives (k _ _ q)

-- A loop keeps an invariant, if each round does.
pub for-Gives :
    {S : Type 0} (P : ℕ → S → Type 0) (body : ℕ → Run S (Unit {0})) (n i stop : ℕ) (s : S)
    → i + n ≡ stop
    → ((k : ℕ) (t : S) → i ≤ k → k < stop → P k t → Gives (λ _. P (suc k)) (body k t))
    → P i s
    → Gives (λ _. P stop) (for n i body s)
unfolding for
for-Gives P body zero i stop s e keep p = gives (subst (λ (k : ℕ). P k s) (omega (arith, e)) p)
for-Gives P body (suc n) i stop s e keep p =
    next-Gives (keep i s (omega arith) (omega (arith, e)) p) λ _ t q.
      for-Gives P body n (suc i) stop t (omega (arith, e)) (λ k u lo. keep k u (omega (arith, lo)))
        q
