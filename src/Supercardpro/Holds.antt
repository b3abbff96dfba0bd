-- ===== src/Supercardpro/Holds.antt =====
-- Conditions on the answers of actions, for supercardpro/supercardpro.go.
use fdx.Prelude.{◌≡◌, refl, ap, Bool, true, false}
use mathlib.Core.Bool.{false≢true}
use fdx.Supercardpro.Actions.{Answer, ok, err, ScpError, Action, ◌>>=◌, go_on, pure}

-- An answer that is no error has the property.
unfoldable pub Holds : {A : Type 0} → (A → Type 0) → Answer A → Type 0
Holds P (ok a) = P a
Holds P (err e) = Unit {0}

-- Wherever the action starts, its answer has the property.
unfoldable pub Always : {D A : Type 0} → (A → Type 0) → Action D A → Type 0
Always P m = (s : _) → Holds P ((m s).0)

-- `m` first, then `f` on what it gives.
pub bind-Always :
    {D A B : Type 0}
    → (Q : A → Type 0) (P : B → Type 0) (m : Action D A) (f : A → Action D B) → Always Q m
    → ((a : A) → Q a → Always P (f a))
    → Always P (m >>= f)
unfolding Always Holds
bind-Always {D = D} {A = A} Q P m f hm hf s = go (m s) (hm s)
  where
    go : (r : Answer A × D) → Holds Q (r.0) → Holds P ((go_on f r).0)
    go (ok a, s') h = hf a h s'
    go (err e, s') h = tt

any-Always : {D A : Type 0} → (m : Action D A) → Always (λ _. Unit {0}) m
unfolding Always Holds
any-Always {A = A} m s = go ((m s).0)
  where
    go : (r : Answer A) → Holds (λ _. Unit {0}) r
    go (ok a) = tt
    go (err e) = tt

-- `m` first, whatever it gives.
pub then-Always :
    {D A B : Type 0}
    → (P : B → Type 0) (m : Action D A) (f : A → Action D B) → ((a : A) → Always P (f a))
    → Always P (m >>= f)
then-Always P m f hf = bind-Always (λ _. Unit {0}) P m f (any-Always m) (λ a h. hf a)

pub pure-Always :
    (D : Type 0) {A : Type 0} → (P : A → Type 0) (a : A) → P a → Always P (pure {D = D} a)
unfolding Always Holds
pure-Always D P a h s = h

unfoldable is_answer : {A : Type 0} → Answer A → Bool
is_answer (ok a) = true
is_answer (err e) = false

pub err_is_no_answer :
    {D A : Type 0}
    → {e : ScpError} {s s' : D} {a : A} → ◌≡◌ {A = Answer A × D} (err e, s) (ok a, s')
    → ⊥
unfolding is_answer
err_is_no_answer h = false≢true (ap (λ r. is_answer (r.0)) h)

-- An action that gives an answer has had one from its first part.
pub bind_inverted :
    {D A B : Type 0}
    → (f : A → Action D B) (r : Answer A × D) {b : B} {s : D} → go_on f r ≡ (ok b, s)
    → (a : A) × (s' : D) × (r ≡ (ok a, s')) × (f a s' ≡ (ok b, s))
bind_inverted f (ok a, s') h = (a, s', refl, h)
bind_inverted f (err e, s') h = absurd (err_is_no_answer h)
