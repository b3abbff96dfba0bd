-- ===== src/Hfe/Collect/Map.antt =====
-- The map of sectors by number.
use fdx.Prelude.{ℕ, suc, ◌≤◌, ◌<◌, ◌≡◌, refl, arith, if◌then◌else◌, ◌==◌}
use fdx.Prelude.{some, none, List, [], ◌∷◌, length, get_or}
use fdx.Hfe.Collect.{store, find}

pub find-store :
    (j k : ℕ) (d : List ℕ) (m : List (ℕ × List ℕ))
    → find j (store k d m) ≡ (if k == j then some d else find j m)
unfolding find store
find-store j k d [] = refl
find-store j k d ((i, e) ∷ m) = ground (arith, find-store j k d m)

pub length-store :
    (k : ℕ) (d : List ℕ) (m : List (ℕ × List ℕ))
    → find k m ≡ none
    → length (store k d m) ≡ suc (length m)
unfolding find store
length-store k d [] h = refl
length-store k d ((i, e) ∷ m) h = ground (arith, length-store k d m)

-- The map holds the sectors below `s`, and no other.
pub record Holds (sectors : List (List ℕ)) (s : ℕ) (m : List (ℕ × List ℕ)) : Type 0 where
  pub count : length m ≡ s
  pub below : (i : ℕ) → i < s → find i m ≡ some (get_or sectors i [])
  pub beyond : (i : ℕ) → s ≤ i → find i m ≡ none

pub Holds-empty : (sectors : List (List ℕ)) → Holds sectors 0 []
Holds-empty sectors = record {
  count = refl;
  below = λ i h. absurd (omega arith);
  beyond = λ i h. unfold find in refl;
}

pub Holds-store :
    (sectors : List (List ℕ)) (s : ℕ) (m : List (ℕ × List ℕ))
    → Holds sectors s m
    → Holds sectors (suc s) (store s (get_or sectors s []) m)
Holds-store sectors s m h = record {
  count = omega (arith, length-store s (get_or sectors s []) m (h.beyond s (omega arith)), h.count);
  below = λ i hi. ground (arith, find-store i s (get_or sectors s []) m, h.below i);
  beyond = λ i hi. ground (arith, find-store i s (get_or sectors s []) m, h.beyond i);
}
