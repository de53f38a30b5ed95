-- ===== src/Base/Keys.antt =====
-- Lists whose elements have distinct keys.
use Prim.Native.Nat.{ℕ}
use mathlib.Core.Path.{ap, ◌∙◌}
use mathlib.Core.Logic.{◌≢◌}
use mathlib.Core.List.{List, [], ◌∷◌, Memᴰ}

module _ {ℓ} {A : Type ℓ} (key : A → ℕ) where
  -- No element has the key `k`.
  abbrev pub Absent : ℕ → List A → Type 0
  Absent k [] = Unit
  Absent k (x ∷ xs) = (k ≢ key x) × Absent k xs

  abbrev pub Distinct : List A → Type 0
  Distinct [] = Unit
  Distinct (x ∷ xs) = Absent (key x) xs × Distinct xs

  pub Absent-mem : {k : ℕ} {x : A} (xs : List A) → Absent k xs → Memᴰ x xs → k ≢ key x
  Absent-mem [] a m = elim m [ ]
  Absent-mem (y ∷ ys) a (Memᴰ.head e) = λ h. a.0 (h ∙ ap key e)
  Absent-mem (y ∷ ys) a (Memᴰ.tail m) = Absent-mem ys a.1 m
