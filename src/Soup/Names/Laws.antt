-- ===== src/Soup/Names/Laws.antt =====
-- Which ids have the same event name.
use native.Mathlib.Nat.{pow-suc, pow-zero}
use kore_io_websocket.Base.{
  ℕ, zero, suc, ◌+◌, ◌-◌, ◌*◌, ◌/◌, ◌%◌, ◌^◌, ◌≤◌, ◌<◌, ◌≡◌, refl, sym, ap, subst, ◌∙◌, List, [],
  ◌∷◌, ◌++◌, length, take, ◌==◌, arith, Bool-cases, inl, inr, length-append, take-append_length,
  append_assoc, append-nil, false,
}
use kore_io_websocket.Soup.Names.{digits_onto, event_name}

pow_div : (fuel n : ℕ) → n < 10 ^ suc fuel → n / 10 < 10 ^ fuel
pow_div fuel n h = omega (arith, pow-suc 10 fuel)

div-pow : (k n : ℕ) → 10 ^ suc k ≤ n → 10 ^ k ≤ n / 10
div-pow k n h = omega (arith, pow-suc 10 k)

pow_pos : (k : ℕ) → 0 < 10 ^ k
pow_pos zero = rw (pow-zero 10) (omega arith)
pow_pos (suc k) = omega (arith, pow-suc 10 k, pow_pos k)

value_from : ℕ → List ℕ → ℕ
value_from v [] = v
value_from v (d ∷ ds) = value_from (v * 10 + (d - 48)) ds

value-digits_onto :
    (fuel n : ℕ) (rest : List ℕ)
    → n < 10 ^ fuel
    → value_from 0 (digits_onto fuel n rest) ≡ value_from n rest
unfolding value_from digits_onto
value-digits_onto zero n rest h = let e : n ≡ 0 = omega arith in rw e
value-digits_onto (suc fuel) n rest h = elim (Bool-cases (n / 10 == 0)) [
  | inl done ↦ rw done (ap (λ v. value_from v rest) (ground arith))
  | inr more ↦ rw more (
      value-digits_onto fuel (n / 10) ((48 + n % 10) ∷ rest) (pow_div fuel n h)
      ∙ ap (λ v. value_from v rest) (omega arith))
]

digits_onto-append :
    (fuel n : ℕ) (rest : List ℕ) → digits_onto fuel n rest ≡ digits_onto fuel n [] ++ rest
unfolding digits_onto
digits_onto-append zero n rest = refl
digits_onto-append (suc fuel) n rest = elim (Bool-cases (n / 10 == 0)) [
  | inl done ↦ rw done
  | inr more ↦ rw more (
      digits_onto-append fuel (n / 10) ((48 + n % 10) ∷ rest)
      ∙ (rw (digits_onto-append fuel (n / 10) ((48 + n % 10) ∷ []))
          (sym (append_assoc (digits_onto fuel (n / 10) []) ((48 + n % 10) ∷ []) rest))))
]

-- With a digit for each power of ten, and fuel to spare.
length-digits_onto :
    (fuel k n : ℕ) → k < fuel → 10 ^ k ≤ n → n < 10 ^ suc k → length (digits_onto fuel n []) ≡ suc k
unfolding digits_onto
length-digits_onto zero k n h a b = elim h [ ]
length-digits_onto (suc fuel) zero n h a b = ground (arith, pow-suc 10 0, pow-zero 10)
length-digits_onto (suc fuel) (suc k) n h a b =
    let big : (n / 10 == 0) ≡ false = ground (arith, div-pow k n a, pow_pos k) in
    rw big (
      ap length (digits_onto-append fuel (n / 10) ((48 + n % 10) ∷ []))
      ∙ omega (
        arith,
        length-append (digits_onto fuel (n / 10) []) ((48 + n % 10) ∷ []),
        length-digits_onto fuel k (n / 10) (omega arith) (div-pow k n a) (pow_div (suc k) n b),
      ))

-- Eight digits fit.
event_name-digits : (n : ℕ) → 10000000 ≤ n → n ≤ 99999999 → event_name n ≡ digits_onto 10 n []
unfolding event_name
event_name-digits n a b =
    let l = length-digits_onto 10 7 n (omega arith) (omega arith) (omega arith) in
    ap (take 8) (sym (append-nil (digits_onto 10 n [])))
    ∙ (rw (← l) (take-append_length (digits_onto 10 n []) []))

-- The ids that `random_u32` gives have eight digits, and no two of them share an event name.
pub event_name-injective :
    (m n : ℕ)
    → 10000000 ≤ m
    → m ≤ 99999999
    → 10000000 ≤ n
    → n ≤ 99999999
    → event_name m ≡ event_name n
    → m ≡ n
unfolding value_from
event_name-injective m n a b c d e =
    sym (value-digits_onto 10 m [] (omega arith))
    ∙ ap (value_from 0) (sym (event_name-digits m a b) ∙ e ∙ event_name-digits n c d)
    ∙ value-digits_onto 10 n [] (omega arith)

more_fuel :
    (fuel n : ℕ) (rest : List ℕ)
    → n < 10 ^ suc fuel
    → digits_onto (suc (suc fuel)) n rest ≡ digits_onto (suc fuel) n rest
unfolding digits_onto
more_fuel zero n rest h = ground (arith, pow-suc 10 0, pow-zero 10)
more_fuel (suc fuel) n rest h = elim (Bool-cases (n / 10 == 0)) [
  | inl done ↦ rw done
  | inr more ↦ rw more (more_fuel fuel (n / 10) ((48 + n % 10) ∷ rest) (pow_div (suc fuel) n h))
]

digits_onto-step :
    (fuel n : ℕ) (rest : List ℕ)
    → 10 ≤ n
    → digits_onto (suc fuel) n rest ≡ digits_onto fuel (n / 10) ((48 + n % 10) ∷ rest)
unfolding digits_onto
digits_onto-step fuel n rest h = let big : (n / 10 == 0) ≡ false = ground arith in rw big

-- An id of nine digits, which only a peer can send, has the event name of the eight digits it begins
-- with, so a notification for it goes to the room that has those.
pub event_name-truncates :
    (n : ℕ) → 100000000 ≤ n → n ≤ 999999999 → event_name n ≡ event_name (n / 10)
unfolding event_name
event_name-truncates n a b =
    let d = 48 + n % 10 in
    let front = digits_onto 9 (n / 10) [] in
    let l : length front ≡ 8 =
      length-digits_onto 9 7 (n / 10) (omega arith) (omega arith) (omega arith) in
    ap (take 8) (digits_onto-step 9 n [] (omega arith) ∙ digits_onto-append 9 (n / 10) (d ∷ []))
    ∙ subst (λ k. take k (front ++ d ∷ []) ≡ front) l (take-append_length front (d ∷ []))
    ∙ sym (
        event_name-digits (n / 10) (omega arith) (omega arith)
        ∙ more_fuel 8 (n / 10) [] (omega arith))
