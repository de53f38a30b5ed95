-- ===== src/Media/Examples.antt =====
-- A hash table for the tests of mediasoup_1/src/kore_media.c: a list of entries with distinct keys.
mod Rooms
mod Messages
use kore_io_websocket.Base.{
  ℕ, ◌≡◌, ◌≢◌, ◌↔◌, refl, ap, sym, ◌∙◌, List, [], ◌∷◌, Option, none, some, ◌==◌, if◌then◌else◌,
  arith, Memᴰ, Absent, Distinct, Absent-mem, Bool-cases, inl, inr,
}
use kore_io_websocket.Media.Table.{HashTable, kept, key_of}

abbrev pub Entry : Type 0
Entry = ℕ × (ℕ × ℕ)

abbrev pub find_in : List Entry → ℕ → Option (ℕ × ℕ)
find_in [] k = none
find_in ((l, e) ∷ es) k = let rest = find_in es k in if l == k then some e else rest

abbrev pub put : List Entry → ℕ → ℕ → ℕ → List Entry
put [] k key value = (k, (key, value)) ∷ []
put ((l, (old, v)) ∷ es) k key value =
    let rest = put es k key value in if l == k then (l, (old, value)) ∷ es else (l, (old, v)) ∷ rest

abbrev pub drop_key : List Entry → ℕ → List Entry
drop_key [] k = []
drop_key (e ∷ es) k = let rest = drop_key es k in if e.0 == k then es else e ∷ rest

find_missing : (es : List Entry) (k : ℕ) → Absent key_of k es → find_in es k ≡ none
find_missing [] k a = refl
find_missing ((l, e) ∷ es) k (n, a) = ground (arith, find_missing es k a)

pub find-put :
    (es : List Entry) (k key value : ℕ)
    → find_in (put es k key value) k ≡ some (kept key (find_in es k), value)
find-put [] k key value = ground arith
find-put ((l, (old, v)) ∷ es) k key value = ground (arith, find-put es k key value)

pub find-put_ne :
    (es : List Entry) (k key value l : ℕ) → k ≢ l → find_in (put es k key value) l ≡ find_in es l
find-put_ne [] k key value l n = ground arith
find-put_ne ((i, (old, v)) ∷ es) k key value l n = ground (arith, find-put_ne es k key value l n)

Absent-put :
    (es : List Entry) (k key value l : ℕ)
    → l ≢ k
    → Absent key_of l es
    → Absent key_of l (put es k key value)
Absent-put [] k key value l n a = ground arith
Absent-put ((i, (old, v)) ∷ es) k key value l n (m, a) =
    ground (arith, m, Absent-put es k key value l n a)

pub Distinct-put :
    (es : List Entry) (k key value : ℕ) → Distinct key_of es → Distinct key_of (put es k key value)
Distinct-put [] k key value d = ground arith
Distinct-put ((i, (old, v)) ∷ es) k key value (a, d) =
    ground (arith, a, d, Distinct-put es k key value d, Absent-put es k key value i)

Absent-drop_key : (es : List Entry) (k l : ℕ) → Absent key_of l es → Absent key_of l (drop_key es k)
Absent-drop_key [] k l a = tt
Absent-drop_key (e ∷ es) k l (n, a) = ground (arith, n, a, Absent-drop_key es k l a)

pub Distinct-drop_key :
    (es : List Entry) (k : ℕ) → Distinct key_of es → Distinct key_of (drop_key es k)
Distinct-drop_key [] k d = tt
Distinct-drop_key (e ∷ es) k (a, d) =
    ground (arith, a, d, Distinct-drop_key es k d, Absent-drop_key es k e.0 a)

pub find-drop_key :
    (es : List Entry) (k : ℕ) → Distinct key_of es → find_in (drop_key es k) k ≡ none
find-drop_key [] k d = refl
find-drop_key ((l, e) ∷ es) k (a, d) =
    ground (arith, find-drop_key es k d, find_missing es k, find_missing es l a)

pub find-drop_key_ne :
    (es : List Entry) (k l : ℕ) → k ≢ l → find_in (drop_key es k) l ≡ find_in es l
find-drop_key_ne [] k l n = refl
find-drop_key_ne ((i, e) ∷ es) k l n = ground (arith, find-drop_key_ne es k l n)

pub to_mem : (es : List Entry) (k : ℕ) (e : ℕ × ℕ) → find_in es k ≡ some e → Memᴰ (k, e) es
to_mem [] k e f = absurd (cc)
to_mem ((l, d) ∷ es) k e f = elim (Bool-cases (l == k)) [
  | inl hit ↦ Memᴰ.head (ground arith)
  | inr miss ↦ Memᴰ.tail (to_mem es k e (ground arith))
]

pub of_mem :
    (es : List Entry) (k : ℕ) (e : ℕ × ℕ)
    → Distinct key_of es
    → Memᴰ (k, e) es
    → find_in es k ≡ some e
of_mem [] k e d m = elim m [ ]
of_mem ((l, c) ∷ es) k e (a, d) (Memᴰ.head h) =
    ground (arith, ap key_of h, ap (λ (x : Entry). x.1) h)
of_mem ((l, c) ∷ es) k e (a, d) (Memᴰ.tail m) =
    ground (arith, of_mem es k e d m, Absent-mem key_of es a m)

abbrev pub Table : Type 0
Table = (es : List Entry) × Distinct key_of es

abbrev pub table : HashTable
table = record {
  T = Table;
  new_full = ([], tt);
  find = λ (t : Table). find_in t.0;
  insert = λ (t : Table) k key value. (put t.0 k key value, Distinct-put t.0 k key value t.1);
  remove = λ (t : Table) k. (drop_key t.0 k, Distinct-drop_key t.0 k t.1);
  entries = λ (t : Table). t.0;
  find-new_full = λ k. refl;
  find-insert = λ (t : Table). find-put t.0;
  find-insert_ne = λ (t : Table). find-put_ne t.0;
  find-remove = λ (t : Table) k. find-drop_key t.0 k t.1;
  find-remove_ne = λ (t : Table). find-drop_key_ne t.0;
  entries-Distinct = λ (t : Table). t.1;
  entries-find = λ (t : Table) k e. (to_mem t.0 k e, of_mem t.0 k e t.1);
}
