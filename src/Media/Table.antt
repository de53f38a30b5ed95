-- ===== src/Media/Table.antt =====
-- What mediasoup_1/src/kore_media.c takes from GLib's GHashTable with `int` keys behind pointers. `find`
-- gives the two pointers that are kept under a key: the one to the key and the value. `entries` lists the
-- keys with these, in the order in which `g_hash_table_destroy` hands the values to the notifier.
use kore_io_websocket.Base.{ℕ, ◌≡◌, ◌≢◌, ◌↔◌, List, Option, none, some, Memᴰ, Distinct}

abbrev pub kept : ℕ → Option (ℕ × ℕ) → ℕ
kept key none = key
kept key (some (old, value)) = old

abbrev pub key_of : ℕ × (ℕ × ℕ) → ℕ
key_of e = e.0

pub record HashTable : Type 1 where
  pub T : Type 0
  -- g_hash_table_new_full(g_int_hash, g_int_equal, NULL, …)
  pub new_full : T
  pub find : T → ℕ → Option (ℕ × ℕ)
  -- g_hash_table_insert: a key that is there keeps its pointer
  pub insert : T → ℕ → ℕ → ℕ → T
  -- g_hash_table_remove
  pub remove : T → ℕ → T
  pub entries : T → List (ℕ × (ℕ × ℕ))
  pub find-new_full : (k : ℕ) → find new_full k ≡ none
  pub find-insert :
      (t : T) (k key value : ℕ) → find (insert t k key value) k ≡ some (kept key (find t k), value)
  pub find-insert_ne :
      (t : T) (k key value l : ℕ) → k ≢ l → find (insert t k key value) l ≡ find t l
  pub find-remove : (t : T) (k : ℕ) → find (remove t k) k ≡ none
  pub find-remove_ne : (t : T) (k l : ℕ) → k ≢ l → find (remove t k) l ≡ find t l
  pub entries-Distinct : (t : T) → Distinct key_of (entries t)
  pub entries-find : (t : T) (k : ℕ) (e : ℕ × ℕ) → (find t k ≡ some e) ↔ Memᴰ (k, e) (entries t)
