-- ===== src/Media/Registry/Refines/Release.antt =====
-- The end of a media object of mediasoup_1/src/kore_media.c: its last reference is given up.
use kore_io_websocket.Base.{
  ℕ, ◌≡◌, ◌≢◌, refl, ap, ◌∙◌, inl, inr, List, [], ◌∷◌, Option, none, some, arith, Option-cases,
  Memᴰ, Absent, Distinct,
}
use kore_io_websocket.Media.{Room, World, update}
use kore_io_websocket.Media.Table.{HashTable, key_of}
use kore_io_websocket.Media.Rooms.{looked_up, entries_of, remove_all, destroy_media, media_dec}
use kore_io_websocket.Media.Registry.{Registry}
use kore_io_websocket.Media.Registry.Represents.{held, Represents}

abbrev Entry : Type 0
Entry = ℕ × (ℕ × ℕ)

abbrev room_of : Entry → ℕ
room_of e = e.1.1

abbrev cleared : List Entry → (ℕ → Option Room) → ℕ → Option Room
cleared [] f = f
cleared (e ∷ es) f = cleared es (update f (room_of e) none)

-- The rooms of the entries are alive, each with the one reference of the table.
abbrev AllHeld : List Entry → (ℕ → Option Room) → Type 0
AllHeld [] f = Unit
AllHeld (e ∷ es) f = (f (room_of e) ≡ some (held e.0)) × (room_of e ≢ 0) × AllHeld es f

AllHeld-update :
    (k p : ℕ) (es : List Entry) (f : ℕ → Option Room)
    → f p ≡ some (held k)
    → Absent key_of k es
    → AllHeld es f
    → AllHeld es (update f p none)
AllHeld-update k p [] f e a h = tt
AllHeld-update k p (d ∷ es) f e (a, more) (h, n, hs) =
    (ground arith, n, AllHeld-update k p es f e more hs)

cleared-none : (es : List Entry) (f : ℕ → Option Room) (q : ℕ) → f q ≡ none → cleared es f q ≡ none
cleared-none [] f q e = e
cleared-none (d ∷ es) f q e = cleared-none es (update f (room_of d) none) q (ground arith)

cleared_mem :
    (es : List Entry) (f : ℕ → Option Room) {d : Entry}
    → Memᴰ d es
    → cleared es f (room_of d) ≡ none
cleared_mem [] f m = elim m [ ]
cleared_mem (c ∷ es) f {d} (Memᴰ.head e) =
    cleared-none es (update f (room_of c) none) (room_of d) (ground (arith, ap room_of e))
cleared_mem (c ∷ es) f (Memᴰ.tail m) = cleared_mem es (update f (room_of c) none) m

cleared_elsewhere :
    (es : List Entry) (f : ℕ → Option Room) (q : ℕ) → Absent room_of q es → cleared es f q ≡ f q
cleared_elsewhere [] f q a = refl
cleared_elsewhere (c ∷ es) f q (a, more) =
    cleared_elsewhere es (update f (room_of c) none) q more ∙ ground arith

-- What a registry leaves of the rooms: the spare ones.
abbrev pub left : Registry → ℕ → Option Room
left s q = elim (s.spare q) [ none ↦ none | some b ↦ some (held b) ]

module _ (G : HashTable) where
  remove_all-cleared :
      (es : List Entry) (w : World G.T)
      → Distinct key_of es
      → AllHeld es w.rooms
      → remove_all G es w ≡ some (tt, record w { rooms = cleared es w.rooms })
  unfolding remove_all
  remove_all-cleared [] w d h = refl
  remove_all-cleared (e ∷ es) w (a, d) (h, n, hs) = ground (
    arith,
    remove_all-cleared es (record w { rooms = update w.rooms (room_of e) none }) d
        (AllHeld-update e.0 (room_of e) es w.rooms h a hs),
  )

  in_table : (o : Option G.T) (e : Entry) → Memᴰ e (entries_of G o) → looked_up G o e.0 ≡ some e.1
  in_table none e i = elim i [ ]
  in_table (some t) e i = (G.entries-find t e.0 e.1).1 i

  listed : (o : Option G.T) (e : Entry) → looked_up G o e.0 ≡ some e.1 → Memᴰ e (entries_of G o)
  listed none e i = absurd (ground arith)
  listed (some t) e i = (G.entries-find t e.0 e.1).0 i

  distinct : (o : Option G.T) → Distinct key_of (entries_of G o)
  distinct none = tt
  distinct (some t) = G.entries-Distinct t

  module _ (m : ℕ) (live : m ≢ 0) (w : World G.T) (s : Registry) (h : Represents G m w s) where
    the_entries : List Entry
    the_entries = entries_of G h.media.rooms

    entry_lem : (e : Entry) → Memᴰ e the_entries → looked_up G h.media.rooms e.0 ≡ some e.1
    unfolding the_entries
    entry_lem e i = in_table h.media.rooms e i

    own_lem : (e : Entry) → Memᴰ e the_entries → s.under e.0 ≡ some (room_of e)
    own_lem e i = ground (arith, entry_lem e i, h.table e.0)

    all_held :
        (es : List Entry)
        → ((e : Entry) → Memᴰ e es → s.under e.0 ≡ some (room_of e))
        → AllHeld es w.rooms
    all_held [] f = tt
    all_held (e ∷ es) f =
        let (alive, n, pos, small) = h.opened e.0 (room_of e) (f e (Memᴰ.head refl)) in
        (alive, n, all_held es (λ d i. f d (Memᴰ.tail i)))

    absent_lem :
        (q : ℕ) (es : List Entry)
        → ((e : Entry) → Memᴰ e es → s.under e.0 ≡ some (room_of e))
        → ((k : ℕ) → s.under k ≢ some q)
        → Absent room_of q es
    absent_lem q [] f g = tt
    absent_lem q (e ∷ es) f g =
        (ground (arith, f e (Memᴰ.head refl), g e.0), absent_lem q es (λ d i. f d (Memᴰ.tail i)) g)

    freed :
        (q : ℕ) (r : Room)
        → w.rooms q ≡ some r
        → s.spare q ≡ none
        → cleared the_entries w.rooms q ≡ none
    unfolding the_entries
    freed q r alive e =
        let kept : s.under r.b ≡ some q = ground (arith, h.owned q r alive) in
        cleared_mem the_entries w.rooms {d = (r.b, (q, q))}
          (listed h.media.rooms (r.b, (q, q)) (ground (arith, h.table r.b)))

    not_kept : (q b : ℕ) → s.spare q ≡ some b → (k : ℕ) → s.under k ≢ some q
    not_kept q b e k f = ground (arith, h.spared q b e, h.opened k q f)

    cleared-left : (q : ℕ) → cleared the_entries w.rooms q ≡ left s q
    cleared-left q = elim (Option-cases (s.spare q)) [
      | inl e ↦ elim (Option-cases (w.rooms q)) [
        | inl gone ↦ ground (arith, cleared-none the_entries w.rooms q gone)
        | inr (r, alive) ↦ ground (arith, freed q r alive e)
      ]
      | inr (b, e) ↦ ground (
        arith,
        cleared_elsewhere the_entries w.rooms q (absent_lem q the_entries own_lem (not_kept q b e)),
        h.spared q b e,
      )
    ]

    -- From memory that stands for a registry, giving up the last reference of the media object frees it
    -- and every room that was added, each once, and nothing faults; the rooms that were made and never
    -- added stay as they are.
    pub release_frees :
        (w' : World G.T) × (media_dec G m w ≡ some (tt, w'))
        × (w'.medias m ≡ none)
        × ((q : ℕ) → w'.rooms q ≡ left s q)
    unfolding media_dec destroy_media the_entries
    release_frees = (
      record w { rooms = cleared the_entries w.rooms; medias = update w.medias m none },
      ground (
        arith,
        h.here,
        remove_all-cleared the_entries w (distinct h.media.rooms) (all_held the_entries own_lem),
      ),
      ground arith,
      cleared-left,
    )
