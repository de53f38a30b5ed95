-- ===== src/Media/Registry/Represents.antt =====
-- The memory of mediasoup_1/src/kore_media.c that stands for a registry, and the calls that keep it so.
use kore_io_websocket.Base.{
  ℕ, ◌+◌, ◌≤◌, ◌<◌, ◌≡◌, ◌≢◌, ◌⊎◌, inl, inr, ◌∷◌, Option, none, some, arith, Option-cases,
}
use kore_io_websocket.Media.{Room, Media, World, update}
use kore_io_websocket.Media.Table.{HashTable}
use kore_io_websocket.Media.Rooms.{int_max, the_table, looked_up}
use kore_io_websocket.Media.Registry.{
  Registry, make, add, get, close, after, answer_of, Allowed, act,
}

-- A room as it is when one holder counts on it.
abbrev pub held : ℕ → Room
held b = record { a = 10; b = b; count = 1 }

abbrev pub both : Option ℕ → Option (ℕ × ℕ)
both none = none
both (some p) = some (p, p)

module _ (G : HashTable) (m : ℕ) where
  pub record Represents (w : World G.T) (s : Registry) : Type 0 where
    pub media : Media G.T
    pub here : w.medias m ≡ some media
    pub one : media.count ≡ 1
    pub table : (k : ℕ) → looked_up G media.rooms k ≡ both (s.under k)
    pub opened :
        (k p : ℕ)
        → s.under k ≡ some p
        → (w.rooms p ≡ some (held k)) × (p ≢ 0) × (0 < k) × (k ≤ s.last)
    pub spared :
        (p b : ℕ)
        → s.spare p ≡ some b
        → (w.rooms p ≡ some (held b)) × (p ≢ 0) × (0 < b) × (b ≤ s.last) × (s.under b ≡ none)
    pub alone : (p q b : ℕ) → s.spare p ≡ some b → s.spare q ≡ some b → p ≡ q
    pub owned :
        (p : ℕ) (r : Room) → w.rooms p ≡ some r → (s.spare p ≡ some r.b) ⊎ (s.under r.b ≡ some p)
    pub numbers : w.vid ≡ s.last

  module _ (live : m ≢ 0) (w : World G.T) (s : Registry) (h : Represents w s) where
    pub get_lem : (k : ℕ) → act G m (get k) w ≡ some (answer_of (get k) s, w)
    unfolding act
    get_lem k = elim (Option-cases (s.under k)) [
      | inl e ↦ ground (arith, h.here, h.table k)
      | inr (p, e) ↦ ground (arith, h.here, h.table k, h.opened k p)
    ]

    nothing_above : (k : ℕ) → s.last < k → s.under k ≡ none
    nothing_above k more = elim (Option-cases (s.under k)) [
      | inl e ↦ e
      | inr (p, e) ↦ absurd (omega (arith, (h.opened k p e).3))
    ]

    -- A room that was made is a spare one.
    abbrev pub made : ℕ → World G.T
    made p = record w { rooms = update w.rooms p (some (held (w.vid + 1))); vid = w.vid + 1 }

    pub make_lem : (p : ℕ) → p ≢ 0 → s.last < int_max → act G m (make p) w ≡ some (p, made p)
    unfolding act
    make_lem p np small = ground (arith, h.numbers)

    pub make-Represents :
        (p : ℕ) → p ≢ 0 → Allowed (make p) s → Represents (made p) (after (make p) s)
    make-Represents p np (small, fresh, unused) = record {
      media = h.media;
      here = h.here;
      one = h.one;
      table = λ k. ground (arith, h.table k);
      opened = λ k q e. ground (arith, h.opened k q, unused k);
      spared = λ q b e. ground (arith, h.spared q b, h.numbers, nothing_above (s.last + 1));
      alone = λ q r b e f. ground (arith, h.alone q r b, h.spared q b, h.spared r b);
      owned = λ q r e. ground (arith, h.owned q r, h.numbers);
      numbers = ground (arith, h.numbers);
    }

    -- A spare room is entered in the table, which is made for the first room.
    abbrev pub entered : ℕ → ℕ → World G.T
    entered p b = record w {
      medias =
          update w.medias m
            (some (record h.media { rooms = some (G.insert (the_table G h.media.rooms) b p p) }));
      told = m ∷ w.told;
    }

    pub add_lem : (p b : ℕ) → s.spare p ≡ some b → act G m (add p) w ≡ some (0, entered p b)
    unfolding act
    add_lem p b e =
        let (live_room, np, pos, small, free) = h.spared p b e in
        ground (arith, h.here, h.table b, G.find-new_full b)

    pub add-Represents : (p b : ℕ) → s.spare p ≡ some b → Represents (entered p b) (after (add p) s)
    add-Represents p b e =
        let (live_room, np, pos, small, free) = h.spared p b e in
        record {
          media = record h.media { rooms = some (G.insert (the_table G h.media.rooms) b p p) };
          here = ground arith;
          one = h.one;
          table = λ k. ground (
            arith,
            h.table k,
            h.table b,
            G.find-new_full k,
            G.find-new_full b,
            G.find-insert (the_table G h.media.rooms) b p p,
            G.find-insert_ne (the_table G h.media.rooms) b p p k,
          );
          opened = λ k q f. ground (arith, h.opened k q);
          spared = λ q c f. ground (arith, h.spared q c, h.alone p q b);
          alone = λ q r c f g. ground (arith, h.alone q r c);
          owned = λ q r f. ground (arith, h.owned q r);
          numbers = ground (arith, h.numbers);
        }

    -- A number without a room is closed in vain.
    pub close_none : (k : ℕ) → s.under k ≡ none → act G m (close k) w ≡ some (0, w)
    unfolding act
    close_none k e = ground (arith, h.here, h.table k)

    pub close_none-Represents : (k : ℕ) → s.under k ≡ none → Represents w (after (close k) s)
    close_none-Represents k e = record {
      media = h.media;
      here = h.here;
      one = h.one;
      table = λ l. ground (arith, h.table l);
      opened = λ l q f. ground (arith, h.opened l q);
      spared = λ q c f. ground (arith, h.spared q c);
      alone = h.alone;
      owned = λ q r f. ground (arith, h.owned q r);
      numbers = h.numbers;
    }

    abbrev pub without : ℕ → ℕ → Option G.T → World G.T
    without k p none = w
    without k p (some t) = record w {
      rooms = update w.rooms p none;
      medias = update w.medias m (some (record h.media { rooms = some (G.remove t k) }));
    }

    pub close_lem :
        (k p : ℕ) → s.under k ≡ some p → act G m (close k) w ≡ some (0, without k p h.media.rooms)
    unfolding act
    close_lem k p e = ground (arith, h.here, h.table k, h.opened k p)

    pub close-Represents :
        (k p : ℕ) (t : G.T)
        → s.under k ≡ some p
        → h.media.rooms ≡ some t
        → Represents (without k p (some t)) (after (close k) s)
    close-Represents k p t e f = record {
      media = record h.media { rooms = some (G.remove t k) };
      here = ground arith;
      one = h.one;
      table = λ l. ground (arith, h.table l, G.find-remove t k, G.find-remove_ne t k l);
      opened = λ l q g. ground (arith, h.opened l q, h.opened k p);
      spared = λ q c g. ground (arith, h.spared q c, h.opened k p);
      alone = h.alone;
      owned = λ q r g. ground (arith, h.owned q r, h.opened k p);
      numbers = h.numbers;
    }
