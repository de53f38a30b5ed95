-- ===== src/Media/Registry/Refines.antt =====
-- mediasoup_1/src/kore_media.c against the registry: any calls that are allowed, and the end.
pub mod Release
use kore_io_websocket.Base.{
  ℕ, zero, ◌≡◌, ◌≢◌, refl, subst, inl, inr, List, [], ◌∷◌, Option, none, some, ◌==◌, arith,
  Option-cases, Bool-cases, ==_iff,
}
use kore_io_websocket.Media.{World, update}
use kore_io_websocket.Media.Table.{HashTable}
use kore_io_websocket.Media.Rooms.{the_table}
use kore_io_websocket.Media.Registry.{
  Registry, Op, make, add, get, close, after, answer_of, Allowed, act, run, replay, answers,
  AllAllowed,
}
use kore_io_websocket.Media.Registry.Represents.{
  Represents, get_lem, made, make_lem, make-Represents, entered, add_lem, add-Represents,
  close_none, close_none-Represents, without, close_lem, close-Represents,
}

module _ (G : HashTable) (m : ℕ) (live : m ≢ 0) where
  abbrev Refined : Op → World G.T → Registry → Type 0
  Refined op w s =
      (w' : World G.T) × (act G m op w ≡ some (answer_of op s, w')) × Represents G m w' (after op s)

  make_null : (w : World G.T) (s : Registry) → Represents G m w s → Refined (make 0) w s
  unfolding act
  make_null w s h = (w, refl, h)

  closes :
      (k p : ℕ) (t : Option G.T) (w : World G.T) (s : Registry) (h : Represents G m w s)
      → s.under k ≡ some p
      → h.media.rooms ≡ t
      → Refined (close k) w s
  closes k p none w s h e f = absurd (ground (arith, h.table k))
  closes k p (some t) w s h e f = (
    without G m live w s h k p (some t),
    subst (λ o. act G m (close k) w ≡ some (0, without G m live w s h k p o)) f
        (close_lem G m live w s h k p e),
    close-Represents G m live w s h k p t e f,
  )

  step :
      (op : Op) (w : World G.T) (s : Registry) → Represents G m w s → Allowed op s → Refined op w s
  step (make p) w s h a = elim (Bool-cases (p == 0)) [
    | inl null ↦ rw ((==_iff p 0).0 null) (make_null w s h)
    | inr fresh ↦ (
      made G m live w s h p,
      make_lem G m live w s h p (ground arith) a.0,
      make-Represents G m live w s h p (ground arith) a,
    )
  ]
  step (add p) w s h (b, e) = (
    entered G m live w s h p b,
    add_lem G m live w s h p b e,
    add-Represents G m live w s h p b e,
  )
  step (get k) w s h a = (w, get_lem G m live w s h k, h)
  step (close k) w s h a = elim (Option-cases (s.under k)) [
    | inl e ↦ (w, close_none G m live w s h k e, close_none-Represents G m live w s h k e)
    | inr (p, e) ↦ closes k p h.media.rooms w s h e refl
  ]

  -- Any calls that are allowed, from memory that stands for a registry: none of them faults, they give
  -- the answers of the registry, and the memory then stands for the registry after the same calls. In
  -- it, every room has one holder, and no room is lost.
  pub run_refines :
      (ops : List Op) (w : World G.T) (s : Registry)
      → Represents G m w s
      → AllAllowed ops s
      → (w' : World G.T) × (run G m ops w ≡ some (answers ops s, w'))
        × Represents G m w' (replay ops s)
  unfolding run answers replay
  run_refines [] w s h a = (w, refl, h)
  run_refines (op ∷ ops) w s h (a, more) =
      let (w1, e, h1) = step op w s h a in
      let (w2, f, h2) = run_refines ops w1 (after op s) h1 more in (w2, ground (arith, e, f), h2)

  module _ (p b : ℕ) (w : World G.T) (s : Registry) (h : Represents G m w s)
      (e : s.spare p ≡ some b) where
    abbrev twice : World G.T
    twice =
        let w1 = entered G m live w s h p b in
        let t = G.insert (the_table G h.media.rooms) b p p in
        record w1 {
          rooms = update w1.rooms p none;
          medias = update w1.medias m (some (record h.media { rooms = some (G.insert t b p p) }));
          told = m ∷ w1.told;
        }

    second : act G m (add p) (entered G m live w s h p b) ≡ some (0, twice)
    unfolding act
    second =
        let t = the_table G h.media.rooms in
        ground (arith, h.spared p b e, h.table b, G.find-new_full b, G.find-insert t b p p)

    lost : act G m (get b) twice ≡ none
    unfolding act
    lost =
        let t = the_table G h.media.rooms in
        ground (
          arith,
          h.spared p b e,
          h.table b,
          G.find-new_full b,
          G.find-insert t b p p,
          G.find-insert (G.insert t b p p) b p p,
        )

  -- The same room added twice, from memory where it is a spare room under the number `b`: the second
  -- call gives the room that it replaces to the notifier, which frees it, and the table keeps it. The
  -- next lookup of `b` reads the freed room.
  pub second_add_dangles :
      (p b : ℕ) (w : World G.T) (s : Registry)
      → Represents G m w s
      → s.spare p ≡ some b
      → (w' : World G.T) × (run G m (add p ∷ add p ∷ []) w ≡ some (0 ∷ 0 ∷ [], w'))
        × (w'.rooms p ≡ none)
        × (act G m (get b) w' ≡ none)
  unfolding run
  second_add_dangles p b w s h e = (
    twice p b w s h e,
    ground (arith, add_lem G m live w s h p b e, second p b w s h e),
    ground arith,
    lost p b w s h e,
  )
