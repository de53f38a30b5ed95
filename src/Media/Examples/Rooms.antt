-- ===== src/Media/Examples/Rooms.antt =====
-- The theorems on the rooms of mediasoup_1/src/kore_media.c and on its numbers at one media object.
use kore_io_websocket.Base.{ℕ, ◌≡◌, refl, [], ◌∷◌, none, some, arith}
use kore_io_websocket.Media.{World, update}
use kore_io_websocket.Media.Rooms.{media_dec}
use kore_io_websocket.Media.Registry.{Registry, make, add, get, close, run, replay, answers, act}
use kore_io_websocket.Media.Registry.Represents.{Represents, held}
use kore_io_websocket.Media.Registry.Refines.{run_refines, second_add_dangles}
use kore_io_websocket.Media.Registry.Refines.Release.{left, release_frees}
use kore_io_websocket.Media.Numbers.{rand32, rand32_remainder}
use kore_io_websocket.Media.Examples.{table, Table}

-- A media object at 1 with no rooms, as `media_new` makes it.
abbrev empty : World Table
empty = record {
  rooms = λ p. none;
  medias = update (λ p. none) 1 (some (record { a = 1; rooms = none; count = 1 }));
  vid = 0;
  told = [];
}

abbrev nothing : Registry
nothing = record { under = λ k. none; spare = λ p. none; last = 0 }

empty-Represents : Represents table 1 empty nothing
empty-Represents = record {
  media = record { a = 1; rooms = none; count = 1 };
  here = refl;
  one = refl;
  table = λ k. refl;
  opened = λ k p e. absurd (cc);
  spared = λ p b e. absurd (cc);
  alone = λ p q b e f. absurd (cc);
  owned = λ p r e. absurd (cc);
  numbers = refl;
}

run_refines_example :
    (w : World Table) × (run table 1 (make 5 ∷ add 5 ∷ get 1 ∷ close 1 ∷ get 1 ∷ []) empty
      ≡ some (5 ∷ 0 ∷ 5 ∷ 0 ∷ 0 ∷ [], w))
    × Represents table 1 w (replay (make 5 ∷ add 5 ∷ get 1 ∷ close 1 ∷ get 1 ∷ []) nothing)
unfolding answers
run_refines_example =
    run_refines table 1 (omega arith) (make 5 ∷ add 5 ∷ get 1 ∷ close 1 ∷ get 1 ∷ []) empty nothing
      empty-Represents ((omega arith, refl, λ k e. cc), ((1, refl), (tt, (tt, (tt, tt)))))

-- Two rooms, of which one was added.
abbrev two : World Table
two = record {
  rooms = update (update (λ p. none) 5 (some (held 1))) 6 (some (held 2));
  medias =
      update (λ p. none) 1
        (some (record { a = 1; rooms = some (((1, (5, 5)) ∷ []), (tt, tt)); count = 1 }));
  vid = 2;
  told = 1 ∷ [];
}

abbrev one_added : Registry
one_added = record {
  under = update (λ k. none) 1 (some 5);
  spare = update (λ p. none) 6 (some 2);
  last = 2;
}

two-Represents : Represents table 1 two one_added
two-Represents = record {
  media = record { a = 1; rooms = some (((1, (5, 5)) ∷ []), (tt, tt)); count = 1 };
  here = refl;
  one = refl;
  table = λ k. ground arith;
  opened = λ k p e. ground arith;
  spared = λ p b e. ground arith;
  alone = λ p q b e f. ground arith;
  owned = λ p r e. ground arith;
  numbers = refl;
}

release_frees_example :
    (w : World Table) × (media_dec table 1 two ≡ some (tt, w))
    × (w.medias 1 ≡ none)
    × ((q : ℕ) → w.rooms q ≡ left one_added q)
release_frees_example = release_frees table 1 (omega arith) two one_added two-Represents

second_add_dangles_example :
    (w : World Table) × (run table 1 (add 6 ∷ add 6 ∷ []) two ≡ some (0 ∷ 0 ∷ [], w))
    × (w.rooms 6 ≡ none)
    × (act table 1 (get 2) w ≡ none)
second_add_dangles_example =
    second_add_dangles table 1 (omega arith) 6 2 two one_added two-Represents refl

rand32_remainder_example : rand32 10000000 99999999 (2147483647 ∷ []) ≡ some (87483647, [])
rand32_remainder_example =
    rand32_remainder 10000000 99999999 (omega arith) (omega arith) (omega arith) 2147483647 []
      (omega arith)
